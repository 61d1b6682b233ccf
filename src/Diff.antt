-- ===== src/Diff.antt =====
-- `_annotate` of diff_utils.py on the lines of a diff. The matches of the two regular expressions
-- are parameters: the file of a `diff --git` line, and the first new line number of a hunk header.
-- A prefixed line is kept as its file, number and text.
pub mod Capped
pub mod Laws
mod Tests
use pr_review_bot.Prelude.{
  ℕ, ◌+◌, String, Bool, true, false, not, ◌&&◌, Option, none, some, List, [], ◌∷◌, if◌then◌else◌,
  starts_with,
}

-- A line of the output: as it was, or `file:number: line`.
pub data Shown : Type 0 where
  plain : String → Shown
  numbered : String → ℕ → String → Shown

-- `current_file` and `new_lineno`.
pub record Cursor : Type 0 where
  pub current_file : Option String
  pub new_lineno : Option ℕ

abbrev pub is_added : String → Bool
is_added line = starts_with line "+" && not (starts_with line "+++")

abbrev pub is_removed : String → Bool
is_removed line = starts_with line "-" && not (starts_with line "---")

abbrev pub is_no_newline : String → Bool
is_no_newline line = starts_with line "\\ No newline at end of file"

-- A line inside a hunk, and the number of the next line.
abbrev pub in_hunk : String → ℕ → String → Shown × ℕ
in_hunk file n line =
    if is_added line
    then (numbered file n line, n + 1)
    else if is_removed line
    then (plain line, n)
    else if is_no_newline line
    then (plain line, n)
    else (plain line, n + 1)

module _ (file_header : String → Option String) (hunk_header : String → Option ℕ) where
  abbrev pub body : Option String → Option ℕ → String → Shown × Cursor
  body none n line = (plain line, record { current_file = none; new_lineno = n })
  body (some file) none line = (plain line, record { current_file = some file; new_lineno = none })
  body (some file) (some n) line =
      let (shown, next) = in_hunk file n line in
      (shown, record { current_file = some file; new_lineno = some next })

  unfoldable pub annotate_line : Cursor → String → Shown × Cursor
  annotate_line k line = elim (file_header line) [
    | some file ↦ (plain line, record { current_file = some file; new_lineno = none })
    | none ↦ elim (hunk_header line) [
      | some start ↦ (plain line, record k { new_lineno = some start })
      | none ↦ body k.current_file k.new_lineno line
    ]
  ]

  unfoldable pub annotate : Cursor → List String → List Shown
  unfolding annotate_line
  annotate k [] = []
  annotate k (line ∷ lines) = let (shown, k') = annotate_line k line in shown ∷ annotate k' lines

abbrev pub at_start : Cursor
at_start = record { current_file = none; new_lineno = none }
