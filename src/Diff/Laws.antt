-- ===== src/Diff/Laws.antt =====
-- The numbers that the annotation gives to added lines.
use mathlib.Core.Path.{ap₂}
use pr_review_bot.Prelude.{
  ℕ, ◌+◌, ◌≡◌, refl, ap, ◌∙◌, String, Bool, true, false, Option, none, some, List, [], ◌∷◌, ◌++◌,
  map, if◌then◌else◌, arith, All, length, select,
}
use pr_review_bot.Diff.{
  Shown, plain, numbered, Cursor, is_added, is_removed, is_no_newline, in_hunk, annotate_line,
  annotate,
}

-- The text of an output line without its prefix.
abbrev pub unprefixed : Shown → String
unprefixed (plain line) = line
unprefixed (numbered file n line) = line

-- A line that takes a number: all but the remark on a missing newline and the lines that start
-- with a dash. A line that starts with three dashes takes one.
abbrev pub takes_number : String → Bool
takes_number line =
    if is_added line
    then true
    else if is_removed line
    then false
    else if is_no_newline line
    then false
    else true

if_true : {A : Type 0} (b : Bool) (x y : A) → b ≡ true → (if b then x else y) ≡ x
if_true b x y h = ground arith

module _ (file_header : String → Option String) (hunk_header : String → Option ℕ) where
  abbrev pub IsBody : String → Type 0
  IsBody line = (file_header line ≡ none) × (hunk_header line ≡ none)

  unprefixed_line :
      (k : Cursor) (line : String)
      → unprefixed (annotate_line file_header hunk_header k line).0 ≡ line
  unfolding annotate_line
  unprefixed_line k line = ground arith

  -- The annotation only puts prefixes before lines: without them the lines are those of the diff.
  pub annotate-unprefixed :
      (lines : List String) (k : Cursor)
      → map unprefixed (annotate file_header hunk_header k lines) ≡ lines
  unfolding annotate
  annotate-unprefixed [] k = refl
  annotate-unprefixed (line ∷ lines) k =
      ap₂ ◌∷◌ (unprefixed_line k line) (annotate-unprefixed lines _)

  body_line :
      (file : String) (n : ℕ) (line : String)
      → IsBody line
      → annotate_line file_header hunk_header
          (record { current_file = some file; new_lineno = some n })
          line
        ≡ (
          (in_hunk file n line).0,
          record {
            current_file = some file;
            new_lineno = some (if takes_number line then n + 1 else n);
          },
        )
  unfolding annotate_line
  body_line file n line (e, h) = ground arith

  abbrev in_file : String → ℕ → Cursor
  in_file file n = record { current_file = some file; new_lineno = some n }

  -- The cursor after some lines.
  abbrev passed : List String → Cursor → Cursor
  passed [] k = k
  passed (x ∷ xs) k = passed xs (annotate_line file_header hunk_header k x).1

  annotate-append :
      (xs ys : List String) (k : Cursor)
      → annotate file_header hunk_header k (xs ++ ys)
        ≡ annotate file_header hunk_header k xs ++ annotate file_header hunk_header (passed xs k) ys
  unfolding annotate
  annotate-append [] ys k = refl
  annotate-append (x ∷ xs) ys k =
      ap (λ l. (annotate_line file_header hunk_header k x).0 ∷ l)
        (annotate-append xs ys (annotate_line file_header hunk_header k x).1)

  passed_body :
      (xs : List String) (file : String) (n : ℕ)
      → All IsBody xs
      → passed xs (in_file file n) ≡ in_file file (n + length (select takes_number xs))
  passed_body [] file n a = ap (in_file file) (omega arith)
  passed_body (x ∷ xs) file n a =
      ap (λ r. passed xs r.1) (body_line file n x a.0)
      ∙ passed_body xs file (if takes_number x then n + 1 else n) a.1
      ∙ ap (in_file file) (shift (takes_number x) (select takes_number xs))
    where
      shift :
          (b : Bool) (rest : List String)
          → (if b then n + 1 else n) + length rest ≡ n + length (if b then x ∷ rest else rest)
      shift true rest = omega arith
      shift false rest = omega arith

  added_line :
      (file : String) (n : ℕ) (line : String) (after : List String)
      → IsBody line
      → is_added line ≡ true
      → annotate file_header hunk_header (in_file file n) (line ∷ after)
        ≡ numbered file n line ∷ annotate file_header hunk_header (in_file file (n + 1)) after
  unfolding annotate annotate_line
  added_line file n line after (e, h) g =
      ap (λ (r : Shown × Cursor). r.0 ∷ annotate file_header hunk_header r.1 after)
        (plain_body
          ∙ ap (λ (r : Shown × ℕ). (r.0, in_file file r.1)) (if_true (is_added line) _ _ g))
    where
      plain_body :
          annotate_line file_header hunk_header (in_file file n) line
          ≡ ((in_hunk file n line).0, in_file file (in_hunk file n line).1)
      plain_body = rw (e, h, annotate_line) refl

  -- In a file, after a hunk header that names the new line number n, and lines of the hunk of which
  -- m take a number, an added line is given the number n + m; the lines before it are annotated
  -- from n on, and those after it from n + m + 1 on.
  pub annotate_hunk :
      (file header line : String) (n : ℕ) (before after : List String) (k : Cursor)
      → k.current_file ≡ some file
      → file_header header ≡ none
      → hunk_header header ≡ some n
      → All IsBody before
      → IsBody line
      → is_added line ≡ true
      → annotate file_header hunk_header k (header ∷ (before ++ (line ∷ after)))
        ≡ plain header
          ∷ (annotate file_header hunk_header (in_file file n) before
              ++ (numbered file (n + length (select takes_number before)) line
                  ∷ annotate file_header hunk_header
                      (in_file file (n + length (select takes_number before) + 1))
                      after))
  unfolding annotate annotate_line
  annotate_hunk file header line n before after k f e h a b g =
      header_line
      ∙ ap (λ l. plain header ∷ l)
          (annotate-append before (line ∷ after) (in_file file n)
            ∙ ap (λ l. annotate file_header hunk_header (in_file file n) before ++ l)
                (ap (λ c. annotate file_header hunk_header c (line ∷ after))
                    (passed_body before file n a)
                  ∙ added_line file (n + length (select takes_number before)) line after b g))
    where
      opened :
          annotate_line file_header hunk_header k header
          ≡ (plain header, record { current_file = k.current_file; new_lineno = some n })
      opened = rw (e, h, annotate_line) refl

      header_line :
          annotate file_header hunk_header k (header ∷ (before ++ (line ∷ after)))
          ≡ plain header
            ∷ annotate file_header hunk_header (in_file file n) (before ++ (line ∷ after))
      header_line =
          ap
            (λ (r : Shown × Cursor).
              r.0 ∷ annotate file_header hunk_header r.1 (before ++ (line ∷ after)))
            (opened
              ∙ ap
                  (λ (x : Option String).
                    (plain header, record { current_file = x; new_lineno = some n }))
                  f)
