-- ===== src/Diff/Tests.antt =====
-- A diff of one file, and the theorems at it.
use pr_review_bot.Prelude.{
  ℕ, ◌≡◌, refl, String, codes, Option, none, some, [], ◌∷◌, ◌++◌, str_eq, if◌then◌else◌,
}
use pr_review_bot.Diff.{plain, numbered, Cursor, at_start, annotate}
use pr_review_bot.Diff.Capped.{truncation_marker, annotate_and_cap}
use pr_review_bot.Diff.Laws.{annotate_hunk}

-- The matches on the headers of this diff.
abbrev file_header : String → Option String
file_header line = if str_eq line "diff --git a/app.py b/app.py" then some "app.py" else none

abbrev hunk_header : String → Option ℕ
hunk_header line = if str_eq line "@@ -12,2 +12,3 @@" then some 12 else none

abbrev in_app : Cursor
in_app = record { current_file = some "app.py"; new_lineno = none }

numbers :
    annotate file_header hunk_header at_start (
      "diff --git a/app.py b/app.py" ∷ "+++ b/app.py" ∷ "@@ -12,2 +12,3 @@" ∷ " a" ∷ "-b"
      ∷ "\\ No newline at end of file" ∷ "+c" ∷ "+d" ∷ [])
    ≡ plain "diff --git a/app.py b/app.py"
      ∷ plain "+++ b/app.py"
      ∷ plain "@@ -12,2 +12,3 @@"
      ∷ plain " a"
      ∷ plain "-b"
      ∷ plain "\\ No newline at end of file"
      ∷ numbered "app.py" 13 "+c"
      ∷ numbered "app.py" 14 "+d"
      ∷ []
unfolding annotate
numbers = refl

-- Removing a line of text "-- x" shifts the numbers that follow.
shifted :
    annotate file_header hunk_header in_app ("@@ -12,2 +12,3 @@" ∷ "--- x" ∷ "+c" ∷ [])
    ≡ plain "@@ -12,2 +12,3 @@" ∷ plain "--- x" ∷ numbered "app.py" 13 "+c" ∷ []
unfolding annotate
shifted = refl

annotate_hunk_example :
    annotate file_header hunk_header in_app ("@@ -12,2 +12,3 @@" ∷ " a" ∷ "-b" ∷ "+c" ∷ " d" ∷ [])
    ≡ plain "@@ -12,2 +12,3 @@"
      ∷ (annotate file_header hunk_header
            (record { current_file = some "app.py"; new_lineno = some 12 })
            (" a" ∷ "-b" ∷ [])
          ++ (numbered "app.py" 13 "+c"
              ∷ annotate file_header hunk_header
                  (record { current_file = some "app.py"; new_lineno = some 14 })
                  (" d" ∷ [])))
annotate_hunk_example =
    annotate_hunk file_header hunk_header "app.py" "@@ -12,2 +12,3 @@" "+c" 12 (" a" ∷ "-b" ∷ [])
      (" d" ∷ []) in_app refl refl refl ((refl, refl), ((refl, refl), tt)) (refl, refl) refl

cut_text :
    (annotate_and_cap file_header hunk_header ("ab" ∷ "cdef" ∷ []) 1).text
    ≡ codes "ab\nc" ++ truncation_marker
unfolding annotate_and_cap annotate
cut_text = refl
