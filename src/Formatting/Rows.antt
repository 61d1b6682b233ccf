-- ===== src/Formatting/Rows.antt =====
-- The rows and tables of findings.
use mathlib.Core.List.{append_assoc}
use pr_review_bot.Prelude.{
  ℕ, suc, ◌+◌, ◌<◌, ◌≡◌, ◌≢◌, refl, ap, ◌∙◌, Bool, false, Option, List, [], ◌∷◌, ◌++◌, map, arith,
  if_cases, Text, codes, text_eq, length, All,
}
use pr_review_bot.Formatting.{
  join, field_of, Column, columns, Finding, escape_cell, file_line, file_line_key, cell, row,
  findings_table, Specialist, ok, render_section, specialist_name, security, performance,
  code_quality,
}
use pr_review_bot.Formatting.Escape.{
  count, bare_pipes, count-append, bare_pipes-other, escape_cell-newlines, bare_pipes-escape_cell,
  bare_pipes-plain,
}

-- The number of a finding's line is shown as it is.
abbrev pub line_shown : Finding → Text
line_shown finding = field_of finding (codes "line") (codes "?")

abbrev pub IsPlain : Text → Type 0
IsPlain t = All (λ c. c ≢ 124) t × (count 10 t ≡ 0)

file_line-bare_pipes :
    (f : Finding) (b : Bool) (ys : Text)
    → All (λ c. c ≢ 124) (line_shown f)
    → bare_pipes b (file_line f ++ 32 ∷ ys) ≡ bare_pipes false ys
file_line-bare_pipes f b ys a =
    let name = field_of f (codes "file") (codes "?") in
    bare_pipes-other b 96 _ (omega arith)
    ∙ ap (bare_pipes false) (
        append_assoc (escape_cell name) (58 ∷ (line_shown f ++ codes "`")) (32 ∷ ys)
        ∙ ap (λ l. escape_cell name ++ 58 ∷ l) (append_assoc (line_shown f) (codes "`") (32 ∷ ys)))
    ∙ bare_pipes-escape_cell name false 58 (line_shown f ++ (96 ∷ 32 ∷ ys)) (omega arith)
    ∙ bare_pipes-plain (line_shown f) false 96 (32 ∷ ys) a (omega arith)
    ∙ bare_pipes-other false 32 ys (omega arith)

-- What a cell holds: the file and line, or an escaped text.
cell_cases {ℓ} :
    (P : Text → Type ℓ) (f : Finding) (c : Column)
    → P (file_line f)
    → ((t : Text) → P (escape_cell t))
    → P (cell f c)
cell_cases P f c hl ht =
    if_cases P (text_eq c.key file_line_key) (file_line f) _ (λ e. hl) (λ e. ht _)

cell-bare_pipes :
    (f : Finding) (c : Column) (b : Bool) (ys : Text)
    → All (λ c. c ≢ 124) (line_shown f)
    → bare_pipes b (cell f c ++ 32 ∷ ys) ≡ bare_pipes false ys
cell-bare_pipes f c b ys a =
    cell_cases (λ t. bare_pipes b (t ++ 32 ∷ ys) ≡ bare_pipes false ys) f c
      (file_line-bare_pipes f b ys a) (λ t. bare_pipes-escape_cell t b 32 ys (omega arith))

cells-bare_pipes :
    (f : Finding) (c : Column) (cs : List Column) (b : Bool)
    → All (λ c. c ≢ 124) (line_shown f)
    → bare_pipes b (join (codes " | ") (map (cell f) (c ∷ cs)) ++ codes " |") ≡ length (c ∷ cs)
unfolding bare_pipes
cells-bare_pipes f c [] b a = cell-bare_pipes f c b (124 ∷ []) a
cells-bare_pipes f c (d ∷ cs) b a =
    ap (bare_pipes b) (append_assoc (cell f c) _ (codes " |"))
    ∙ cell-bare_pipes f c b (124 ∷ 32 ∷ (join (codes " | ") (map (cell f) (d ∷ cs)) ++ codes " |"))
        a
    ∙ omega (arith, cells-bare_pipes f d cs false a)

file_line-newlines : (f : Finding) → count 10 (line_shown f) ≡ 0 → count 10 (file_line f) ≡ 0
unfolding count
file_line-newlines f h =
    let name = field_of f (codes "file") (codes "?") in
    omega (
      arith,
      escape_cell-newlines name,
      count-append 10 (escape_cell name) (58 ∷ (line_shown f ++ codes "`")),
      count-append 10 (line_shown f) (codes "`"),
      h,
    )

cells-newlines :
    (f : Finding) (cs : List Column)
    → count 10 (line_shown f) ≡ 0
    → count 10 (join (codes " | ") (map (cell f) cs)) ≡ 0
unfolding count
cells-newlines f [] h = refl
cells-newlines f (c ∷ []) h =
    cell_cases (λ t. count 10 t ≡ 0) f c (file_line-newlines f h) escape_cell-newlines
cells-newlines f (c ∷ d ∷ cs) h = omega (
  arith,
  count-append 10 (cell f c) (codes " | " ++ join (codes " | ") (map (cell f) (d ∷ cs))),
  cell_cases (λ t. count 10 t ≡ 0) f c (file_line-newlines f h) escape_cell-newlines,
  cells-newlines f (d ∷ cs) h,
)

row-newlines :
    (f : Finding) (cs : List Column) → count 10 (line_shown f) ≡ 0 → count 10 (row cs f) ≡ 0
unfolding count
row-newlines f cs h = omega (
  arith,
  count-append 10 (join (codes " | ") (map (cell f) cs)) (codes " |"),
  cells-newlines f cs h,
)

row-bare_pipes :
    (f : Finding) (cs : List Column)
    → 0 < length cs
    → All (λ c. c ≢ 124) (line_shown f)
    → bare_pipes false (row cs f) ≡ suc (length cs)
unfolding bare_pipes
row-bare_pipes f [] h a = absurd (omega arith)
row-bare_pipes f (c ∷ cs) h a = omega (arith, cells-bare_pipes f c cs false a)

row-four :
    (name : Specialist) (f : Finding)
    → All (λ c. c ≢ 124) (line_shown f)
    → bare_pipes false (row (columns name) f) ≡ 5
unfolding columns
row-four security f a = row-bare_pipes f (columns security) (omega arith) a
row-four performance f a = row-bare_pipes f (columns performance) (omega arith) a
row-four code_quality f a = row-bare_pipes f (columns code_quality) (omega arith) a

-- The row of a finding has no line feed and five pipes that no backslash precedes, so four cells,
-- whatever texts the finding has, if the line number that is shown has no line feed and no pipe.
pub row_lem :
    (name : Specialist) (f : Finding)
    → All (λ c. c ≢ 124) (line_shown f)
    → count 10 (line_shown f) ≡ 0
    → (count 10 (row (columns name) f) ≡ 0) × (bare_pipes false (row (columns name) f) ≡ 5)
row_lem name f a h = (row-newlines f (columns name) h, row-four name f a)

rows-newlines :
    (cs : List Column) (f : Finding) (fs : List Finding)
    → All (λ g. count 10 (line_shown g) ≡ 0) (f ∷ fs)
    → count 10 (join (codes "\n") (map (row cs) (f ∷ fs))) ≡ length fs
unfolding count
rows-newlines cs f [] a = row-newlines f cs a.0
rows-newlines cs f (g ∷ fs) a = omega (
  arith,
  count-append 10 (row cs f) (codes "\n" ++ join (codes "\n") (map (row cs) (g ∷ fs))),
  row-newlines f cs a.0,
  rows-newlines cs g fs a.1,
)

name-newlines : (name : Specialist) → count 10 (specialist_name name) ≡ 0
unfolding count
name-newlines security = refl
name-newlines performance = refl
name-newlines code_quality = refl

findings_table-newlines :
    (name : Specialist) (f : Finding) (fs : List Finding)
    → All (λ g. count 10 (line_shown g) ≡ 0) (f ∷ fs)
    → count 10 (findings_table (columns name) (f ∷ fs)) ≡ length fs + 2
unfolding columns count
findings_table-newlines security f fs a = omega (arith, rows-newlines (columns security) f fs a)
findings_table-newlines performance f fs a =
    omega (arith, rows-newlines (columns performance) f fs a)
findings_table-newlines code_quality f fs a =
    omega (arith, rows-newlines (columns code_quality) f fs a)

-- The section of a specialist with findings has a line for each finding and three more, the name
-- and the head of the table, whatever texts the findings have, if no line number that is shown has
-- a line break.
pub render_section-newlines :
    (name : Specialist) (f : Finding) (fs : List Finding) (error : Option Text) (ms tin tout : ℕ)
    → All (λ g. count 10 (line_shown g) ≡ 0) (f ∷ fs)
    → count 10 (
        render_section (record {
          name = name;
          status = ok;
          findings = f ∷ fs;
          error = error;
          elapsed_ms = ms;
          tokens_in = tin;
          tokens_out = tout;
        }))
      ≡ length (f ∷ fs) + 3
unfolding count
render_section-newlines name f fs error ms tin tout a = omega (
  arith,
  count-append 10 (specialist_name name)
      (codes "\n" ++ (findings_table (columns name) (f ∷ fs) ++ codes "\n")),
  name-newlines name,
  count-append 10 (findings_table (columns name) (f ∷ fs)) (codes "\n"),
  findings_table-newlines name f fs a,
)
