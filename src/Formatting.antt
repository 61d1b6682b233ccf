-- ===== src/Formatting.antt =====
-- formatting.py: the Markdown of a review, of the placeholders and of the footnotes. A finding is
-- its fields with what `str` shows of their values. Times are seconds; the rendering of a number
-- with a fraction is a parameter.
pub mod Bodies
pub mod Escape
pub mod Rows
pub mod Marked
pub mod Notes
mod Tests
use pr_review_bot.Prelude.{
  ℕ, zero, suc, ◌+◌, ◌/◌, ◌%◌, Bool, true, false, not, Option, none, some, List, [], ◌∷◌, ◌++◌, map,
  if◌then◌else◌, ◌==◌, ltb, Text, codes, text_eq, is_space, rstrip, decimal, length,
}
use pr_review_bot.Comments.{
  comment_marker, fail_note_start, fail_note_end, schedule_note_start, schedule_note_end,
}

-- `s.replace(c, by)` for one character.
unfoldable pub replace : ℕ → Text → Text → Text
replace c by [] = []
replace c by (x ∷ xs) = (if x == c then by else x ∷ []) ++ replace c by xs

abbrev pub join : Text → List Text → Text
join sep [] = []
join sep (x ∷ []) = x
join sep (x ∷ y ∷ ys) = x ++ (sep ++ join sep (y ∷ ys))

-- `s.strip()`
unfoldable pub lstrip : Text → Text
lstrip [] = []
lstrip (x ∷ xs) = let rest = lstrip xs in if is_space x then rest else x ∷ xs

abbrev pub strip : Text → Text
strip s = rstrip (lstrip s)

-- `d.get(key, default)`
unfoldable pub field_of : List (Text × Text) → Text → Text → Text
field_of [] key default = default
field_of ((k, v) ∷ rest) key default =
    let later = field_of rest key default in if text_eq k key then v else later

-- `_SEVERITY_EMOJI`
abbrev severity_emoji : List (Text × Text)
severity_emoji =
    (codes "critical", codes "🔴") ∷ (codes "high", codes "🟠") ∷ (codes "medium", codes "🟡") ∷ []

-- The formatter of the severity columns.
unfoldable pub with_emoji : Text → Text
unfolding field_of
with_emoji v = strip (field_of severity_emoji v [] ++ (codes " " ++ v))

abbrev pub placeholder_daily_threshold : ℕ
placeholder_daily_threshold = 300

pub data Specialist : Type 0 where
  security : Specialist
  performance : Specialist
  code_quality : Specialist

abbrev pub specialist_name : Specialist → Text
specialist_name security = codes "Security"
specialist_name performance = codes "Performance"
specialist_name code_quality = codes "Code Quality"

pub record Column : Type 0 where
  pub key : Text
  pub label : Text
  pub has_emoji : Bool

abbrev column : Text → Text → Column
column key label = record { key = key; label = label; has_emoji = false }

abbrev emoji_column : Text → Text → Column
emoji_column key label = record { key = key; label = label; has_emoji = true }

abbrev pub file_line_key : Text
file_line_key = codes "_file_line"

-- `_SECTION_CONFIG`
unfoldable pub columns : Specialist → List Column
columns security =
    emoji_column (codes "severity") (codes "Severity")
    ∷ column file_line_key (codes "Line")
    ∷ column (codes "description") (codes "Issue")
    ∷ column (codes "fix") (codes "Suggested fix")
    ∷ []
columns performance =
    emoji_column (codes "estimated_impact") (codes "Impact")
    ∷ column file_line_key (codes "Line")
    ∷ column (codes "type") (codes "Issue")
    ∷ column (codes "suggestion") (codes "Suggestion")
    ∷ []
columns code_quality =
    column (codes "category") (codes "Category")
    ∷ column file_line_key (codes "Line")
    ∷ column (codes "issue") (codes "Issue")
    ∷ column (codes "refactoring_suggestion") (codes "Refactoring suggestion")
    ∷ []

abbrev pub Finding : Type 0
Finding = List (Text × Text)

pub data SpecialistStatus : Type 0 where
  ok : SpecialistStatus
  failed : SpecialistStatus

-- `SpecialistResult` of specialists/schemas.py
pub record SpecialistResult : Type 0 where
  pub name : Specialist
  pub status : SpecialistStatus
  pub findings : List Finding
  pub error : Option Text
  pub elapsed_ms : ℕ
  pub tokens_in : ℕ
  pub tokens_out : ℕ

unfoldable pub escape_cell : Text → Text
unfolding replace
escape_cell text = replace 10 (codes " ") (replace 96 (codes "'") (replace 124 (codes "\\|") text))

abbrev pub file_line : Finding → Text
file_line finding =
    codes "`"
    ++ (escape_cell (field_of finding (codes "file") (codes "?"))
        ++ (codes ":" ++ (field_of finding (codes "line") (codes "?") ++ codes "`")))

abbrev pub plural_s : ℕ → Text
plural_s n = if n == 1 then [] else codes "s"

abbrev outcome_text : SpecialistStatus → List Finding → Text
outcome_text failed fs = codes "❌ check failed"
outcome_text ok [] = codes "✅ no findings"
outcome_text ok (f ∷ fs) =
    codes "❌ " ++ (decimal (length (f ∷ fs)) ++ (codes " finding" ++ plural_s (length (f ∷ fs))))

abbrev pub summary_row : SpecialistResult → Text
summary_row spec =
    codes "| "
    ++ (specialist_name spec.name
        ++ (codes " | " ++ (outcome_text spec.status spec.findings ++ codes " |")))

abbrev pub render_summary_table : List SpecialistResult → Text
render_summary_table results =
    codes "| Specialist | Result |\n| --- | --- |\n"
    ++ (join (codes "\n") (map summary_row results) ++ codes "\n")

-- One cell of a row: the loop's body.
abbrev pub cell : Finding → Column → Text
cell finding c =
    if text_eq c.key file_line_key
    then file_line finding
    else escape_cell
        (if c.has_emoji then with_emoji (field_of finding c.key []) else field_of finding c.key [])

abbrev pub row : List Column → Finding → Text
row cs finding = codes "| " ++ (join (codes " | ") (map (cell finding) cs) ++ codes " |")

abbrev pub findings_table : List Column → List Finding → Text
findings_table cs findings =
    codes "| "
    ++ (join (codes " | ") (map (λ c. c.label) cs)
        ++ (codes " |\n| "
            ++ (join (codes " | ") (map (λ c. codes "---") cs)
                ++ (codes " |\n" ++ join (codes "\n") (map (row cs) findings)))))

-- What `str` shows of an optional text.
abbrev shown : Option Text → Text
shown none = codes "None"
shown (some t) = t

abbrev section_body : Specialist → SpecialistStatus → List Finding → Option Text → Text
section_body name failed fs error =
    codes "❌ check failed\n> `"
    ++ (escape_cell (shown error) ++ codes "` — other checks completed normally.\n")
section_body name ok [] error = codes "✅ no findings\n"
section_body name ok (f ∷ fs) error = findings_table (columns name) (f ∷ fs) ++ codes "\n"

abbrev pub render_section : SpecialistResult → Text
render_section spec =
    codes "### "
    ++ (specialist_name spec.name
        ++ (codes "\n" ++ section_body spec.name spec.status spec.findings spec.error))
