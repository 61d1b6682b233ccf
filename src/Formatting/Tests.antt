-- ===== src/Formatting/Tests.antt =====
-- Runs of the formatting, and the theorems at concrete findings.
use pr_review_bot.Prelude.{
  ℕ, ◌≡◌, is_space, rstrip, decimal, ◌*◌, ◌+◌, refl, true, false, none, [], ◌∷◌, ◌++◌, arith, Text,
  codes,
}
use pr_review_bot.Number.Natural.{natural}
use pr_review_bot.Comments.{
  schedule_note_start, schedule_note_end, strip_existing_footnote, with_footnote, marked_body,
}
use pr_review_bot.Formatting.{
  columns, row, Finding, security, replace, field_of, with_emoji, lstrip, escape_cell,
}
use pr_review_bot.Formatting.Bodies.{
  ReviewResult, format_comment, format_placeholder, format_failure, format_failure_footnote,
  format_schedule_notice, schedule_text, of_provider, by_provider, thousands, hour_minute,
}
use pr_review_bot.Formatting.Escape.{count, bare_pipes}
use pr_review_bot.Formatting.Rows.{row_lem}
use pr_review_bot.Formatting.Marked.{marked_body-formatted}
use pr_review_bot.Formatting.Notes.{strip-with_footnote}

-- A finding whose texts try to break the table.
abbrev hostile : Finding
hostile =
    (codes "severity", codes "high")
    ∷ (codes "file", codes "a|b.py")
    ∷ (codes "line", codes "12")
    ∷ (codes "description", codes "x |\n| y")
    ∷ (codes "fix", codes "use `z`")
    ∷ []

hostile-row :
    row (columns security) hostile ≡ codes "| 🟠 high | `a\\|b.py:12` | x \\| \\| y | use 'z' |"
unfolding columns field_of escape_cell replace with_emoji lstrip is_space rstrip
hostile-row = refl

grouped_digits : thousands 1234567 ≡ codes "1,234,567"
unfolding thousands decimal
grouped_digits = refl

afternoon : hour_minute (1000000 * (86400 * 3 + 3600 * 13 + 60 * 5 + 59)) ≡ codes "13:05 UTC"
unfolding hour_minute
afternoon = refl

row_lem_example :
    (count 10 (row (columns security) hostile) ≡ 0)
    × (bare_pipes false (row (columns security) hostile) ≡ 5)
unfolding field_of count
row_lem_example = row_lem security hostile (omega arith, (omega arith, tt)) refl

abbrev review : ReviewResult ℕ
review = record {
  pr_number = 4;
  provider_name = codes "groq";
  model = codes "m";
  results = [];
  total_elapsed_ms = 900;
  total_tokens_in = 10;
  total_tokens_out = 20;
  est_cost_usd = none;
  diff_truncated = true;
}

marked_body-formatted_example :
    (marked_body (format_comment thousands thousands review)
      ≡ format_comment thousands thousands review)
    × (marked_body (format_placeholder natural 400 7 by_provider)
        ≡ format_placeholder natural 400 7 by_provider)
    × (marked_body (format_failure 3) ≡ format_failure 3)
marked_body-formatted_example =
    marked_body-formatted thousands thousands review natural 400 7 by_provider 3

abbrev notice : Text
notice = schedule_note_start ++ (schedule_text 60000000 of_provider ++ schedule_note_end)

strip-with_footnote_example :
    (strip_existing_footnote (with_footnote (codes "fine ") (format_failure_footnote 3))
      ≡ strip_existing_footnote (codes "fine "))
    × (strip_existing_footnote (with_footnote (codes "fine ") notice)
        ≡ strip_existing_footnote (codes "fine "))
unfolding format_schedule_notice
strip-with_footnote_example = strip-with_footnote (codes "fine ") 3 60000000 of_provider notice refl
