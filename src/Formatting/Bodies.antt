-- ===== src/Formatting/Bodies.antt =====
-- The bodies of comments that formatting.py writes: the review, the placeholder, the failure and the
-- two footnotes. `seconds` renders milliseconds as seconds with one digit after the point, and
-- `dollars` a price with four.
use pr_review_bot.Prelude.{
  ℕ, zero, suc, ◌+◌, ◌/◌, ◌%◌, Bool, true, false, not, Option, none, some, List, [], ◌∷◌, ◌++◌, map,
  if◌then◌else◌, ◌==◌, ltb, Text, codes, decimal, length,
}
use pr_review_bot.Comments.{
  comment_marker, fail_note_start, fail_note_end, schedule_note_start, schedule_note_end,
}
use pr_review_bot.Number.{Number}
use pr_review_bot.Formatting.{
  SpecialistResult, render_summary_table, render_section, join, placeholder_daily_threshold,
}

-- `ReviewResult` of specialists/schemas.py
pub record ReviewResult (Price : Type 0) : Type 0 where
  pub pr_number : ℕ
  pub provider_name : Text
  pub model : Text
  pub results : List SpecialistResult
  pub total_elapsed_ms : ℕ
  pub total_tokens_in : ℕ
  pub total_tokens_out : ℕ
  pub est_cost_usd : Option Price
  pub diff_truncated : Bool

abbrev pub two_digits : ℕ → Text
two_digits n = (48 + n / 10 % 10) ∷ (48 + n % 10) ∷ []

abbrev pub three_digits : ℕ → Text
three_digits n = (48 + n / 100 % 10) ∷ two_digits n

-- A count with `:,`. Each group divides by 1000, so the number itself is fuel enough.
abbrev grouped : ℕ → ℕ → Text
grouped zero n = decimal n
grouped (suc fuel) n =
    let more = grouped fuel (n / 1000) ++ (codes "," ++ three_digits (n % 1000)) in
    if ltb n 1000 then decimal n else more

unfoldable pub thousands : ℕ → Text
thousands n = grouped n n

-- `strftime("%H:%M UTC")` of an instant in UTC, which counts microseconds.
unfoldable pub hour_minute : ℕ → Text
hour_minute t =
    let minutes = t / 60000000 in
    two_digits (minutes / 60 % 24) ++ (codes ":" ++ (two_digits (minutes % 60) ++ codes " UTC"))

-- The warning sign in its emoji form.
abbrev pub warning : Text
warning = 9888 ∷ 65039 ∷ []

abbrev pub truncated_note : Bool → Text
truncated_note true =
    codes "\n"
    ++ (warning
        ++ codes
            " This PR's diff exceeded the review token budget and was truncated — some changes may not have been reviewed.\n")
truncated_note false = []

module _ {Price : Type 0} (seconds : ℕ → Text) (dollars : Price → Text) where
  abbrev cost_text : Option Price → Text
  cost_text none = []
  cost_text (some c) = codes " · ~$" ++ dollars c

  abbrev cost_footer : Option Price → Text
  cost_footer none = []
  cost_footer (some c) = codes "est. $" ++ (dollars c ++ codes " · ")

  abbrev review_header : ReviewResult Price → Text
  review_header r =
      codes "## Automated Code Review\n_"
      ++ (decimal (length r.results)
          ++ (codes " "
              ++ ((if length r.results == 1 then codes "specialist" else codes "specialists")
                  ++ (codes " · "
                      ++ (r.model
                          ++ (codes " ("
                              ++ (r.provider_name
                                  ++ (codes ") · "
                                      ++ (seconds r.total_elapsed_ms
                                          ++ (codes "s"
                                              ++ (cost_text r.est_cost_usd
                                                  ++ (codes "_\n"
                                                      ++ truncated_note r.diff_truncated))))))))))))

  abbrev review_footer : ReviewResult Price → Text
  review_footer r =
      codes "\n---\n<sub>Runtime "
      ++ (seconds r.total_elapsed_ms
          ++ (codes "s · "
              ++ (thousands r.total_tokens_in
                  ++ (codes " tok in / "
                      ++ (thousands r.total_tokens_out
                          ++ (codes " tok out · "
                              ++ (cost_footer r.est_cost_usd
                                  ++ (codes "provider: "
                                      ++ (r.provider_name ++ codes "</sub>\n")))))))))

  unfoldable pub format_comment : ReviewResult Price → Text
  format_comment r =
      comment_marker
      ++ (codes "\n"
          ++ (review_header r
              ++ (codes "\n"
                  ++ (render_summary_table r.results
                      ++ (codes "\n"
                          ++ (join (codes "\n") (map render_section r.results)
                              ++ review_footer r))))))

pub data PlaceholderReason : Type 0 where
  by_provider : PlaceholderReason
  by_usage_cap : PlaceholderReason
  by_config : PlaceholderReason

-- The comment that both kinds of note stand in.
abbrev note_comment : Text → Text
note_comment note =
    comment_marker ++ (codes "\n## Automated Code Review\n\n_" ++ (note ++ codes "_\n"))

module _ (N : Number) where
  abbrev placeholder_note : N.F → ℕ → PlaceholderReason → Text
  placeholder_note retry_after now by_config =
      warning
      ++ codes
          " Dispatcher configuration issue — review queued, will retry automatically once an operator fixes the dispatcher's tuning config (see the dashboard's config panel)."
  placeholder_note retry_after now by_usage_cap =
      codes
        "⏳ Bot's own daily usage limit reached for this key — review queued, will post automatically after the limit resets (~"
      ++ (hour_minute (N.after now retry_after) ++ codes "). This is not a provider rate limit.")
  placeholder_note retry_after now by_provider =
      if not (N.le (N.of_nat placeholder_daily_threshold) retry_after)
      then codes "⏳ Queued behind rate limit — review will appear shortly."
      else codes
          "⏳ Daily model quota reached — review queued, will post automatically after the provider's limit resets (~"
        ++ (hour_minute (N.after now retry_after) ++ codes ").")

  unfoldable pub format_placeholder : N.F → (now : ℕ) → PlaceholderReason → Text
  format_placeholder retry_after now reason = note_comment (placeholder_note retry_after now reason)

abbrev pub attempts_text : ℕ → Text
attempts_text n = if n == 1 then codes "attempt" else codes "attempts"

unfoldable pub format_failure : ℕ → Text
format_failure attempts = note_comment (
    codes "❌ Automated review could not be completed after "
    ++ (decimal attempts
        ++ (codes " "
            ++ (attempts_text attempts
                ++ codes
                    " due to a service error. It will retry automatically on the next push."))))

abbrev pub failure_text : ℕ → Text
failure_text attempts =
    codes "\n> "
    ++ (warning
        ++ (codes " A later automated re-review could not be completed after "
            ++ (decimal attempts
                ++ (codes " "
                    ++ (attempts_text attempts
                        ++ codes
                            " (service error). The review above may be behind the latest commit; it will retry on the next push.\n")))))

unfoldable pub format_failure_footnote : ℕ → Text
format_failure_footnote attempts = fail_note_start ++ (failure_text attempts ++ fail_note_end)

pub data NoticeReason : Type 0 where
  of_provider : NoticeReason
  of_usage_cap : NoticeReason

abbrev pub schedule_text : ℕ → NoticeReason → Text
schedule_text not_before of_usage_cap =
    codes "\n🔄 Re-review scheduled ~"
    ++ (hour_minute not_before
        ++ codes " (usage limit reached — resets automatically, not a provider quota issue)\n")
schedule_text not_before of_provider =
    codes "\n🔄 Re-review scheduled ~" ++ (hour_minute not_before ++ codes "\n")

-- A time without a time zone is refused.
unfoldable pub format_schedule_notice : (has_timezone : Bool) → ℕ → NoticeReason → Option Text
format_schedule_notice false not_before reason = none
format_schedule_notice true not_before reason =
    some (schedule_note_start ++ (schedule_text not_before reason ++ schedule_note_end))
