-- ===== src/Dispatcher/Step.antt =====
-- The stages of `process_next_due` in review_queue/dispatcher.py, in the order they run.
use pr_review_bot.Prelude.{
  ℕ, ◌+◌, ◌-◌, String, Bool, false, not, Option, none, some, List, [], ◌∷◌, ◌++◌, if◌then◌else◌,
  ltb, leb, ◌==◌, str_eq, is_some,
}
use pr_review_bot.Number.{Number}
use pr_review_bot.Status.{Reason, provider, usage_cap, config}
use pr_review_bot.Cooldown.{effective_cooldown, next_cooldown_level, max_f}
use pr_review_bot.Tuning.{Tuning, ready, unavailable, require_config, jitter, compute_backoff}
use pr_review_bot.UsageCap.{
  ClockTime, naive, Review, day, effective_caps, usage_bucket_start, get_key_usage,
}
use pr_review_bot.Tickets.Rows.{Ticket}
use pr_review_bot.Tickets.{
  Table, defer_rate_limited, defer_usage_capped, defer_failed, mark_failed, set_comment_id,
  clear_visible_review, clear_notice,
}
use pr_review_bot.Tickets.Claim.{claim_next_due}
use pr_review_bot.Tickets.Finish.{finalize_review, discard_skipped_ticket}
use pr_review_bot.Dispatcher.{
  Call, posts_placeholder, clears_notice, reviews, verifies_installation, appends_footnote,
  posts_failure, Service, completed, rate_limited, skipped, crashed, confirmed_invalid, Answers,
  Ended, idle, ran, put_off, gave_up, dropped, raised, exited, refreshed, active_key_index,
}

-- The reads of the snapshot that the claim returned.
abbrev pub has_visible_review : Ticket → Bool
has_visible_review t = is_some t.last_reviewed_at

abbrev pub comment_was_recreated : Ticket → Option ℕ → Bool
comment_was_recreated t comment = elim t.comment_id [
  | none ↦ false
  | some old ↦ elim comment [ none ↦ false | some new ↦ not (new == old) ]
]

-- The comment is gone, or was there and another one took its place.
abbrev pub comment_was_lost : Ticket → Option ℕ → Bool
comment_was_lost t none = is_some t.comment_id
comment_was_lost t (some new) = comment_was_recreated t (some new)

-- 60 seconds.
abbrev pub unconfigured_defer : ℕ
unconfigured_defer = 60000000

abbrev pub until_blocked : (String → Option ℕ) → String → ℕ → String → Option ℕ
until_blocked blocked name until p = if str_eq p name then some until else blocked p

-- The table after the answer about a comment: its id is kept, and a lost review is not claimed.
abbrev pub noted : ℕ → Option ℕ → Bool → Table → Table
noted i comment lost t =
    if lost then clear_visible_review (set_comment_id t i comment) i else set_comment_id t i comment

module _ (N : Number) where
  open N use {F, after}

  abbrev pub with_table : Service F → (Table → Table) → Service F
  with_table s f = record s { table = f s.table }

  abbrev pub calling : Service F → Call → Service F
  calling s c = record s { calls = s.calls ++ (c ∷ []) }

  -- The end of a deferral: a placeholder unless a good review is visible.
  unfoldable pub explain : Answers F → Ticket → Reason → Service F → Ended × Service F
  explain e t reason s =
      let posted = calling s (posts_placeholder t.repo_full_name t.pr_number reason) in
      if has_visible_review t then (put_off t.id, s) else elim e.placeholder [
        | none ↦ (raised t.id, posted)
        | some c ↦ (put_off t.id, with_table posted (λ u. set_comment_id u t.id c))
      ]

  -- A stale schedule notice is removed; an exception leaves the table alone.
  unfoldable pub clear_stale_notice : Answers F → Ticket → Service F → Service F
  clear_stale_notice e t s =
      let called = calling s (clears_notice t.repo_full_name t.pr_number) in
      if is_some t.notice_not_before
      then elim e.cleared [
        | none ↦ called
        | some c ↦
            with_table called (λ u. clear_notice (noted t.id c (comment_was_lost t c) u) t.id)
      ]
      else s

  -- When the daily budget of the active provider and slot is spent: the end of the window. Comparing
  -- the clock with an aware time raises, and an exception here is as no cap.
  unfoldable pub cap_reset_at : Answers F → Service F → Option ℕ
  cap_reset_at e s =
      let (limit, reset_time) = effective_caps e.from_iso s.caps in
      spent limit reset_time e.review_rows
    where
      spent : Option ℕ → Option ClockTime → Option (List Review) → Option ℕ
      spent (some limit) (some (naive reset)) (some rows) =
          let start = usage_bucket_start e.now reset in
          let slot = active_key_index s.key_overrides s.provider in
          if leb limit (get_key_usage rows s.provider slot start) then some (start + day) else none
      spent _ _ _ = none

  -- The wait after a hard failure.
  abbrev pub retry_at : Answers F → Tuning F → ℕ → ℕ
  retry_at e tuning n = after e.now (compute_backoff N n (jitter N e.draw tuning) tuning)

  -- Posting the terminal notice: a footnote under a visible review, else a failure comment.
  abbrev pub notice_call : Ticket → ℕ → Call
  notice_call t n =
      if has_visible_review t
      then appends_footnote t.repo_full_name t.pr_number n
      else posts_failure t.repo_full_name t.pr_number n

  abbrev pub notice_lost : Ticket → Option ℕ → Bool
  notice_lost t c = if has_visible_review t then comment_was_recreated t c else false

  -- The hard stop, with the ceiling on attempts to post its notice.
  unfoldable pub hard_stop :
      Answers F → Ticket → Tuning F → String → ℕ → Service F → Ended × Service F
  hard_stop e t tuning error n s = elim e.notice [
    | none ↦
        if ltb (tuning.max_failure_attempts + tuning.max_notice_post_attempts - 2) n
        then (gave_up t.id, with_table s (λ u. mark_failed u t.id e.now (some error)))
        else (put_off t.id, with_table s (λ u. defer_failed u t.id (retry_at e tuning n) e.now))
    | some c ↦ (
      gave_up t.id,
      with_table s (λ u. mark_failed (noted t.id c (notice_lost t c) u) t.id e.now (some error)),
    )
  ]

  -- The handler of an exception of `attempt_review`.
  unfoldable pub hard_failure :
      Answers F → Ticket → Tuning F → String → Service F → Ended × Service F
  unfolding hard_stop
  hard_failure e t tuning error s =
      let n = t.attempts + 1 in
      let checked = calling s verifies_installation in
      let stopped = hard_stop e t tuning error n (calling checked (notice_call t n)) in
      elim e.installation [
        | confirmed_invalid ↦ (exited t.id, checked)
        | _ ↦ if leb tuning.max_failure_attempts n then stopped else (
          put_off t.id,
          with_table checked (λ u. defer_failed u t.id (retry_at e tuning n) e.now),
        )
      ]

  -- The provider asked to wait: block it and defer the ticket until then.
  unfoldable pub provider_waits : Answers F → Ticket → Tuning F → F → Service F → Ended × Service F
  unfolding explain
  provider_waits e t tuning retry_after s =
      let until = after e.now (max_f N retry_after tuning.min_retry_after) in
      explain e t provider (record s {
        blocked_until = until_blocked s.blocked_until s.provider until;
        table = defer_rate_limited s.table t.id until e.now;
      })

  -- A posted review; the arithmetic of the cooldown raises on an unusable configuration.
  unfoldable pub review_posted : Answers F → Ticket → Option ℕ → Service F → Ended × Service F
  review_posted e t c s = elim (effective_cooldown N s.cooldown t.cooldown_level) [
    | none ↦ (raised t.id, s)
    | some wait ↦ (
      ran t.id,
      with_table s (λ u.
          finalize_review u t.id e.now (after e.now wait) (next_cooldown_level t.cooldown_level) c),
    )
  ]

  unfoldable pub after_review : Answers F → Ticket → Tuning F → Service F → Ended × Service F
  unfolding hard_failure provider_waits review_posted
  after_review e t tuning s = elim e.outcome [
    | crashed error ↦ hard_failure e t tuning error s
    | skipped ↦ (dropped t.id, with_table s (λ u. discard_skipped_ticket u t.id e.now))
    | rate_limited retry_after ↦ provider_waits e t tuning retry_after s
    | completed c ↦ review_posted e t c s
  ]

  -- The review itself; other transactions commit meanwhile.
  unfoldable pub run_review : Answers F → Ticket → Tuning F → Service F → Ended × Service F
  unfolding after_review
  run_review e t tuning s =
      after_review e t tuning
        (with_table (calling s (reviews t.repo_full_name t.pr_number)) e.others)

  -- `blocked is not None and now < blocked`
  abbrev pub blocks : ℕ → Option ℕ → Option ℕ
  blocks now none = none
  blocks now (some until) = if ltb now until then some until else none

  -- The gate of the block map.
  unfoldable pub blocked_gate : Answers F → Ticket → Tuning F → Service F → Ended × Service F
  unfolding explain run_review
  blocked_gate e t tuning s = elim (blocks e.now (s.blocked_until s.provider)) [
    | some until ↦ explain e t provider (with_table s (λ u. defer_rate_limited u t.id until e.now))
    | none ↦ run_review e t tuning s
  ]

  -- The gate of the usage cap.
  unfoldable pub cap_gate : Answers F → Ticket → Tuning F → Service F → Ended × Service F
  unfolding explain blocked_gate cap_reset_at
  cap_gate e t tuning s = elim (cap_reset_at e s) [
    | some reset ↦ explain e t usage_cap (with_table s (λ u. defer_usage_capped u t.id reset e.now))
    | none ↦ blocked_gate e t tuning s
  ]

  -- The gate of the tuning configuration.
  unfoldable pub tuning_gate : Answers F → Ticket → Service F → Ended × Service F
  unfolding explain cap_gate clear_stale_notice
  tuning_gate e t s = elim (require_config N s.tuning) [
    | unavailable ps ↦
        explain e t config
          (with_table s (λ u. defer_rate_limited u t.id (e.now + unconfigured_defer) e.now))
    | ready tuning ↦ cap_gate e t tuning (clear_stale_notice e t s)
  ]

  unfoldable pub process_next_due : Answers F → Service F → Ended × Service F
  unfolding tuning_gate
  process_next_due e s =
      let (claim, table) = claim_next_due e.locked s.table e.now in
      elim claim [
        | none ↦ (idle, s)
        | some t ↦ tuning_gate e t (refreshed e (record s { table = table }))
      ]
