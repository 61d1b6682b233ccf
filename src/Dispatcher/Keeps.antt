-- ===== src/Dispatcher/Keeps.antt =====
-- The tickets table under a step of the dispatcher.
use pr_review_bot.Prelude.{
  ℕ, ◌≡◌, refl, Bool, true, false, Option, some, arith, if_cases, String, not, option_cases, ◌+◌,
  ◌-◌, ltb, leb, is_some, ◌∙◌,
}
use pr_review_bot.Number.{Number}
use pr_review_bot.Status.{Reason}
use pr_review_bot.Tuning.{Tuning, Required, ready, unavailable, require_config}
use pr_review_bot.Cooldown.{effective_cooldown, next_cooldown_level}
use pr_review_bot.Tickets.Rows.{Ticket}
use pr_review_bot.Tickets.{Table, mark_failed, defer_failed}
use pr_review_bot.Tickets.Claim.{claim_next_due}
use pr_review_bot.Tickets.Invariant.{
  IsValid, claim_next_due-IsValid, defer_rate_limited-IsValid, defer_usage_capped-IsValid,
  defer_failed-IsValid, mark_failed-IsValid, set_comment_id-IsValid, clear_visible_review-IsValid,
  clear_notice-IsValid, finalize_review-IsValid, discard_skipped_ticket-IsValid,
}
use pr_review_bot.Dispatcher.{
  Service, Outcome, completed, rate_limited, skipped, crashed, Installation, still_valid,
  confirmed_invalid, inconclusive, Answers, Ended, idle, ran, put_off, gave_up, dropped, raised,
  exited, refreshed,
}
use pr_review_bot.Dispatcher.Rests.{
  still_running, set_comment_id-same, discard-rests, mark_failed-rests, defer_failed-rests,
  defer_rate_limited-rests, defer_usage_capped-rests, finalize_review-rests,
}
use pr_review_bot.Dispatcher.Step.{
  noted, explain, clear_stale_notice, cap_reset_at, hard_stop, hard_failure, provider_waits,
  review_posted, after_review, run_review, blocks, blocked_gate, cap_gate, tuning_gate,
  process_next_due, has_visible_review, comment_was_lost, notice_lost,
}

-- A step that returns does not leave its ticket running; one that raises, or that ends the
-- process, may.
abbrev pub settled : Ended → Table → Bool
settled idle u = true
settled (ran i) u = not (still_running u i)
settled (put_off i) u = not (still_running u i)
settled (gave_up i) u = not (still_running u i)
settled (dropped i) u = not (still_running u i)
settled (raised i) u = true
settled (exited i) u = true

negated : (b : Bool) → b ≡ false → not b ≡ true
negated b h = ground arith

pub noted-IsValid :
    (i : ℕ) (c : Option ℕ) (lost : Bool) (u : Table) → IsValid u → IsValid (noted i c lost u)
noted-IsValid i c true u v = clear_visible_review-IsValid _ i (set_comment_id-IsValid u i c v)
noted-IsValid i c false u v = set_comment_id-IsValid u i c v

pub installation_cases :
    {A : Type 0} (P : A → Type 0) (i : Installation) (x y : A)
    → P x
    → P y
    → P (elim i [ confirmed_invalid ↦ x | _ ↦ y ])
installation_cases P still_valid x y h k = k
installation_cases P confirmed_invalid x y h k = h
installation_cases P inconclusive x y h k = k

module _ (N : Number) where
  open N use {F, after}

  pub record Good (r : Ended × Service F) : Type 0 where
    pub valid : IsValid r.1.table
    pub rests : settled r.0 r.1.table ≡ true

  explain-Good :
      (e : Answers F) (t : Ticket) (reason : Reason) (s : Service F)
      → IsValid s.table
      → still_running s.table t.id ≡ false
      → Good (explain N e t reason s)
  unfolding explain
  explain-Good e t reason s v h =
      if_cases Good (has_visible_review t) _ _ (λ _. record { valid = v; rests = negated _ h })
        (λ _.
          option_cases Good e.placeholder _ _ (λ _. (record { valid = v; rests = refl }))
            (λ c _. (record {
              valid = set_comment_id-IsValid s.table t.id c v;
              rests = negated _ (set_comment_id-same s.table t.id t.id c ∙ h);
            })))

  clear_stale_notice-IsValid :
      (e : Answers F) (t : Ticket) (s : Service F)
      → IsValid s.table
      → IsValid (clear_stale_notice N e t s).table
  unfolding clear_stale_notice
  clear_stale_notice-IsValid e t s v =
      if_cases (λ (x : Service F). IsValid x.table) (is_some t.notice_not_before) _ _
        (λ _.
          option_cases (λ (x : Service F). IsValid x.table) e.cleared _ _ (λ _. v)
            (λ c _.
              (clear_notice-IsValid _ t.id
                (noted-IsValid t.id c (comment_was_lost t c) s.table v))))
        (λ _. v)

  failed-Good :
      (e : Answers F) (i : ℕ) (error : String) (u : Table) (s : Service F)
      → IsValid u
      → Good (gave_up i, record s { table = mark_failed u i e.now (some error) })
  failed-Good e i error u s v = record {
    valid = mark_failed-IsValid u i e.now (some error) v;
    rests = negated _ (mark_failed-rests u i e.now (some error));
  }

  retried-Good :
      (e : Answers F) (i nb : ℕ) (s : Service F)
      → IsValid s.table
      → Good (put_off i, record s { table = defer_failed s.table i nb e.now })
  retried-Good e i nb s v = record {
    valid = defer_failed-IsValid s.table i nb e.now v;
    rests = negated _ (defer_failed-rests s.table i nb e.now);
  }

  hard_stop-Good :
      (e : Answers F) (t : Ticket) (tuning : Tuning F) (error : String) (n : ℕ) (s : Service F)
      → IsValid s.table
      → Good (hard_stop N e t tuning error n s)
  unfolding hard_stop
  hard_stop-Good e t tuning error n s v =
      option_cases Good e.notice _ _
        (λ _.
          (if_cases Good (ltb (tuning.max_failure_attempts + tuning.max_notice_post_attempts - 2) n)
            _ _ (λ _. failed-Good e t.id error s.table s v) (λ _. retried-Good e t.id _ s v)))
        (λ c _. (failed-Good e t.id error _ s (noted-IsValid t.id c (notice_lost N t c) s.table v)))

  hard_failure-Good :
      (e : Answers F) (t : Ticket) (tuning : Tuning F) (error : String) (s : Service F)
      → IsValid s.table
      → Good (hard_failure N e t tuning error s)
  unfolding hard_failure
  hard_failure-Good e t tuning error s v =
      installation_cases Good e.installation _ _ (record { valid = v; rests = refl })
        (if_cases Good (leb tuning.max_failure_attempts (t.attempts + 1)) _ _
          (λ _. hard_stop-Good e t tuning error (t.attempts + 1) _ v)
          (λ _. retried-Good e t.id _ _ v))

  provider_waits-Good :
      (e : Answers F) (t : Ticket) (tuning : Tuning F) (retry_after : F) (s : Service F)
      → IsValid s.table
      → Good (provider_waits N e t tuning retry_after s)
  unfolding provider_waits
  provider_waits-Good e t tuning retry_after s v =
      explain-Good e t _ _ (defer_rate_limited-IsValid s.table t.id _ e.now v)
        (defer_rate_limited-rests s.table t.id _ e.now)

  review_posted-Good :
      (e : Answers F) (t : Ticket) (c : Option ℕ) (s : Service F)
      → IsValid s.table
      → Good (review_posted N e t c s)
  unfolding review_posted
  review_posted-Good e t c s v =
      option_cases Good ((effective_cooldown N s.cooldown t.cooldown_level)) _ _
        (λ _. (record { valid = v; rests = refl }))
        (λ w _. (record {
          valid =
              finalize_review-IsValid s.table t.id e.now (after e.now w)
                (next_cooldown_level t.cooldown_level) c (omega arith) v;
          rests = negated _ (
              finalize_review-rests s.table t.id e.now (after e.now w)
                (next_cooldown_level t.cooldown_level) c);
        }))

  after_review-Good :
      (e : Answers F) (t : Ticket) (tuning : Tuning F) (s : Service F) (o : Outcome F)
      → e.outcome ≡ o
      → IsValid s.table
      → Good (after_review N e t tuning s)
  unfolding after_review
  after_review-Good e t tuning s (crashed error) k v = rw k (hard_failure-Good e t tuning error s v)
  after_review-Good e t tuning s skipped k v = rw k (record {
    valid = discard_skipped_ticket-IsValid s.table t.id e.now v;
    rests = negated _ (discard-rests s.table t.id e.now v);
  })
  after_review-Good e t tuning s (rate_limited w) k v = rw k (provider_waits-Good e t tuning w s v)
  after_review-Good e t tuning s (completed c) k v = rw k (review_posted-Good e t c s v)

  blocked_gate-Good :
      (e : Answers F) (t : Ticket) (tuning : Tuning F) (s : Service F)
      → IsValid s.table
      → IsValid (e.others s.table)
      → Good (blocked_gate N e t tuning s)
  unfolding blocked_gate run_review
  blocked_gate-Good e t tuning s v w =
      option_cases Good ((blocks N e.now (s.blocked_until s.provider))) _ _
        (λ _. (after_review-Good e t tuning _ e.outcome refl w))
        (λ until _.
          (explain-Good e t _ _ (defer_rate_limited-IsValid s.table t.id until e.now v)
            (defer_rate_limited-rests s.table t.id until e.now)))

  cap_gate-Good :
      (e : Answers F) (t : Ticket) (tuning : Tuning F) (s : Service F)
      → IsValid s.table
      → IsValid (e.others s.table)
      → Good (cap_gate N e t tuning s)
  unfolding cap_gate
  cap_gate-Good e t tuning s v w =
      option_cases Good ((cap_reset_at N e s)) _ _ (λ _. (blocked_gate-Good e t tuning s v w))
        (λ reset _.
          (explain-Good e t _ _ (defer_usage_capped-IsValid s.table t.id reset e.now v)
            (defer_usage_capped-rests s.table t.id reset e.now)))

  tuning_gate-Good :
      (e : Answers F) (t : Ticket) (s : Service F) (r : Required F)
      → require_config N s.tuning ≡ r
      → IsValid s.table
      → ((u : Table) → IsValid u → IsValid (e.others u))
      → Good (tuning_gate N e t s)
  unfolding tuning_gate
  tuning_gate-Good e t s (unavailable ps) k v w =
      rw (k, tuning_gate)
        (explain-Good e t _ _ (defer_rate_limited-IsValid s.table t.id _ e.now v)
          (defer_rate_limited-rests s.table t.id _ e.now))
  tuning_gate-Good e t s (ready tuning) k v w =
      let cleared = clear_stale_notice-IsValid e t s v in
      rw (k, tuning_gate)
        (cap_gate-Good e t tuning (clear_stale_notice N e t s) cleared (w _ cleared))

  -- A step of the dispatcher from a well-formed table, with any answers of its calls and where
  -- the transactions of others keep tables well formed, ends with a well-formed table; and a step
  -- that neither raises nor ends the process does not leave the ticket that it claimed running.
  pub process_next_due-Good :
      (e : Answers F) (s : Service F)
      → IsValid s.table
      → ((u : Table) → IsValid u → IsValid (e.others u))
      → Good (process_next_due N e s)
  unfolding process_next_due refreshed
  process_next_due-Good e s v w =
      option_cases Good (claim_next_due e.locked s.table e.now).0 _ _
        (λ _. (record { valid = v; rests = refl }))
        (λ t _. (tuning_gate-Good e t _ _ refl (claim_next_due-IsValid e.locked s.table e.now v) w))
