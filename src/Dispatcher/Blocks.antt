-- ===== src/Dispatcher/Blocks.antt =====
-- The stages of a step while a provider is blocked.
use mathlib.Core.Path.{subst}
use pr_review_bot.Prelude.{
  ℕ, ◌+◌, ◌-◌, ◌<◌, ◌≤◌, ◌≡◌, refl, sym, ap, ◌⊎◌, inl, inr, false, Option, some, List, [], ◌∷◌,
  ◌++◌, arith, if_cases, option_cases, ◌∙◌, String, eq_iff, str_eq, ltb, leb, is_some, Bool-cases,
}
use pr_review_bot.Number.{Number}
use pr_review_bot.Status.{Reason, provider, usage_cap, config}
use pr_review_bot.Tuning.{Tuning, Required, ready, unavailable, require_config}
use pr_review_bot.Cooldown.{effective_cooldown}
use pr_review_bot.Tickets.Rows.{Ticket}
use pr_review_bot.Tickets.{Table, defer_usage_capped, defer_rate_limited}
use pr_review_bot.Tickets.Claim.{claim_next_due}
use pr_review_bot.Dispatcher.{
  Call, reviews, posts_placeholder, clears_notice, Service, Answers, Outcome, completed,
  rate_limited, skipped, crashed, Ended, idle, refreshed, provider_cache,
}
use pr_review_bot.Dispatcher.Step.{
  explain, clear_stale_notice, cap_reset_at, hard_stop, hard_failure, provider_waits, review_posted,
  after_review, run_review, blocked_gate, blocks, cap_gate, tuning_gate, process_next_due,
  has_visible_review, with_table, unconfigured_defer,
}
use pr_review_bot.Dispatcher.Keeps.{installation_cases}

-- How many reviews were started.
abbrev pub is_review : Call → ℕ
is_review (reviews repo pr) = 1
is_review _ = 0

unfoldable pub review_count : List Call → ℕ
review_count [] = 0
review_count (c ∷ cs) = is_review c + review_count cs

review_count-placeholder :
    (xs : List Call) (repo : String) (pr : ℕ) (reason : Reason)
    → review_count (xs ++ (posts_placeholder repo pr reason ∷ [])) ≡ review_count xs
unfolding review_count
review_count-placeholder [] repo pr reason = omega arith
review_count-placeholder (x ∷ xs) repo pr reason =
    ground (arith, review_count-placeholder xs repo pr reason)

module _ (N : Number) where
  open N use {F, le, after}

  -- Nothing but a placeholder is sent, and the block map stays.
  pub record Quiet (s : Service F) (r : Ended × Service F) : Type 0 where
    pub same_count : review_count r.1.calls ≡ review_count s.calls
    pub same_blocks : r.1.blocked_until ≡ s.blocked_until
    pub same_provider : r.1.provider ≡ s.provider

  pub explain-Quiet :
      (e : Answers F) (t : Ticket) (reason : Reason) (s : Service F)
      → Quiet s (explain N e t reason s)
  unfolding explain
  explain-Quiet e t reason s =
      let sent = review_count-placeholder s.calls t.repo_full_name t.pr_number reason in
      if_cases (Quiet s) (has_visible_review t) _ _
        (λ _. record { same_count = refl; same_blocks = refl; same_provider = refl })
        (λ _.
          option_cases (Quiet s) e.placeholder _ _
            (λ _. record { same_count = sent; same_blocks = refl; same_provider = refl })
            (λ c _. record { same_count = sent; same_blocks = refl; same_provider = refl }))

  blocked_gate-Quiet :
      (e : Answers F) (t : Ticket) (tuning : Tuning F) (s : Service F) (until : ℕ)
      → s.blocked_until s.provider ≡ some until
      → e.now < until
      → Quiet s (blocked_gate N e t tuning s)
  unfolding blocked_gate
  blocked_gate-Quiet e t tuning s until h k =
      let b : blocks N e.now (s.blocked_until s.provider) ≡ some until = rw h (ground arith) in
      option_cases (Quiet s) (blocks N e.now (s.blocked_until s.provider)) _ _ (λ n. absurd (cc))
        (λ u _.
          let q = explain-Quiet e t provider _ in
          record {
            same_count = q.same_count;
            same_blocks = q.same_blocks;
            same_provider = q.same_provider;
          })

  -- The block map has an instant for the provider that is not before `until`.
  abbrev pub Held : String → ℕ → (String → Option ℕ) → Type 0
  Held p until blocked = (u : ℕ) × (blocked p ≡ some u) × (until ≤ u)

  -- The provider stays blocked, and where it is the active one no review is started.
  record Guarded (p : String) (until : ℕ) (s : Service F) (r : Ended × Service F) : Type 0 where
    pub held : Held p until r.1.blocked_until
    pub quiet : (str_eq p s.provider ≡ false) ⊎ (review_count r.1.calls ≡ review_count s.calls)

  hard_stop-blocks :
      (e : Answers F) (t : Ticket) (tuning : Tuning F) (error : String) (n : ℕ) (s : Service F)
      → (hard_stop N e t tuning error n s).1.blocked_until ≡ s.blocked_until
  unfolding hard_stop
  hard_stop-blocks e t tuning error n s =
      option_cases (λ (r : Ended × Service F). r.1.blocked_until ≡ s.blocked_until) e.notice _ _
        (λ _.
          if_cases (λ (r : Ended × Service F). r.1.blocked_until ≡ s.blocked_until)
            (ltb (tuning.max_failure_attempts + tuning.max_notice_post_attempts - 2) n) _ _
            (λ _. refl) (λ _. refl))
        (λ c _. refl)

  hard_failure-blocks :
      (e : Answers F) (t : Ticket) (tuning : Tuning F) (error : String) (s : Service F)
      → (hard_failure N e t tuning error s).1.blocked_until ≡ s.blocked_until
  unfolding hard_failure
  hard_failure-blocks e t tuning error s =
      installation_cases (λ (r : Ended × Service F). r.1.blocked_until ≡ s.blocked_until)
        e.installation _ _ refl
        (if_cases (λ (r : Ended × Service F). r.1.blocked_until ≡ s.blocked_until)
          (leb tuning.max_failure_attempts (t.attempts + 1)) _ _
          (λ _. hard_stop-blocks e t tuning error (t.attempts + 1) _) (λ _. refl))

  review_posted-blocks :
      (e : Answers F) (t : Ticket) (c : Option ℕ) (s : Service F)
      → (review_posted N e t c s).1.blocked_until ≡ s.blocked_until
  unfolding review_posted
  review_posted-blocks e t c s =
      option_cases (λ (r : Ended × Service F). r.1.blocked_until ≡ s.blocked_until)
        (effective_cooldown N s.cooldown t.cooldown_level) _ _ (λ _. refl) (λ w _. refl)

  provider_waits-Held :
      (e : Answers F) (t : Ticket) (tuning : Tuning F) (retry_after : F) (s : Service F)
      (p : String) (until : ℕ)
      → str_eq p s.provider ≡ false
      → Held p until s.blocked_until
      → Held p until (provider_waits N e t tuning retry_after s).1.blocked_until
  unfolding provider_waits
  provider_waits-Held e t tuning retry_after s p until other (u, h, k) =
      (u, rw ((explain-Quiet e t provider _).same_blocks, other) h, k)

  -- A review for another provider.
  after_review-Held :
      (e : Answers F) (t : Ticket) (tuning : Tuning F) (s : Service F) (o : Outcome F) (p : String)
      (until : ℕ)
      → e.outcome ≡ o
      → str_eq p s.provider ≡ false
      → Held p until s.blocked_until
      → Held p until (after_review N e t tuning s).1.blocked_until
  unfolding after_review
  after_review-Held e t tuning s (crashed error) p until k other h =
      rw k (subst (Held p until) (sym (hard_failure-blocks e t tuning error s)) h)
  after_review-Held e t tuning s skipped p until k other h = rw k h
  after_review-Held e t tuning s (rate_limited w) p until k other h =
      rw k (provider_waits-Held e t tuning w s p until other h)
  after_review-Held e t tuning s (completed c) p until k other h =
      rw k (subst (Held p until) (sym (review_posted-blocks e t c s)) h)

  -- What ends without a review.
  Quiet-Guarded :
      (p : String) (until : ℕ) (s : Service F) (r : Ended × Service F)
      → Quiet s r
      → Held p until s.blocked_until
      → Guarded p until s r
  Quiet-Guarded p until s r q h = record {
    held = subst (Held p until) (sym q.same_blocks) h;
    quiet = inr q.same_count;
  }

  blocked_gate-Guarded :
      (e : Answers F) (t : Ticket) (tuning : Tuning F) (s : Service F) (p : String) (until : ℕ)
      → e.now < until
      → Held p until s.blocked_until
      → Guarded p until s (blocked_gate N e t tuning s)
  unfolding blocked_gate run_review
  blocked_gate-Guarded e t tuning s p until k h = elim (Bool-cases (str_eq p s.provider)) [
    | inl a ↦
        let held : Held s.provider until s.blocked_until =
          subst (λ x. Held x until s.blocked_until) ((eq_iff p s.provider).0 a) h in
        Quiet-Guarded p until s _
          (blocked_gate-Quiet e t tuning s held.0 held.1 (omega (arith, k, held.2))) h
    | inr a ↦ record {
      held =
          option_cases (λ (r : Ended × Service F). Held p until r.1.blocked_until)
            (blocks N e.now (s.blocked_until s.provider)) _ _
            (λ _. after_review-Held e t tuning _ e.outcome p until refl a h)
            (λ u _. subst (Held p until) (sym (explain-Quiet e t provider _).same_blocks) h);
      quiet = inl a;
    }
  ]

  -- A stage that starts with a service that differs only in what no review or block depends on.
  explained-Guarded :
      (e : Answers F) (t : Ticket) (reason : Reason) (s : Service F) (f : Table → Table)
      (p : String) (until : ℕ)
      → Held p until s.blocked_until
      → Guarded p until s (explain N e t reason (with_table N s f))
  explained-Guarded e t reason s f p until h =
      let q = explain-Quiet e t reason (with_table N s f) in
      record { held = subst (Held p until) (sym q.same_blocks) h; quiet = inr q.same_count }

  cap_gate-Guarded :
      (e : Answers F) (t : Ticket) (tuning : Tuning F) (s : Service F) (p : String) (until : ℕ)
      → e.now < until
      → Held p until s.blocked_until
      → Guarded p until s (cap_gate N e t tuning s)
  unfolding cap_gate
  cap_gate-Guarded e t tuning s p until k h =
      option_cases (Guarded p until s) (cap_reset_at N e s) _ _
        (λ _. blocked_gate-Guarded e t tuning s p until k h)
        (λ reset _.
          explained-Guarded e t usage_cap s (λ u. defer_usage_capped u t.id reset e.now) p until h)

  review_count-clears :
      (xs : List Call) (repo : String) (pr : ℕ)
      → review_count (xs ++ (clears_notice repo pr ∷ [])) ≡ review_count xs
  unfolding review_count
  review_count-clears [] repo pr = refl
  review_count-clears (x ∷ xs) repo pr = omega (arith, review_count-clears xs repo pr)

  clear_stale_notice-Quiet :
      (e : Answers F) (t : Ticket) (s : Service F) → Quiet s (idle, clear_stale_notice N e t s)
  unfolding clear_stale_notice
  clear_stale_notice-Quiet e t s =
      let sent = review_count-clears s.calls t.repo_full_name t.pr_number in
      if_cases (λ (x : Service F). Quiet s (idle, x)) (is_some t.notice_not_before) _ _
        (λ _.
          option_cases (λ (x : Service F). Quiet s (idle, x)) e.cleared _ _
            (λ _. record { same_count = sent; same_blocks = refl; same_provider = refl })
            (λ c _. record { same_count = sent; same_blocks = refl; same_provider = refl }))
        (λ _. record { same_count = refl; same_blocks = refl; same_provider = refl })

  -- A stage after a quiet one.
  after-Guarded :
      (p : String) (until : ℕ) (s s' : Service F) (r : Ended × Service F)
      → Quiet s (idle, s')
      → Guarded p until s' r
      → Guarded p until s r
  after-Guarded p until s s' r q g = record { held = g.held; quiet = on_calls g.quiet }
    where
      on_calls :
          (str_eq p s'.provider ≡ false) ⊎ (review_count r.1.calls ≡ review_count s'.calls)
          → (str_eq p s.provider ≡ false) ⊎ (review_count r.1.calls ≡ review_count s.calls)
      on_calls (inl a) = inl (ap (str_eq p) (sym q.same_provider) ∙ a)
      on_calls (inr a) = inr (a ∙ q.same_count)

  tuning_gate-Guarded :
      (e : Answers F) (t : Ticket) (s : Service F) (o : Required F) (p : String) (until : ℕ)
      → require_config N s.tuning ≡ o
      → e.now < until
      → Held p until s.blocked_until
      → Guarded p until s (tuning_gate N e t s)
  unfolding tuning_gate
  tuning_gate-Guarded e t s (unavailable ps) p until g k h =
      rw (g, tuning_gate)
        (explained-Guarded e t config s
          (λ u. defer_rate_limited u t.id (e.now + unconfigured_defer) e.now) p until h)
  tuning_gate-Guarded e t s (ready tuning) p until g k h =
      let q = clear_stale_notice-Quiet e t s in
      rw (g, tuning_gate)
        (after-Guarded p until s (clear_stale_notice N e t s) _ q (
          cap_gate-Guarded e t tuning (clear_stale_notice N e t s) p until k
            (subst (Held p until) (sym q.same_blocks) h)))

  -- A whole step before `until`, with the provider that it refreshes.
  pub process_next_due-Guarded :
      (e : Answers F) (s : Service F) (p : String) (until : ℕ)
      → e.now < until
      → Held p until s.blocked_until
      → Held p until (process_next_due N e s).1.blocked_until
        × ((str_eq p (provider_cache e.provider_row) ≡ false)
            ⊎ (review_count (process_next_due N e s).1.calls ≡ review_count s.calls))
  unfolding process_next_due refreshed
  process_next_due-Guarded e s p until k h =
      option_cases
        (λ (r : Ended × Service F).
          Held p until r.1.blocked_until
          × ((str_eq p (provider_cache e.provider_row) ≡ false)
              ⊎ (review_count r.1.calls ≡ review_count s.calls)))
        (claim_next_due e.locked s.table e.now).0 _ _ (λ _. (h, inr refl))
        (λ t _. let g = tuning_gate-Guarded e t _ _ p until refl k h in (g.held, g.quiet))
