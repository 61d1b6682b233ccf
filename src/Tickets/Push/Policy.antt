-- ===== src/Tickets/Push/Policy.antt =====
-- What a push leads to, by the state of the ticket that it finds, races of two enqueues included.
use mathlib.Core.Path.{subst}
use mathlib.Core.Option.{some-injective}
use pr_review_bot.Prelude.{
  ℕ, String, ◌≡◌, refl, sym, ap, ◌∙◌, ◌&&◌, ◌⊎◌, inl, inr, Option, none, some, str_eq,
  if◌then◌else◌, ◌==◌, Option-cases,
}
use pr_review_bot.Number.{Number}
use pr_review_bot.Status.{Status, pending, running, deferred, retrying, done, failed, cancelled}
use pr_review_bot.Cooldown.{CooldownCache, due_after_cooldown}
use pr_review_bot.Tickets.Rows.{Ticket}
use pr_review_bot.Tickets.{Table, lookup}
use pr_review_bot.Tickets.Enqueue.{
  enqueue_or_update, update_existing, touch, rearm, insert_ticket, fresh_ticket,
}
use pr_review_bot.Tickets.Invariant.{IsValid}
use pr_review_bot.Tickets.Push.{
  alone, after_push, existing_lookup, enqueue_new, lookup-enqueue_or_update,
}

module _ (N : Number) (c : CooldownCache N.F) (head_sha : Option String) (now : ℕ) where
  -- A ticket that runs is flagged and goes on.
  abbrev pub IsFlagged : Ticket → Ticket → Type 0
  IsFlagged t u =
      (t.status ≡ running)
      × (u.status ≡ running)
      × (u.rereview_requested ≡ 1)
      × (u.attempts ≡ t.attempts)

  -- A ticket that waits goes on waiting.
  abbrev pub IsWaiting : Ticket → Ticket → Type 0
  IsWaiting t u =
      ((t.status ≡ pending) ⊎ ((t.status ≡ deferred) ⊎ (t.status ≡ retrying)))
      × (u.status ≡ t.status)
      × (u.not_before ≡ t.not_before)
      × (u.attempts ≡ t.attempts)
      × (u.rereview_requested ≡ t.rereview_requested)

  -- A ticket that is over starts anew, when the cooldown since its last review says.
  abbrev pub IsRearmed : Ticket → Ticket → Type 0
  IsRearmed t u =
      ((t.status ≡ done) ⊎ ((t.status ≡ failed) ⊎ (t.status ≡ cancelled)))
      × (u.attempts ≡ 0)
      × (u.rereview_requested ≡ 0)
      × (due_after_cooldown N c t.last_reviewed_at now t.cooldown_level
          ≡ some (u.status, u.not_before, u.cooldown_level))

  -- The ticket of a pull request after a push, from the one before it.
  abbrev pub IsPushed : String → ℕ → Option Ticket → Ticket → Type 0
  IsPushed repo pr none u =
      (u.repo_full_name ≡ repo)
      × (u.pr_number ≡ pr)
      × (u.status ≡ pending)
      × (u.head_sha ≡ head_sha)
      × (u.not_before ≡ none)
      × (u.attempts ≡ 0)
      × (u.comment_id ≡ none)
      × (u.last_reviewed_at ≡ none)
  IsPushed repo pr (some t) u =
      (u.id ≡ t.id)
      × (u.head_sha ≡ head_sha)
      × (u.comment_id ≡ t.comment_id)
      × (u.enqueued_at ≡ t.enqueued_at)
      × (u.last_reviewed_at ≡ t.last_reviewed_at)
      × (IsFlagged t u ⊎ (IsWaiting t u ⊎ IsRearmed t u))

  abbrev IfPushed : String → ℕ → Ticket → Option (Ticket → Ticket) → Type 0
  IfPushed repo pr t none = Unit
  IfPushed repo pr t (some g) = IsPushed repo pr (some t) (g t)

  rearm-IfPushed :
      (repo : String) (pr : ℕ) (t : Ticket)
      → (t.status ≡ done) ⊎ ((t.status ≡ failed) ⊎ (t.status ≡ cancelled))
      → IfPushed repo pr t (rearm N c head_sha now t)
  rearm-IfPushed repo pr t h =
      by_due (due_after_cooldown N c t.last_reviewed_at now t.cooldown_level) refl
    where
      by_due :
          (o : Option (Status × Option ℕ × ℕ))
          → due_after_cooldown N c t.last_reviewed_at now t.cooldown_level ≡ o
          → IfPushed repo pr t (rearm N c head_sha now t)
      by_due none e = rw (e, rearm) tt
      by_due (some (st, nb, level)) e =
          rw (e, rearm) (refl, refl, refl, refl, refl, inr (inr (h, refl, refl, e)))

  touch-IfPushed :
      (repo : String) (pr : ℕ) (t : Ticket) (st : Status)
      → t.status ≡ st
      → IfPushed repo pr t (touch N c st head_sha now t)
  unfolding touch
  touch-IfPushed repo pr t running h = (refl, refl, refl, refl, refl, inl (h, h, refl, refl))
  touch-IfPushed repo pr t pending h =
      (refl, refl, refl, refl, refl, inr (inl (inl h, refl, refl, refl, refl)))
  touch-IfPushed repo pr t deferred h =
      (refl, refl, refl, refl, refl, inr (inl (inr (inl h), refl, refl, refl, refl)))
  touch-IfPushed repo pr t retrying h =
      (refl, refl, refl, refl, refl, inr (inl (inr (inr h), refl, refl, refl, refl)))
  touch-IfPushed repo pr t done h = rearm-IfPushed repo pr t (inl h)
  touch-IfPushed repo pr t failed h = rearm-IfPushed repo pr t (inr (inl h))
  touch-IfPushed repo pr t cancelled h = rearm-IfPushed repo pr t (inr (inr h))

  module _ (provider : String) where
    -- What a push without a race returns.
    abbrev Leaves : Table → String → ℕ → ℕ → Type 0
    Leaves s repo pr i =
        (u : Ticket) × (after_push N c (lookup s repo pr) s.next_id repo pr head_sha provider now
          ≡ some u)
        × (u.id ≡ i)
        × IsPushed repo pr (lookup s repo pr) u

    existing-Leaves :
        (s : Table) (repo : String) (pr i : ℕ) (s' : Table) (t : Ticket)
        → IsValid s
        → lookup s repo pr ≡ some t
        → update_existing N c s t head_sha now ≡ some (i, s')
        → Leaves s repo pr i
    unfolding update_existing
    existing-Leaves s repo pr i s' t v h e =
        rw h (
          by_set (touch N c t.status head_sha now t) refl (touch-IfPushed repo pr t t.status refl)
            e)
      where
        by_set :
            (o : Option (Ticket → Ticket))
            → touch N c t.status head_sha now t ≡ o
            → IfPushed repo pr t o
            → update_existing N c s t head_sha now ≡ some (i, s')
            → (u : Ticket) × (after_push N c (some t) s.next_id repo pr head_sha provider now
                ≡ some u)
              × (u.id ≡ i)
              × IsPushed repo pr (some t) u
        by_set none k p e = absurd (cc)
        by_set (some g) k p e =
            let same =
              (existing_lookup N c head_sha provider now s t repo pr s.next_id i s' v.unique_id h
                e).0 in
            (g t, rw k refl, p.0 ∙ sym same, p)

    enqueue_or_update-Leaves :
        (s : Table) (repo : String) (pr i : ℕ) (s' : Table)
        → IsValid s
        → enqueue_or_update N c alone s repo pr head_sha provider now ≡ some (i, s')
        → Leaves s repo pr i
    unfolding enqueue_or_update
    enqueue_or_update-Leaves s repo pr i s' v e = elim (Option-cases (lookup s repo pr)) [
      | inl h ↦ rw h (
        fresh_ticket s.next_id repo pr head_sha provider now,
        refl,
        ap (λ (x : ℕ × Table). x.0)
            (some-injective _ _ (sym (enqueue_new N c head_sha provider now s repo pr h) ∙ e)),
        (refl, refl, refl, refl, refl, refl, refl, refl),
      )
      | inr (t, h) ↦ existing-Leaves s repo pr i s' t v h (rw (h, enqueue_or_update) at e)
    ]

    -- The table that is written: what others committed meanwhile counts where no row was found first.
    abbrev pub written_table : (Table → Table) → Table → String → ℕ → Table
    written_table between s repo pr = elim (lookup s repo pr) [ none ↦ between s | some t ↦ s ]

    written_found :
        (between : Table → Table) (s : Table) (repo : String) (pr : ℕ) {t : Ticket}
        → lookup s repo pr ≡ some t
        → written_table between s repo pr ≡ s
    written_found between s repo pr h = rw (written_table, h) refl

    written_missing :
        (between : Table → Table) (s : Table) (repo : String) (pr : ℕ)
        → lookup s repo pr ≡ none
        → written_table between s repo pr ≡ between s
    written_missing between s repo pr h = rw (written_table, h) refl

    -- The push as one without a race on another table.
    pushes_on : Table → String → ℕ → Option (ℕ × Table)
    pushes_on s repo pr = enqueue_or_update N c alone s repo pr head_sha provider now

    raced_found :
        (between : Table → Table) (s : Table) (repo : String) (pr : ℕ) (t : Ticket)
        → lookup s repo pr ≡ some t
        → enqueue_or_update N c between s repo pr head_sha provider now ≡ pushes_on s repo pr
    unfolding enqueue_or_update pushes_on
    raced_found between s repo pr t h = rw (h, enqueue_or_update) refl

    inserted :
        (between : Table → Table) (s : Table) (repo : String) (pr : ℕ)
        → lookup s repo pr ≡ none
        → lookup (between s) repo pr ≡ none
        → enqueue_or_update N c between s repo pr head_sha provider now
          ≡ some (insert_ticket (between s) repo pr head_sha provider now)
    unfolding enqueue_or_update
    inserted between s repo pr h k = rw (h, enqueue_or_update, k) refl

    raced_missing :
        (between : Table → Table) (s : Table) (repo : String) (pr : ℕ)
        → lookup s repo pr ≡ none
        → enqueue_or_update N c between s repo pr head_sha provider now
          ≡ pushes_on (between s) repo pr
    unfolding enqueue_or_update pushes_on
    raced_missing between s repo pr h = elim (Option-cases (lookup (between s) repo pr)) [
      | inl k ↦
          inserted between s repo pr h k
          ∙ sym (enqueue_new N c head_sha provider now (between s) repo pr k)
      | inr (t, k) ↦ rw (h, enqueue_or_update, k) refl
    ]

    raced :
        (between : Table → Table) (s : Table) (repo : String) (pr : ℕ)
        → enqueue_or_update N c between s repo pr head_sha provider now
          ≡ pushes_on (written_table between s repo pr) repo pr
    raced between s repo pr = elim (Option-cases (lookup s repo pr)) [
      | inr (t, h) ↦
          raced_found between s repo pr t h
          ∙ ap (λ x. pushes_on x repo pr) (sym (written_found between s repo pr h))
      | inl h ↦
          raced_missing between s repo pr h
          ∙ ap (λ x. pushes_on x repo pr) (sym (written_missing between s repo pr h))
    ]

    written_table-IsValid :
        (between : Table → Table) (s : Table) (repo : String) (pr : ℕ)
        → IsValid s
        → IsValid (between s)
        → IsValid (written_table between s repo pr)
    written_table-IsValid between s repo pr v w = elim (Option-cases (lookup s repo pr)) [
      | inl h ↦ subst IsValid (sym (written_missing between s repo pr h)) w
      | inr (t, h) ↦ subst IsValid (sym (written_found between s repo pr h)) v
    ]

    -- A push, also one that loses the race of two inserts, returns the id of the ticket of its pull
    -- request. A ticket that runs is flagged, one that waits goes on waiting, one that is over starts
    -- anew when its cooldown says, and without one a fresh one is pending; each has the pushed commit.
    -- Every other ticket is as in the table that is written.
    pub enqueue_or_update_lem :
        (between : Table → Table) (s : Table) (repo : String) (pr : ℕ) {i : ℕ} {s' : Table}
        → IsValid s
        → IsValid (between s)
        → enqueue_or_update N c between s repo pr head_sha provider now ≡ some (i, s')
        → (u : Ticket) × (u.id ≡ i)
          × IsPushed repo pr (lookup (written_table between s repo pr) repo pr) u
          × ((r : String) (p : ℕ)
              → lookup s' r p ≡ (
                  if str_eq repo r && pr == p
                  then some u
                  else lookup (written_table between s repo pr) r p))
    unfolding pushes_on
    enqueue_or_update_lem between s repo pr {i} {s'} v w e =
        let base = written_table between s repo pr in
        let valid = written_table-IsValid between s repo pr v w in
        let run = sym (raced between s repo pr) ∙ e in
        let (u, after, same, pushed) = enqueue_or_update-Leaves base repo pr i s' valid run in
        (
          u,
          same,
          pushed,
          λ r p.
              lookup-enqueue_or_update N c head_sha provider now base repo pr valid run r p
              ∙ ap (λ o. if str_eq repo r && pr == p then o else lookup base r p) after,
        )
