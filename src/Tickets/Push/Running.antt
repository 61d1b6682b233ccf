-- ===== src/Tickets/Push/Running.antt =====
-- A push that lands while the ticket's review runs.
use pr_review_bot.Prelude.{ℕ, String, ◌≡◌, refl, false, Option, some, arith, eq_iff, ◌∙◌}
use pr_review_bot.Number.{Number}
use pr_review_bot.Status.{failed, pending, running, deferred}
use pr_review_bot.Cooldown.{CooldownCache}
use pr_review_bot.Tickets.Rows.{Ticket, has_id, has_key, find_where-update_where}
use pr_review_bot.Tickets.{Table, lookup, mark_failed, failed_at}
use pr_review_bot.Tickets.Claim.{is_due}
use pr_review_bot.Tickets.Enqueue.{enqueue_or_update, touch}
use pr_review_bot.Tickets.Invariant.{IsValid}
use pr_review_bot.Tickets.Invariant.Enqueues.{enqueue_or_update-IsValid}
use pr_review_bot.Tickets.Finish.{
  finalize_review, finalized, discard_skipped_ticket, unreviewed, pushed, requeued,
}
use pr_review_bot.Tickets.Search.{find_where-pinned, lookup-update}
use pr_review_bot.Tickets.Push.{alone, lookup-enqueue_or_update}

-- A ticket whose row is flagged while it runs.
module _ (s : Table) (repo : String) (pr : ℕ) (t : Ticket) (now nb level : ℕ) (c : Option ℕ) where
  lookup-finalize_review :
      lookup s repo pr ≡ some t
      → lookup (finalize_review s t.id now nb level c) repo pr ≡ some (finalized now nb level c t)
  unfolding finalize_review
  lookup-finalize_review e =
      rw (lookup-update (has_id t.id) (finalized now nb level c) s repo pr (λ _. refl), e)
        (ground arith)

  lookup-discard_pushed :
      IsValid s
      → lookup s repo pr ≡ some t
      → t.rereview_requested ≡ 1
      → lookup (discard_skipped_ticket s t.id now) repo pr ≡ some (requeued now t)
  unfolding discard_skipped_ticket lookup
  lookup-discard_pushed v e h =
      let miss =
        find_where-pinned (unreviewed t.id) (has_key repo pr) s.rows t v.unique_id e
          (λ u k. ground arith) in
      let hit =
        find_where-pinned (pushed t.id) (has_key repo pr) s.rows t v.unique_id e
          (λ u k. ground arith) in
      let after =
        find_where-update_where (has_key repo pr) (pushed t.id) (requeued now) s.rows (λ _. refl) in
      ground (arith, miss, hit, after)

-- A push that lands while the ticket's review runs.
module _ (N : Number) (c : CooldownCache N.F) (head_sha : Option String) (provider : String)
    (now : ℕ) (s : Table) (repo : String) (pr : ℕ) (t : Ticket) {i : ℕ} {s' : Table} (v : IsValid s)
    (e : lookup s repo pr ≡ some t) (runs : t.status ≡ running)
    (pushes : enqueue_or_update N c alone s repo pr head_sha provider now ≡ some (i, s')) where
  abbrev noted : Ticket
  noted = record t { head_sha = head_sha; rereview_requested = 1; updated_at = now }

  lookup-noted : lookup s' repo pr ≡ some noted
  unfolding touch
  lookup-noted =
      lookup-enqueue_or_update N c head_sha provider now s repo pr v pushes repo pr
      ∙ rw e (ground (arith, eq_iff repo repo))

  after_push-IsValid : IsValid s'
  after_push-IsValid =
      enqueue_or_update-IsValid N c alone s repo pr head_sha provider now v v pushes

  -- The push is not lost: when the review completes the ticket is scheduled again with a fresh
  -- attempts budget, and when there was nothing to review it is due at once; both for the commit
  -- that was pushed.
  pub push_while_running :
      (later nb level : ℕ) (comment_id : Option ℕ)
      → ((u : Ticket) × (lookup (finalize_review s' t.id later nb level comment_id) repo pr
            ≡ some u)
          × (u.status ≡ deferred)
          × (u.not_before ≡ some nb)
          × (u.attempts ≡ 0)
          × (u.head_sha ≡ head_sha))
        × ((u : Ticket) × (lookup (discard_skipped_ticket s' t.id later) repo pr ≡ some u)
            × (u.status ≡ pending)
            × (u.attempts ≡ 0)
            × (u.head_sha ≡ head_sha))
  push_while_running later nb level comment_id = (
    (
      finalized later nb level comment_id noted,
      lookup-finalize_review s' repo pr noted later nb level comment_id lookup-noted,
      refl,
      refl,
      refl,
      refl,
    ),
    (
      requeued later noted,
      lookup-discard_pushed s' repo pr noted later nb level comment_id after_push-IsValid
          lookup-noted refl,
      refl,
      refl,
      refl,
    ),
  )

  -- When the run ends as a terminal failure instead, the ticket is failed with the error of that run,
  -- keeps the pushed commit and the flag of the push, and is due at no time.
  pub push_before_failure :
      (later : ℕ) (error : Option String)
      → (u : Ticket) × (lookup (mark_failed s' t.id later error) repo pr ≡ some u)
        × (u.status ≡ failed)
        × (u.last_error ≡ error)
        × (u.head_sha ≡ head_sha)
        × (u.rereview_requested ≡ 1)
        × ((at : ℕ) → is_due at u ≡ false)
  unfolding mark_failed
  push_before_failure later error = (
    failed_at later error noted,
    rw (lookup-update (has_id t.id) (failed_at later error) s' repo pr (λ _. refl), lookup-noted)
        (ground arith),
    refl,
    refl,
    refl,
    refl,
    λ at. refl,
  )
