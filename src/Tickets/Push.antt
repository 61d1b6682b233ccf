-- ===== src/Tickets/Push.antt =====
-- What a push to a pull request does to its ticket.
pub mod Running
pub mod Policy
use mathlib.Core.Option
use pr_review_bot.Prelude.{
  ℕ, String, ◌≡◌, refl, false, ◌&&◌, Option, none, some, List, [], ◌∷◌, ◌++◌, arith, eq_iff, str_eq,
  if◌then◌else◌, ◌==◌, Option-cases, inl, inr, ◌∙◌,
}
use pr_review_bot.Number.{Number}
use pr_review_bot.Status.{pending, running, deferred}
use pr_review_bot.Cooldown.{CooldownCache}
use pr_review_bot.Tickets.Rows.{
  Ticket, find_where, has_id, has_key, Unique, same_id, find_where-update_where,
}
use pr_review_bot.Tickets.{Table, update, lookup, mark_failed, failed_at}
use pr_review_bot.Tickets.Claim.{is_due}
use pr_review_bot.Tickets.Enqueue.{
  enqueue_or_update, update_existing, touch, insert_ticket, fresh_ticket,
}
use pr_review_bot.Tickets.Invariant.{IsValid}
use pr_review_bot.Tickets.Invariant.Enqueues.{
  enqueue_or_update-IsValid, KeepsRow, IfSome, touch-KeepsRow,
}
use pr_review_bot.Tickets.Finish.{
  finalize_review, finalized, discard_skipped_ticket, unreviewed, pushed, requeued,
}
use pr_review_bot.Tickets.Search.{find_where-pinned, lookup-update, lookup-key, find_where-same_id}

-- Nobody else writes between the SELECT and the INSERT.
abbrev pub alone : Table → Table
alone s = s

-- The ticket of a pull request after a push, from the ticket before it: the policy of
-- `enqueue_or_update` as one function on one ticket. `none` is a raise.
abbrev pub after_push :
    (N : Number) (c : CooldownCache N.F)
    → Option Ticket
    → ℕ
    → String
    → ℕ
    → Option String
    → String
    → ℕ
    → Option Ticket
after_push N c none next_id repo pr head_sha provider now =
    some (fresh_ticket next_id repo pr head_sha provider now)
after_push N c (some t) next_id repo pr head_sha provider now =
    Option.map (λ f. f t) (touch N c t.status head_sha now t)

module _ (N : Number) (c : CooldownCache N.F) where
  lookup-append :
      (ts : List Ticket) (n : Ticket) (repo : String) (pr : ℕ)
      → find_where (has_key repo pr) (ts ++ n ∷ []) ≡ (elim (find_where (has_key repo pr) ts) [
        | some t ↦ some t
        | none ↦ if has_key repo pr n then some n else none
      ])
  unfolding find_where
  lookup-append [] n repo pr = refl
  lookup-append (t ∷ ts) n repo pr = ground (arith, lookup-append ts n repo pr)

  lookup_same :
      (s : Table) (repo : String) (pr : ℕ) (r : String) (p : ℕ) (t u : Ticket)
      → Unique same_id s.rows
      → lookup s repo pr ≡ some t
      → lookup s r p ≡ some u
      → t.id ≡ u.id
      → t ≡ u
  unfolding lookup
  lookup_same s repo pr r p t u v = find_where-same_id (has_key repo pr) (has_key r p) s.rows t u v

  module _ (head_sha : Option String) (provider : String) (now : ℕ) where
    updated_lookup :
        (s : Table) (t : Ticket) (repo : String) (pr : ℕ) (g : Ticket → Ticket) (r : String) (p : ℕ)
        → Unique same_id s.rows
        → KeepsRow g
        → lookup s repo pr ≡ some t
        → lookup (update (has_id t.id) g s) r p
          ≡ (if str_eq repo r && pr == p then some (g t) else lookup s r p)
    updated_lookup s t repo pr g r p v k e =
        rw (lookup-update (has_id t.id) g s r p (λ u. rw ((k.same u).1, (k.same u).2)))
          (elim (Option-cases (lookup s r p)) [
            | inl n ↦ rw n (ground (arith, eq_iff repo r))
            | inr (u, h) ↦ rw h (
                ground (
                  arith,
                  eq_iff repo r,
                  lookup-key s r p u h,
                  lookup-key s repo pr t e,
                  lookup_same s repo pr r p t u v e h,
                ))
          ])

    pub existing_lookup :
        (s : Table) (t : Ticket) (repo : String) (pr : ℕ) (next_id : ℕ) (i : ℕ) (s' : Table)
        → Unique same_id s.rows
        → lookup s repo pr ≡ some t
        → update_existing N c s t head_sha now ≡ some (i, s')
        → (i ≡ t.id)
          × ((r : String) (p : ℕ)
              → lookup s' r p ≡ (
                  if str_eq repo r && pr == p
                  then after_push N c (some t) next_id repo pr head_sha provider now
                  else lookup s r p))
    unfolding update_existing
    existing_lookup s t repo pr next_id i s' v e =
        go (touch N c t.status head_sha now t) (touch-KeepsRow N c t.status head_sha now t)
      where
        go :
            (o : Option (Ticket → Ticket))
            → IfSome KeepsRow o
            → Option.map {B = ℕ × Table} (λ g. (t.id, update (has_id t.id) g s)) o ≡ some (i, s')
            → (i ≡ t.id)
              × ((r : String) (p : ℕ)
                  → lookup s' r p
                    ≡ (if str_eq repo r && pr == p then Option.map (λ f. f t) o else lookup s r p))
        go none k h = cc
        go (some g) k h = (cc, λ r p. cc (updated_lookup s t repo pr g r p v k e))

    inserted_lookup :
        (s : Table) (repo : String) (pr : ℕ) (r : String) (p : ℕ)
        → lookup s repo pr ≡ none
        → lookup (insert_ticket s repo pr head_sha provider now).1 r p ≡ (
            if str_eq repo r && pr == p
            then some (fresh_ticket s.next_id repo pr head_sha provider now)
            else lookup s r p)
    unfolding lookup
    inserted_lookup s repo pr r p h =
        rw (lookup-append s.rows (fresh_ticket s.next_id repo pr head_sha provider now) r p)
          (ground (arith, eq_iff repo r))

    pub enqueue_new :
        (s : Table) (repo : String) (pr : ℕ)
        → lookup s repo pr ≡ none
        → enqueue_or_update N c alone s repo pr head_sha provider now
          ≡ some (insert_ticket s repo pr head_sha provider now)
    unfolding enqueue_or_update
    enqueue_new s repo pr h = rw (h, enqueue_or_update) (rw h)

    -- A push without a race changes the ticket of its own pull request as `after_push` says, and no
    -- other's.
    pub lookup-enqueue_or_update :
        (s : Table) (repo : String) (pr : ℕ) {i : ℕ} {s' : Table}
        → IsValid s
        → enqueue_or_update N c alone s repo pr head_sha provider now ≡ some (i, s')
        → (r : String) (p : ℕ)
        → lookup s' r p ≡ (
            if str_eq repo r && pr == p
            then after_push N c (lookup s repo pr) s.next_id repo pr head_sha provider now
            else lookup s r p)
    unfolding enqueue_or_update
    lookup-enqueue_or_update s repo pr {i} {s'} v e r p = elim (Option-cases (lookup s repo pr)) [
      | inr (t, h) ↦ rw h (
          (existing_lookup s t repo pr s.next_id i s' v.unique_id h
              (rw (h, enqueue_or_update) at e)).1
            r p)
      | inl h ↦ rw h (cc (inserted_lookup s repo pr r p h, enqueue_new s repo pr h, e))
    ]
