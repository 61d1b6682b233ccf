-- ===== src/Tickets/Invariant.antt =====
-- The well-formedness of the tickets table and its preservation by every operation.
pub mod Rename
pub mod Enqueues
use mathlib.Core.Option
use pr_review_bot.Prelude.{
  ℕ, zero, suc, ◌+◌, ◌≤◌, ◌<◌, String, ◌≡◌, refl, Bool, true, false, not, ◌&&◌, ◌||◌, Option, none,
  some, List, [], ◌∷◌, ◌++◌, arith, All, if_cases, is_some, Option-cases, inl, inr, ◌==◌,
}
use pr_review_bot.Number.{Number}
use pr_review_bot.Status.{
  Status, pending, running, deferred, retrying, done, failed, cancelled, is_waiting,
}
use pr_review_bot.Cooldown.{CooldownCache, due_after_cooldown, max_cooldown_level}
use pr_review_bot.Tickets.Rows.{
  Ticket, update_where, delete_where, find_where, has_id, has_key, Unique, same_id, same_key,
  same_key_symm, All-update_where, All-delete_where, All-append, All-weaken, Unique-update_where,
  Unique-delete_where, Unique-append,
}
use pr_review_bot.Tickets.{
  Table, update, lookup, defer_rate_limited, defer_usage_capped, defer_failed, mark_failed,
  set_comment_id, clear_visible_review, mark_notice_posted, clear_notice,
}
use pr_review_bot.Tickets.Enqueue.{enqueue_or_update, update_existing, touch, rearm, fresh_ticket}
use pr_review_bot.Tickets.Claim.{claim_next_due, oldest_due, claimed}
use pr_review_bot.Tickets.Finish.{
  finalize_review, finalized, cancel_ticket, cancelled_at, cancellable, unreviewed, pushed,
  reviewed, requeued, reverted, discard_skipped_ticket, recover_on_startup,
}

-- A ticket that waits has a date, so that it can become due.
abbrev pub has_date : Status → Option ℕ → Bool
has_date s nb = not (is_waiting s) || is_some nb

pub record IsSound (t : Ticket) : Type 0 where
  pub flag : t.rereview_requested ≤ 1
  pub level : t.cooldown_level ≤ max_cooldown_level
  pub dated : has_date t.status t.not_before ≡ true

-- The PRIMARY KEY and the UNIQUE (repo_full_name, pr_number) of the schema, identities below the
-- next one, and sound rows.
pub record IsValid (s : Table) : Type 0 where
  pub fresh : All (λ t. t.id < s.next_id) s.rows
  pub unique_id : Unique same_id s.rows
  pub unique_key : Unique same_key s.rows
  pub sound : All IsSound s.rows

-- An UPDATE that leaves the keys alone and keeps each row sound.
pub update-IsValid :
    (p : Ticket → Bool) (f : Ticket → Ticket) (s : Table)
    → ((t : Ticket) → (f t).id ≡ t.id)
    → ((t : Ticket) → (f t).repo_full_name ≡ t.repo_full_name)
    → ((t : Ticket) → (f t).pr_number ≡ t.pr_number)
    → ((t : Ticket) → p t ≡ true → IsSound t → IsSound (f t))
    → IsValid s
    → IsValid (update p f s)
update-IsValid p f s hi hr hp hs v = record {
  fresh = All-update_where (λ t. t.id < s.next_id) p f s.rows (λ t _ a. rw (hi t) a) v.fresh;
  unique_id =
      Unique-update_where same_id p f s.rows (λ t u. rw (hi t)) (λ t u. rw (hi t)) v.unique_id;
  unique_key =
      Unique-update_where same_key p f s.rows (λ t u. rw (hr t, hp t)) (λ t u. rw (hr t, hp t))
        v.unique_key;
  sound = All-update_where IsSound p f s.rows hs v.sound;
}

-- An UPDATE that writes none of the columns that the invariant reads.
pub defer_rate_limited-IsValid :
    (s : Table) (ticket_id nb now : ℕ) → IsValid s → IsValid (defer_rate_limited s ticket_id nb now)
unfolding defer_rate_limited
defer_rate_limited-IsValid s ticket_id nb now v =
    update-IsValid _ _ s (λ _. refl) (λ _. refl) (λ _. refl) (λ t _ h. ground arith) v

pub defer_usage_capped-IsValid :
    (s : Table) (ticket_id nb now : ℕ) → IsValid s → IsValid (defer_usage_capped s ticket_id nb now)
unfolding defer_usage_capped
defer_usage_capped-IsValid s ticket_id nb now v =
    update-IsValid _ _ s (λ _. refl) (λ _. refl) (λ _. refl) (λ t _ h. ground arith) v

pub finalize_review-IsValid :
    (s : Table) (ticket_id now nb level : ℕ) (c : Option ℕ)
    → level ≤ max_cooldown_level
    → IsValid s
    → IsValid (finalize_review s ticket_id now nb level c)
unfolding finalize_review
finalize_review-IsValid s ticket_id now nb level c h v =
    update-IsValid _ _ s (λ _. refl) (λ _. refl) (λ _. refl) (λ t _ k. ground arith) v

pub defer_failed-IsValid :
    (s : Table) (ticket_id nb now : ℕ) → IsValid s → IsValid (defer_failed s ticket_id nb now)
unfolding defer_failed
defer_failed-IsValid s ticket_id nb now v =
    update-IsValid _ _ s (λ _. refl) (λ _. refl) (λ _. refl) (λ t _ h. ground arith) v

pub mark_failed-IsValid :
    (s : Table) (ticket_id now : ℕ) (error : Option String)
    → IsValid s
    → IsValid (mark_failed s ticket_id now error)
unfolding mark_failed
mark_failed-IsValid s ticket_id now error v =
    update-IsValid _ _ s (λ _. refl) (λ _. refl) (λ _. refl) (λ t _ h. ground arith) v

pub clear_visible_review-IsValid :
    (s : Table) (ticket_id : ℕ) → IsValid s → IsValid (clear_visible_review s ticket_id)
unfolding clear_visible_review
clear_visible_review-IsValid s ticket_id v =
    update-IsValid _ _ s (λ _. refl) (λ _. refl) (λ _. refl) (λ t _ h. ground arith) v

pub mark_notice_posted-IsValid :
    (s : Table) (ticket_id : ℕ) (nb : Option ℕ)
    → IsValid s
    → IsValid (mark_notice_posted s ticket_id nb)
unfolding mark_notice_posted
mark_notice_posted-IsValid s ticket_id nb v =
    update-IsValid _ _ s (λ _. refl) (λ _. refl) (λ _. refl) (λ t _ h. ground arith) v

pub clear_notice-IsValid :
    (s : Table) (ticket_id : ℕ) → IsValid s → IsValid (clear_notice s ticket_id)
unfolding clear_notice
clear_notice-IsValid s ticket_id v =
    update-IsValid _ _ s (λ _. refl) (λ _. refl) (λ _. refl) (λ t _ h. ground arith) v

pub recover_on_startup-IsValid :
    (s : Table) (now : ℕ) → IsValid s → IsValid (recover_on_startup s now)
unfolding recover_on_startup
recover_on_startup-IsValid s now v =
    update-IsValid _ _ s (λ _. refl) (λ _. refl) (λ _. refl) (λ t _ h. ground arith) v

pub set_comment_id-IsValid :
    (s : Table) (ticket_id : ℕ) (c : Option ℕ) → IsValid s → IsValid (set_comment_id s ticket_id c)
unfolding set_comment_id
set_comment_id-IsValid s ticket_id none v = v
set_comment_id-IsValid s ticket_id (some c) v =
    update-IsValid _ _ s (λ _. refl) (λ _. refl) (λ _. refl) (λ t _ h. ground arith) v

pub claim_next_due-IsValid :
    (locked : ℕ → Bool) (s : Table) (now : ℕ) → IsValid s → IsValid (claim_next_due locked s now).1
unfolding claim_next_due
claim_next_due-IsValid locked s now v = elim (Option-cases (oldest_due locked now s.rows)) [
  | inl e ↦ rw (e, claim_next_due) v
  | inr (t, e) ↦
      rw (e, claim_next_due)
        (update-IsValid (has_id t.id) (claimed now) s (λ _. refl) (λ _. refl) (λ _. refl)
          (λ u _ h. ground arith) v)
]

pub cancel_ticket-IsValid :
    (s : Table) (repo : String) (pr now : ℕ) → IsValid s → IsValid (cancel_ticket s repo pr now).1
unfolding cancel_ticket
cancel_ticket-IsValid s repo pr now v =
    elim (Option-cases (find_where (cancellable repo pr) s.rows)) [
      | inl e ↦ rw (e, cancel_ticket) v
      | inr (t, e) ↦
          rw (e, cancel_ticket)
            (update-IsValid (cancellable repo pr) (cancelled_at now) s (λ _. refl) (λ _. refl)
              (λ _. refl) (λ u _ h. ground arith) v)
    ]

delete_where-IsValid :
    (p : Ticket → Bool) (s : Table)
    → IsValid s
    → IsValid (record s { rows = delete_where p s.rows })
delete_where-IsValid p s v = record {
  fresh = All-delete_where (λ t. t.id < s.next_id) p s.rows v.fresh;
  unique_id = Unique-delete_where same_id p s.rows v.unique_id;
  unique_key = Unique-delete_where same_key p s.rows v.unique_key;
  sound = All-delete_where IsSound p s.rows v.sound;
}

pub discard_skipped_ticket-IsValid :
    (s : Table) (ticket_id now : ℕ) → IsValid s → IsValid (discard_skipped_ticket s ticket_id now)
unfolding discard_skipped_ticket
discard_skipped_ticket-IsValid s ticket_id now v =
    if_cases IsValid (is_some (find_where (unreviewed ticket_id) s.rows)) _ _
      (λ _. delete_where-IsValid (unreviewed ticket_id) s v)
      (λ _.
        if_cases IsValid (is_some (find_where (pushed ticket_id) s.rows)) _ _
          (λ _.
            update-IsValid (pushed ticket_id) (requeued now) s (λ _. refl) (λ _. refl) (λ _. refl)
              (λ t _ h. ground arith) v)
          (λ _.
            update-IsValid (reviewed ticket_id) (reverted now) s (λ _. refl) (λ _. refl) (λ _. refl)
              (λ t _ h. ground arith) v))
