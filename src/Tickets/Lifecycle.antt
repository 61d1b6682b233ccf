-- ===== src/Tickets/Lifecycle.antt =====
-- Every history of the tickets table as a sequence of committed transactions, and what holds after
-- any of them.
use pr_review_bot.Prelude.{ℕ, ◌≤◌, String, ◌≡◌, Bool, Option, some, []}
use pr_review_bot.Number.{Number}
use pr_review_bot.Cooldown.{CooldownCache, max_cooldown_level}
use pr_review_bot.Tickets.{
  Table, defer_rate_limited, defer_usage_capped, defer_failed, mark_failed, set_comment_id,
  clear_visible_review, mark_notice_posted, clear_notice,
}
use pr_review_bot.Tickets.Enqueue.{enqueue_or_update}
use pr_review_bot.Tickets.Claim.{claim_next_due}
use pr_review_bot.Tickets.Finish.{
  finalize_review, cancel_ticket, discard_skipped_ticket, migrate_tickets, recover_on_startup,
}
use pr_review_bot.Tickets.Invariant.{
  IsValid, claim_next_due-IsValid, defer_rate_limited-IsValid, defer_usage_capped-IsValid,
  defer_failed-IsValid, mark_failed-IsValid, set_comment_id-IsValid, clear_visible_review-IsValid,
  mark_notice_posted-IsValid, clear_notice-IsValid, finalize_review-IsValid, cancel_ticket-IsValid,
  discard_skipped_ticket-IsValid, recover_on_startup-IsValid,
}
use pr_review_bot.Tickets.Invariant.Enqueues.{enqueue_or_update-IsValid}
use pr_review_bot.Tickets.Invariant.Rename.{migrate_tickets-IsValid}

-- The table as the schema creates it.
abbrev pub empty_table : Table
empty_table = record { rows = []; next_id = 1 }

-- One committed transaction, with any arguments that its callers may pass. An enqueue contains the
-- transactions that others commit while it runs.
mutual
  pub data Step (N : Number) : Table → Table → Type 0 where
    enqueues :
        {s t : Table} (c : CooldownCache N.F) (between : Table → Table) (repo : String) (pr : ℕ)
        (head_sha : Option String) (provider : String) (now i : ℕ)
        → Steps N s (between s)
        → enqueue_or_update N c between s repo pr head_sha provider now ≡ some (i, t)
        → Step N s t
    claims :
        {s t : Table} (locked : ℕ → Bool) (now : ℕ)
        → t ≡ (claim_next_due locked s now).1
        → Step N s t
    rate_limits : {s t : Table} (i nb now : ℕ) → t ≡ defer_rate_limited s i nb now → Step N s t
    caps : {s t : Table} (i nb now : ℕ) → t ≡ defer_usage_capped s i nb now → Step N s t
    retries : {s t : Table} (i nb now : ℕ) → t ≡ defer_failed s i nb now → Step N s t
    fails :
        {s t : Table} (i now : ℕ) (error : Option String)
        → t ≡ mark_failed s i now error
        → Step N s t
    finalizes :
        {s t : Table} (i now nb level : ℕ) (c : Option ℕ)
        → level ≤ max_cooldown_level
        → t ≡ finalize_review s i now nb level c
        → Step N s t
    cancels :
        {s t : Table} (repo : String) (pr now : ℕ)
        → t ≡ (cancel_ticket s repo pr now).1
        → Step N s t
    discards : {s t : Table} (i now : ℕ) → t ≡ discard_skipped_ticket s i now → Step N s t
    renames :
        {s t : Table} (old new : String) (now : ℕ) → t ≡ migrate_tickets s old new now → Step N s t
    comments : {s t : Table} (i : ℕ) (c : Option ℕ) → t ≡ set_comment_id s i c → Step N s t
    hides : {s t : Table} (i : ℕ) → t ≡ clear_visible_review s i → Step N s t
    notes : {s t : Table} (i : ℕ) (nb : Option ℕ) → t ≡ mark_notice_posted s i nb → Step N s t
    unnotes : {s t : Table} (i : ℕ) → t ≡ clear_notice s i → Step N s t
    recovers : {s t : Table} (now : ℕ) → t ≡ recover_on_startup s now → Step N s t

  pub data Steps (N : Number) : Table → Table → Type 0 where
    here : {s t : Table} → t ≡ s → Steps N s t
    next : {s t : Table} (u : Table) → Steps N s u → Step N u t → Steps N s t

mutual
  Step-IsValid : (N : Number) (s t : Table) → Step N s t → IsValid s → IsValid t
  Step-IsValid N s t (enqueues c between repo pr head_sha provider now i st e) v =
      enqueue_or_update-IsValid N c between s repo pr head_sha provider now v
        (Steps-IsValid N s (between s) st v) e
  Step-IsValid N s t (claims locked now e) v = rw e (claim_next_due-IsValid locked s now v)
  Step-IsValid N s t (rate_limits i nb now e) v = rw e (defer_rate_limited-IsValid s i nb now v)
  Step-IsValid N s t (caps i nb now e) v = rw e (defer_usage_capped-IsValid s i nb now v)
  Step-IsValid N s t (retries i nb now e) v = rw e (defer_failed-IsValid s i nb now v)
  Step-IsValid N s t (fails i now error e) v = rw e (mark_failed-IsValid s i now error v)
  Step-IsValid N s t (finalizes i now nb level c h e) v =
      rw e (finalize_review-IsValid s i now nb level c h v)
  Step-IsValid N s t (cancels repo pr now e) v = rw e (cancel_ticket-IsValid s repo pr now v)
  Step-IsValid N s t (discards i now e) v = rw e (discard_skipped_ticket-IsValid s i now v)
  Step-IsValid N s t (renames old new now e) v = rw e (migrate_tickets-IsValid s old new now v)
  Step-IsValid N s t (comments i c e) v = rw e (set_comment_id-IsValid s i c v)
  Step-IsValid N s t (hides i e) v = rw e (clear_visible_review-IsValid s i v)
  Step-IsValid N s t (notes i nb e) v = rw e (mark_notice_posted-IsValid s i nb v)
  Step-IsValid N s t (unnotes i e) v = rw e (clear_notice-IsValid s i v)
  Step-IsValid N s t (recovers now e) v = rw e (recover_on_startup-IsValid s now v)

  Steps-IsValid : (N : Number) (s t : Table) → Steps N s t → IsValid s → IsValid t
  Steps-IsValid N s t (here e) v = rw e v
  Steps-IsValid N s t (next u st step) v = Step-IsValid N u t step (Steps-IsValid N s u st v)

-- After any history of transactions from the empty table, in any order and with any arguments,
-- ids are unique and below the next one, no two tickets are of one pull request, every ticket that
-- waits has a date, the dirty flag is 0 or 1 and the escalation level is at most 30.
pub reachable-IsValid : (N : Number) (t : Table) → Steps N empty_table t → IsValid t
reachable-IsValid N t st =
    Steps-IsValid N empty_table t st
      (record { fresh = tt; unique_id = tt; unique_key = tt; sound = tt })
