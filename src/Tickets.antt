-- ===== src/Tickets.antt =====
-- The `tickets` table of review_queue/store.py and the functions that read and write it.
-- A row is a `Ticket`, the table is the list of its rows in insertion order together with the next
-- identity value. Each function runs one transaction and is one function here. An instant that the
-- source keeps as ISO-8601 UTC text is a number of microseconds: the order of the texts is the
-- order of the instants.
pub mod Rows
pub mod Enqueue
pub mod Claim
pub mod Finish
pub mod Invariant
pub mod Search
pub mod Push
pub mod Queueing
pub mod Lifecycle
mod Tests
use pr_review_bot.Prelude.{
  ℕ, ◌+◌, String, Bool, true, false, not, ◌&&◌, ◌||◌, Option, none, some, List, [], ◌∷◌, ◌++◌,
  if◌then◌else◌, ltb, leb, ◌==◌, str_eq, is_none, is_some, or_else, take,
}
use pr_review_bot.Status.{
  Status, pending, running, deferred, retrying, done, failed, cancelled, Reason, usage_cap,
  is_queued, is_waiting, is_pending, is_running, is_deferred,
}
use Rows.{Ticket, update_where, delete_where, find_where, has_id, has_key}

pub record Table : Type 0 where
  pub rows : List Ticket
  pub next_id : ℕ

-- `UPDATE tickets SET … WHERE …`
abbrev pub update : (Ticket → Bool) → (Ticket → Ticket) → Table → Table
update p f s = record s { rows = update_where p f s.rows }

-- SELECT … WHERE id = …
unfoldable pub get_ticket : Table → ℕ → Option Ticket
get_ticket s ticket_id = find_where (has_id ticket_id) s.rows

-- The row of a pull request.
unfoldable pub lookup : Table → String → ℕ → Option Ticket
lookup s repo pr = find_where (has_key repo pr) s.rows

unfoldable pub defer_rate_limited : Table → ℕ → ℕ → ℕ → Table
defer_rate_limited s ticket_id not_before now =
    update (has_id ticket_id)
      (λ t. record t {
        status = deferred;
        not_before = some not_before;
        defer_reason = none;
        updated_at = now;
      })
      s

unfoldable pub defer_usage_capped : Table → ℕ → ℕ → ℕ → Table
defer_usage_capped s ticket_id not_before now =
    update (has_id ticket_id)
      (λ t. record t {
        status = deferred;
        not_before = some not_before;
        defer_reason = some usage_cap;
        updated_at = now;
      })
      s

unfoldable pub defer_failed : Table → ℕ → ℕ → ℕ → Table
defer_failed s ticket_id not_before now =
    update (has_id ticket_id)
      (λ t. record t {
        status = retrying;
        not_before = some not_before;
        attempts = t.attempts + 1;
        updated_at = now;
      })
      s

abbrev pub failed_at : ℕ → Option String → Ticket → Ticket
failed_at now error t = record t { status = failed; last_error = error; updated_at = now }

unfoldable pub mark_failed : Table → ℕ → ℕ → Option String → Table
mark_failed s ticket_id now error = update (has_id ticket_id) (failed_at now error) s

unfoldable pub set_comment_id : Table → ℕ → Option ℕ → Table
set_comment_id s ticket_id none = s
set_comment_id s ticket_id (some c) =
    update (has_id ticket_id) (λ t. record t { comment_id = some c }) s

unfoldable pub clear_visible_review : Table → ℕ → Table
clear_visible_review s ticket_id =
    update (has_id ticket_id) (λ t. record t { last_reviewed_at = none }) s

unfoldable pub mark_notice_posted : Table → ℕ → Option ℕ → Table
mark_notice_posted s ticket_id not_before =
    update (has_id ticket_id) (λ t. record t { notice_not_before = not_before }) s

unfoldable pub clear_notice : Table → ℕ → Table
clear_notice s ticket_id = update (has_id ticket_id) (λ t. record t { notice_not_before = none }) s
