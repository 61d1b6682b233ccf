-- ===== src/Tickets/Finish.antt =====
-- The ends of a run in review_queue/store.py: finalize_review, discard_skipped_ticket,
-- cancel_ticket, migrate_repo_rename and recover_on_startup.
use pr_review_bot.Prelude.{
  Bool, ℕ, String, ◌&&◌, Option, none, some, if◌then◌else◌, ◌==◌, str_eq, is_none, is_some, or_else,
}
use pr_review_bot.Status.{pending, deferred, done, cancelled, is_queued, is_running}
use pr_review_bot.Tickets.Rows.{Ticket, delete_where, find_where, has_id, has_key}
use pr_review_bot.Tickets.{Table, update}

-- The SET list of `finalize_review`; every CASE reads the old row.
abbrev pub finalized : ℕ → ℕ → ℕ → Option ℕ → Ticket → Ticket
finalized now rereview_not_before level comment_id t =
    let dirty = t.rereview_requested == 1 in
    record t {
      last_reviewed_at = some now;
      comment_id = or_else comment_id t.comment_id;
      status = if dirty then deferred else done;
      not_before = if dirty then some rereview_not_before else none;
      attempts = if dirty then 0 else t.attempts;
      cooldown_level = if dirty then level else t.cooldown_level;
      rereview_requested = 0;
      defer_reason = none;
      updated_at = now;
    }

unfoldable pub finalize_review : Table → ℕ → ℕ → ℕ → ℕ → Option ℕ → Table
finalize_review s ticket_id now rereview_not_before level comment_id =
    update (has_id ticket_id) (finalized now rereview_not_before level comment_id) s

abbrev pub cancelled_at : ℕ → Ticket → Ticket
cancelled_at now t = record t { status = cancelled; updated_at = now }

-- The WHERE of `cancel_ticket`.
abbrev pub cancellable : String → ℕ → Ticket → Bool
cancellable repo pr t = has_key repo pr t && is_queued t.status

-- UPDATE … RETURNING *: the cancelled row, or none where no row matched.
unfoldable pub cancel_ticket : Table → String → ℕ → ℕ → Option Ticket × Table
cancel_ticket s repo pr now = elim (find_where (cancellable repo pr) s.rows) [
  | none ↦ (none, s)
  | some t ↦ (some (cancelled_at now t), update (cancellable repo pr) (cancelled_at now) s)
]

-- The WHERE clauses of the three statements of `discard_skipped_ticket`.
abbrev pub unreviewed : ℕ → Ticket → Bool
unreviewed ticket_id t =
    has_id ticket_id t && (t.rereview_requested == 0 && is_none t.last_reviewed_at)

abbrev pub pushed : ℕ → Ticket → Bool
pushed ticket_id t = has_id ticket_id t && t.rereview_requested == 1

abbrev pub reviewed : ℕ → Ticket → Bool
reviewed ticket_id t = has_id ticket_id t && is_some t.last_reviewed_at

abbrev pub requeued : ℕ → Ticket → Ticket
requeued now t = record t {
  status = pending;
  not_before = none;
  attempts = 0;
  rereview_requested = 0;
  defer_reason = none;
  updated_at = now;
}

abbrev pub reverted : ℕ → Ticket → Ticket
reverted now t = record t {
  status = done;
  not_before = none;
  rereview_requested = 0;
  defer_reason = none;
  updated_at = now;
}

-- `rowcount > 0` says that a row matched.
unfoldable pub discard_skipped_ticket : Table → ℕ → ℕ → Table
discard_skipped_ticket s ticket_id now =
    if is_some (find_where (unreviewed ticket_id) s.rows)
    then record s { rows = delete_where (unreviewed ticket_id) s.rows }
    else if is_some (find_where (pushed ticket_id) s.rows)
    then update (pushed ticket_id) (requeued now) s
    else update (reviewed ticket_id) (reverted now) s

-- WHERE repo_full_name = old AND NOT EXISTS (a row of the same PR under the new name). The
-- subquery reads the table as it was before the statement.
abbrev pub movable : Table → String → String → Ticket → Bool
movable s old new t =
    str_eq t.repo_full_name old && is_none (find_where (has_key new t.pr_number) s.rows)

abbrev pub moved : String → ℕ → Ticket → Ticket
moved new now t = record t { repo_full_name = new; updated_at = now }

abbrev pub left_over : String → Ticket → Bool
left_over old t = str_eq t.repo_full_name old && is_queued t.status

-- The two UPDATEs of `migrate_repo_rename` on this table.
unfoldable pub migrate_tickets : Table → String → String → ℕ → Table
migrate_tickets s old new now =
    update (left_over old) (cancelled_at now) (update (movable s old new) (moved new now) s)

unfoldable pub recover_on_startup : Table → ℕ → Table
recover_on_startup s now =
    update (λ t. is_running t.status)
      (λ t. record t { status = pending; rereview_requested = 0; updated_at = now }) s
