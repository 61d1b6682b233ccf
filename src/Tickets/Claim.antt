-- ===== src/Tickets/Claim.antt =====
-- `claim_next_due` and `tickets_needing_notice` of review_queue/store.py.
use pr_review_bot.Prelude.{
  ℕ, Bool, true, false, not, ◌&&◌, ◌||◌, Option, none, some, List, [], ◌∷◌, if◌then◌else◌, ltb, leb,
  ◌==◌, is_some, take, select,
}
use pr_review_bot.Status.{running, is_waiting, is_pending, is_deferred}
use pr_review_bot.Tickets.Rows.{Ticket, has_id}
use pr_review_bot.Tickets.{Table, update}

-- status = 'pending' OR (status IN ('deferred','retrying') AND not_before <= now)
abbrev pub at_or_before : Option ℕ → ℕ → Bool
at_or_before none now = false
at_or_before (some nb) now = leb nb now

abbrev pub is_due : ℕ → Ticket → Bool
is_due now t = is_pending t.status || (is_waiting t.status && at_or_before t.not_before now)

-- ORDER BY enqueued_at ASC, id ASC
abbrev pub comes_first : Ticket → Ticket → Bool
comes_first t u =
    ltb t.enqueued_at u.enqueued_at || (t.enqueued_at == u.enqueued_at && leb t.id u.id)

-- The subquery of `claim_next_due`. `locked` says which rows another transaction holds: SKIP
-- LOCKED passes over them.
unfoldable pub oldest_due : (locked : ℕ → Bool) → ℕ → List Ticket → Option Ticket
oldest_due locked now [] = none
oldest_due locked now (t ∷ ts) =
    let rest = oldest_due locked now ts in
    if is_due now t && not (locked t.id)
    then elim rest [ none ↦ some t | some u ↦ if comes_first t u then some t else some u ]
    else rest

abbrev pub claimed : ℕ → Ticket → Ticket
claimed now t = record t { status = running; updated_at = now; rereview_requested = 0 }

unfoldable pub claim_next_due : (locked : ℕ → Bool) → Table → ℕ → Option Ticket × Table
unfolding oldest_due
claim_next_due locked s now = elim (oldest_due locked now s.rows) [
  | none ↦ (none, s)
  | some t ↦ (some (claimed now t), update (has_id t.id) (claimed now) s)
]

-- WHERE of `tickets_needing_notice`. A comparison with NULL is not true.
abbrev pub differs : Option ℕ → ℕ → Bool
differs none nb = true
differs (some old) nb = not (old == nb)

abbrev pub waits_past : Ticket → Option ℕ → ℕ → Bool
waits_past t none now = false
waits_past t (some nb) now = ltb now nb && differs t.notice_not_before nb

abbrev pub notice_due : ℕ → Ticket → Bool
notice_due now t =
    is_deferred t.status && (waits_past t t.not_before now && is_some t.last_reviewed_at)

-- ORDER BY enqueued_at ASC, id ASC
unfoldable pub insert_ordered : Ticket → List Ticket → List Ticket
insert_ordered t [] = t ∷ []
insert_ordered t (u ∷ us) = if comes_first t u then t ∷ u ∷ us else u ∷ insert_ordered t us

unfoldable pub order : List Ticket → List Ticket
unfolding insert_ordered
order [] = []
order (t ∷ ts) = insert_ordered t (order ts)

unfoldable pub tickets_needing_notice : Table → ℕ → ℕ → List Ticket
unfolding order
tickets_needing_notice s now limit = take limit (order (select (notice_due now) s.rows))
