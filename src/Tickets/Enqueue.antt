-- ===== src/Tickets/Enqueue.antt =====
-- `enqueue_or_update` of review_queue/store.py.
use mathlib.Core.Option
use pr_review_bot.Prelude.{ℕ, ◌+◌, String, Option, none, some, [], ◌∷◌, ◌++◌}
use pr_review_bot.Status.{Status, pending, running, deferred, retrying, done, failed, cancelled}
use pr_review_bot.Tickets.Rows.{Ticket, has_id}
use pr_review_bot.Number.{Number}
use pr_review_bot.Cooldown.{CooldownCache, due_after_cooldown}
use pr_review_bot.Tickets.{Table, update, lookup}

-- The row that the INSERT of `enqueue_or_update` writes.
abbrev pub fresh_ticket : ℕ → String → ℕ → Option String → String → ℕ → Ticket
fresh_ticket ticket_id repo pr head_sha provider now = record {
  id = ticket_id;
  repo_full_name = repo;
  pr_number = pr;
  head_sha = head_sha;
  status = pending;
  provider = provider;
  not_before = none;
  attempts = 0;
  comment_id = none;
  enqueued_at = now;
  updated_at = now;
  rereview_requested = 0;
  last_reviewed_at = none;
  cooldown_level = 0;
  notice_not_before = none;
  last_error = none;
  defer_reason = none;
}

-- The INSERT and its RETURNING id.
abbrev pub insert_ticket : Table → String → ℕ → Option String → String → ℕ → ℕ × Table
insert_ticket s repo pr head_sha provider now = (
  s.next_id,
  record {
    rows = s.rows ++ fresh_ticket s.next_id repo pr head_sha provider now ∷ [];
    next_id = s.next_id + 1;
  },
)

-- `enqueue_or_update` on a row that exists, by its status. `none` is the TypeError of a cooldown
-- computed from a configuration that is not usable.
module _ (N : Number) (cooldown : CooldownCache N.F) where
  -- The SET list of the UPDATE, from the row that was read.
  abbrev pub rearm : Option String → ℕ → Ticket → Option (Ticket → Ticket)
  rearm head_sha now t =
      elim (due_after_cooldown N cooldown t.last_reviewed_at now t.cooldown_level) [
        | none ↦ none
        | some (new_status, not_before, new_level) ↦ some (λ u. record u {
          head_sha = head_sha;
          status = new_status;
          not_before = not_before;
          attempts = 0;
          rereview_requested = 0;
          cooldown_level = new_level;
          defer_reason = none;
          updated_at = now;
        })
      ]

  unfoldable pub touch : Status → Option String → ℕ → Ticket → Option (Ticket → Ticket)
  touch running head_sha now t =
      some (λ u. record u { head_sha = head_sha; rereview_requested = 1; updated_at = now })
  touch pending head_sha now t = some (λ u. record u { head_sha = head_sha; updated_at = now })
  touch deferred head_sha now t = some (λ u. record u { head_sha = head_sha; updated_at = now })
  touch retrying head_sha now t = some (λ u. record u { head_sha = head_sha; updated_at = now })
  touch done head_sha now t = rearm head_sha now t
  touch failed head_sha now t = rearm head_sha now t
  touch cancelled head_sha now t = rearm head_sha now t

  -- The UPDATE of the row that was read; a raise rolls the transaction back.
  unfoldable pub update_existing : Table → Ticket → Option String → ℕ → Option (ℕ × Table)
  unfolding touch
  update_existing s t head_sha now =
      Option.map (λ set_list. (t.id, update (has_id t.id) set_list s))
        (touch t.status head_sha now t)

  -- The transaction. `between` is what other transactions commit after the first SELECT has found
  -- no row and before the INSERT: where they have inserted the same key, ON CONFLICT DO NOTHING
  -- returns no id and the row is read again. `none` is a raise, after which nothing of this
  -- transaction is kept. Not modelled: the identity value that an INSERT without effect consumes, and
  -- a deletion of the row between the INSERT and the second SELECT.
  unfoldable pub enqueue_or_update :
      (between : Table → Table)
      → Table
      → String
      → ℕ
      → Option String
      → String
      → ℕ
      → Option (ℕ × Table)
  unfolding update_existing lookup
  enqueue_or_update between s repo pr head_sha provider now = elim (lookup s repo pr) [
    | some t ↦ update_existing s t head_sha now
    | none ↦
        let s' = between s in
        elim (lookup s' repo pr) [
          | some t ↦ update_existing s' t head_sha now
          | none ↦ some (insert_ticket s' repo pr head_sha provider now)
        ]
  ]
