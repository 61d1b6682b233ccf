-- ===== src/Demo/Finish.antt =====
-- The rest of demo/store.py: the ends of a ticket, the eviction of sessions, and a history of calls.
use pr_review_bot.Prelude.{
  ℕ, ◌+◌, ◌-◌, String, Bool, false, not, ◌&&◌, ◌||◌, Option, none, some, List, [], ◌∷◌,
  if◌then◌else◌, ◌==◌, str_eq, length, select, is_none, or_else,
}
use pr_review_bot.Status.{
  pending, deferred, retrying, done, failed, cancelled, usage_cap, is_queued,
}
use pr_review_bot.Tickets.Rows.{Ticket, has_id, has_key}
use pr_review_bot.Demo.{
  Context, DemoReview, DemoStore, find, change, changed_by_id, enqueue_demo, claim_demo,
  record_review_demo,
}

abbrev pub empty_store : DemoStore
empty_store = record {
  active_provider = "groq";
  next_id = 1;
  tickets = [];
  contexts = [];
  reviews = [];
  processing = none;
}

unfoldable pub finalize_demo : ℕ → ℕ → Option ℕ → DemoStore → DemoStore
finalize_demo i now comment_id s =
    changed_by_id i
      (λ t. record t {
        status = done;
        last_reviewed_at = some now;
        updated_at = now;
        comment_id = or_else comment_id t.comment_id;
      })
      s

unfoldable pub set_comment_id_demo : ℕ → Option ℕ → DemoStore → DemoStore
set_comment_id_demo i comment_id s = changed_by_id i (λ t. record t { comment_id = comment_id }) s

unfoldable pub clear_visible_demo : ℕ → DemoStore → DemoStore
clear_visible_demo i s = changed_by_id i (λ t. record t { last_reviewed_at = none }) s

abbrev pub is_cancellable : String → ℕ → Ticket → Bool
is_cancellable repo pr t = has_key repo pr t && is_queued t.status

unfoldable pub cancel_demo : String → ℕ → ℕ → DemoStore → DemoStore
cancel_demo repo pr now s = record s {
  tickets =
      change (is_cancellable repo pr) (λ t. record t { status = cancelled; updated_at = now })
        s.tickets;
}

-- The branches on a ticket that stays.
abbrev pub kept_ticket : ℕ → Ticket → Ticket
kept_ticket now t =
    if t.rereview_requested == 0
    then record t {
      status = done;
      not_before = none;
      rereview_requested = 0;
      defer_reason = none;
      updated_at = now;
    }
    else record t {
      status = pending;
      not_before = none;
      attempts = 0;
      rereview_requested = 0;
      defer_reason = none;
      updated_at = now;
    }

abbrev pub is_discarded : Ticket → Bool
is_discarded t = t.rereview_requested == 0 && is_none t.last_reviewed_at

unfoldable pub discard_demo : ℕ → ℕ → DemoStore → DemoStore
discard_demo i now s = elim (find (has_id i) s.tickets) [
  | none ↦ s
  | some t ↦
      if is_discarded t
      then record s { tickets = select (λ u. not (has_id i u)) s.tickets }
      else changed_by_id i (kept_ticket now) s
]

unfoldable pub mark_failed_demo : ℕ → ℕ → Option String → DemoStore → DemoStore
mark_failed_demo i now error s =
    changed_by_id i (λ t. record t { status = failed; last_error = error; updated_at = now }) s

unfoldable pub defer_rate_limited_demo : ℕ → ℕ → ℕ → DemoStore → DemoStore
defer_rate_limited_demo i not_before now s =
    changed_by_id i
      (λ t. record t {
        status = deferred;
        not_before = some not_before;
        defer_reason = none;
        updated_at = now;
      })
      s

unfoldable pub defer_usage_capped_demo : ℕ → ℕ → ℕ → DemoStore → DemoStore
defer_usage_capped_demo i not_before now s =
    changed_by_id i
      (λ t. record t {
        status = deferred;
        not_before = some not_before;
        defer_reason = some usage_cap;
        updated_at = now;
      })
      s

unfoldable pub defer_failed_demo : ℕ → ℕ → ℕ → DemoStore → DemoStore
defer_failed_demo i not_before now s =
    changed_by_id i
      (λ t. record t {
        status = retrying;
        not_before = some not_before;
        attempts = t.attempts + 1;
        updated_at = now;
      })
      s

-- `set(session_ids)`
abbrev pub is_stale : List String → Option String → Bool
is_stale [] session = false
is_stale (x ∷ xs) none = false
is_stale (x ∷ xs) (some session) = str_eq session x || is_stale xs (some session)

abbrev pub is_evicted : List String → List (ℕ × Context) → Ticket → Bool
is_evicted stale [] t = false
is_evicted stale ((i, c) ∷ cs) t = (t.id == i && is_stale stale c.session) || is_evicted stale cs t

-- The rows that go, and their count.
unfoldable pub evict_sessions : List String → DemoStore → ℕ × DemoStore
evict_sessions stale s =
    let ts = select (λ t. not (is_evicted stale s.contexts t)) s.tickets in
    let rs = select (λ (r : DemoReview). not (is_stale stale r.session)) s.reviews in
    (
      (length s.reviews + length s.tickets) - (length rs + length ts),
      record s {
        tickets = ts;
        reviews = rs;
        contexts = select (λ (c : ℕ × Context). not (is_stale stale c.1.session)) s.contexts;
      },
    )

-- The calls that change something.
pub data DemoCall : Type 0 where
  enqueues : Context → String → ℕ → Option String → String → ℕ → DemoCall
  claims : ℕ → DemoCall
  records : Option String → String → ℕ → String → String → ℕ → DemoCall
  finalizes : ℕ → ℕ → Option ℕ → DemoCall
  sets_comment : ℕ → Option ℕ → DemoCall
  clears_review : ℕ → DemoCall
  cancels : String → ℕ → ℕ → DemoCall
  discards : ℕ → ℕ → DemoCall
  fails : ℕ → ℕ → Option String → DemoCall
  defers : ℕ → ℕ → ℕ → DemoCall
  caps_usage : ℕ → ℕ → ℕ → DemoCall
  retries : ℕ → ℕ → ℕ → DemoCall
  evicts : List String → DemoCall

abbrev pub call_demo : DemoCall → DemoStore → DemoStore
call_demo (enqueues c repo pr sha p now) s = (enqueue_demo c repo pr sha p now s).1
call_demo (claims now) s = (claim_demo now s).1
call_demo (records current repo pr p m now) s = record_review_demo current repo pr p m now s
call_demo (finalizes i now comment_id) s = finalize_demo i now comment_id s
call_demo (sets_comment i comment_id) s = set_comment_id_demo i comment_id s
call_demo (clears_review i) s = clear_visible_demo i s
call_demo (cancels repo pr now) s = cancel_demo repo pr now s
call_demo (discards i now) s = discard_demo i now s
call_demo (fails i now error) s = mark_failed_demo i now error s
call_demo (defers i not_before now) s = defer_rate_limited_demo i not_before now s
call_demo (caps_usage i not_before now) s = defer_usage_capped_demo i not_before now s
call_demo (retries i not_before now) s = defer_failed_demo i not_before now s
call_demo (evicts stale) s = (evict_sessions stale s).1

-- A history of calls, oldest first.
abbrev pub history : List DemoCall → DemoStore → DemoStore
history [] s = s
history (c ∷ cs) s = history cs (call_demo c s)
