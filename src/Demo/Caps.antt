-- ===== src/Demo/Caps.antt =====
-- The size of the demo's memory.
use pr_review_bot.Prelude.{
  ℕ, zero, suc, ◌-◌, ◌≤◌, ◌≡◌, refl, ap, Bool, not, Option, List, [], ◌∷◌, arith, length, select,
  if_cases, option_cases,
}
use pr_review_bot.Tickets.Rows.{Ticket, has_id, has_key}
use pr_review_bot.Demo.{
  Context, DemoStore, drop, contexts_without, evict_oldest, trim, find, change, enqueue_demo,
  awaits, claim_demo, record_review_demo, with_new_ticket, new_review, with_review,
}
use pr_review_bot.Demo.Finish.{
  finalize_demo, set_comment_id_demo, clear_visible_demo, cancel_demo, is_discarded, discard_demo,
  mark_failed_demo, defer_rate_limited_demo, defer_usage_capped_demo, defer_failed_demo,
  evict_sessions, DemoCall, enqueues, claims, records, finalizes, sets_comment, clears_review,
  cancels, discards, fails, defers, caps_usage, retries, evicts, call_demo, history, empty_store,
}

-- At most 200 tickets and 200 reviews.
abbrev pub IsBounded : DemoStore → Type 0
IsBounded s = (length s.tickets ≤ 200) × (length s.reviews ≤ 200)

length-drop {ℓ} : {A : Type ℓ} (n : ℕ) (xs : List A) → length (drop n xs) ≡ length xs - n
length-drop zero xs = omega arith
length-drop (suc n) [] = omega arith
length-drop (suc n) (x ∷ xs) = omega (arith, length-drop n xs)

length-evict_oldest :
    (n : ℕ) (ts : List Ticket) (cs : List (ℕ × Context))
    → length (evict_oldest n ts cs).0 ≡ length ts - n
length-evict_oldest zero ts cs = omega arith
length-evict_oldest (suc n) [] cs = omega arith
length-evict_oldest (suc n) (t ∷ ts) cs =
    omega (arith, length-evict_oldest n ts (contexts_without t.id cs))

length-select {ℓ} : {A : Type ℓ} (p : A → Bool) (xs : List A) → length (select p xs) ≤ length xs
length-select p [] = omega arith
length-select p (x ∷ xs) =
    if_cases (λ l. length l ≤ suc (length xs)) (p x) (x ∷ select p xs) (select p xs)
      (λ e. omega (arith, length-select p xs)) (λ e. omega (arith, length-select p xs))

length-change :
    (p : Ticket → Bool) (f : Ticket → Ticket) (ts : List Ticket)
    → length (change p f ts) ≡ length ts
length-change p f [] = refl
length-change p f (t ∷ ts) =
    if_cases (λ l. length l ≡ suc (length ts)) (p t) (f t ∷ ts) (t ∷ change p f ts) (λ e. refl)
      (λ e. ap suc (length-change p f ts))

trim-IsBounded : (s : DemoStore) → IsBounded (trim s)
unfolding trim
trim-IsBounded s = (
  omega (arith, length-evict_oldest (length s.tickets - 200) s.tickets s.contexts),
  omega (arith, length-drop (length s.reviews - 200) s.reviews),
)

changed-IsBounded :
    (p : Ticket → Bool) (f : Ticket → Ticket) (s : DemoStore)
    → IsBounded s
    → IsBounded (record s { tickets = change p f s.tickets })
changed-IsBounded p f s b = (omega (arith, length-change p f s.tickets, b.0), b.1)

call_demo-IsBounded : (c : DemoCall) (s : DemoStore) → IsBounded s → IsBounded (call_demo c s)
unfolding enqueue_demo claim_demo record_review_demo finalize_demo set_comment_id_demo
    clear_visible_demo cancel_demo discard_demo mark_failed_demo defer_rate_limited_demo
    defer_usage_capped_demo defer_failed_demo evict_sessions
call_demo-IsBounded (enqueues c repo pr sha p now) s b =
    option_cases (λ (x : ℕ × DemoStore). IsBounded x.1) (find (has_key repo pr) s.tickets) _ _
      (λ e. trim-IsBounded (with_new_ticket c repo pr sha p now s))
      (λ t e. (omega (arith, length-change (has_key repo pr) _ s.tickets, b.0), b.1))
call_demo-IsBounded (claims now) s b =
    option_cases (λ (x : Option Ticket × DemoStore). IsBounded x.1) (find awaits s.tickets) _ _
      (λ e. b) (λ t e. (omega (arith, length-change awaits _ s.tickets, b.0), b.1))
call_demo-IsBounded (records current repo pr p m now) s b =
    trim-IsBounded (with_review (new_review current repo pr p m now s) s)
call_demo-IsBounded (finalizes i now comment_id) s b = changed-IsBounded (has_id i) _ s b
call_demo-IsBounded (sets_comment i comment_id) s b = changed-IsBounded (has_id i) _ s b
call_demo-IsBounded (clears_review i) s b = changed-IsBounded (has_id i) _ s b
call_demo-IsBounded (cancels repo pr now) s b = changed-IsBounded _ _ s b
call_demo-IsBounded (discards i now) s b =
    option_cases IsBounded (find (has_id i) s.tickets) _ _ (λ e. b)
      (λ t e.
        if_cases IsBounded (is_discarded t) _ _
          (λ h. (omega (arith, length-select (λ u. not (has_id i u)) s.tickets, b.0), b.1))
          (λ h. changed-IsBounded (has_id i) _ s b))
call_demo-IsBounded (fails i now error) s b = changed-IsBounded (has_id i) _ s b
call_demo-IsBounded (defers i not_before now) s b = changed-IsBounded (has_id i) _ s b
call_demo-IsBounded (caps_usage i not_before now) s b = changed-IsBounded (has_id i) _ s b
call_demo-IsBounded (retries i not_before now) s b = changed-IsBounded (has_id i) _ s b
call_demo-IsBounded (evicts stale) s b =
    (omega (arith, length-select _ s.tickets, b.0), omega (arith, length-select _ s.reviews, b.1))

history_keeps : (cs : List DemoCall) (s : DemoStore) → IsBounded s → IsBounded (history cs s)
history_keeps [] s b = b
history_keeps (c ∷ cs) s b = history_keeps cs (call_demo c s) (call_demo-IsBounded c s b)

-- After any history of calls the demo holds at most 200 tickets and 200 reviews.
pub history-IsBounded : (cs : List DemoCall) → IsBounded (history cs empty_store)
history-IsBounded cs = history_keeps cs empty_store (omega arith, omega arith)
