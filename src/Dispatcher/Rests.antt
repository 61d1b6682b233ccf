-- ===== src/Dispatcher/Rests.antt =====
-- The operations on the tickets table and the running status.
use mathlib.Core.Path.{subst}
use pr_review_bot.Prelude.{
  ℕ, ◌≡◌, refl, Bool, true, false, Option, none, some, List, [], ◌∷◌, arith, inl, inr, Option-cases,
  Bool-cases, ◌==◌, String, if_cases,
}
use pr_review_bot.Status.{is_running, deferred, done}
use pr_review_bot.Tickets.Rows.{
  Ticket, find_where, find_where-passes, delete_where, has_id, Unique, same_id, All-find_where,
}
use pr_review_bot.Tickets.{
  Table, update, get_ticket, set_comment_id, mark_failed, defer_failed, defer_rate_limited,
  defer_usage_capped,
}
use pr_review_bot.Tickets.Finish.{
  discard_skipped_ticket, finalize_review, unreviewed, pushed, reviewed, requeued, reverted,
}
use pr_review_bot.Tickets.Invariant.{IsValid, IsSound}
use pr_review_bot.Tickets.Search.{
  get_ticket-update, get_ticket-id, find_where-none, find_where-pinned,
}

abbrev pub runs : Option Ticket → Bool
runs none = false
runs (some t) = is_running t.status

unfoldable pub still_running : Table → ℕ → Bool
still_running s i = runs (get_ticket s i)

pub update-rests :
    (f : Ticket → Ticket) (s : Table) (i : ℕ)
    → ((t : Ticket) → (f t).id ≡ t.id)
    → ((t : Ticket) → is_running (f t).status ≡ false)
    → still_running (update (has_id i) f s) i ≡ false
unfolding still_running
update-rests f s i h k = elim (Option-cases (get_ticket s i)) [
  | inl e ↦ rw (get_ticket-update (has_id i) f s i h, e) refl
  | inr (t, e) ↦
      rw (get_ticket-update (has_id i) f s i h, e) (ground (arith, get_ticket-id s i t e, k t))
]

pub update-same :
    (f : Ticket → Ticket) (s : Table) (i j : ℕ)
    → ((t : Ticket) → (f t).id ≡ t.id)
    → ((t : Ticket) → (f t).status ≡ t.status)
    → still_running (update (has_id j) f s) i ≡ still_running s i
unfolding still_running
update-same f s i j h k = elim (Option-cases (get_ticket s i)) [
  | inl e ↦ rw (get_ticket-update (has_id j) f s i h, e) refl
  | inr (t, e) ↦ rw (get_ticket-update (has_id j) f s i h, e) (ground (arith, k t))
]

pub set_comment_id-same :
    (s : Table) (i j : ℕ) (c : Option ℕ)
    → still_running (set_comment_id s j c) i ≡ still_running s i
unfolding set_comment_id
set_comment_id-same s i j none = refl
set_comment_id-same s i j (some c) = update-same _ s i j (λ _. refl) (λ _. refl)

delete_where-none :
    (q p : Ticket → Bool) (ts : List Ticket)
    → find_where q ts ≡ none
    → find_where q (delete_where p ts) ≡ none
unfolding find_where delete_where
delete_where-none q p [] h = h
delete_where-none q p (t ∷ ts) h = ground (arith, delete_where-none q p ts)

-- Where ids are unique, deleting the row of an id leaves no row of it.
delete_where-found :
    (p : Ticket → Bool) (i : ℕ) (ts : List Ticket) (t : Ticket)
    → Unique same_id ts
    → ((u : Ticket) → p u ≡ true → u.id ≡ i)
    → find_where p ts ≡ some t
    → find_where (has_id i) (delete_where p ts) ≡ none
unfolding find_where delete_where
delete_where-found p i [] t v h e = cc
delete_where-found p i (x ∷ ts) t v h e = elim (Bool-cases (p x)) [
  | inl k ↦
      rw k (
        delete_where-none (has_id i) p ts
          (subst (λ n. find_where (has_id n) ts ≡ none) (h x k) v.0))
  | inr k ↦ ground (
    arith,
    k,
    delete_where-found p i ts t v.1 h,
    find_where-passes p ts t,
    h t,
    find_where-none (same_id x) p ts t v.0,
  )
]

module _ (s : Table) (i now : ℕ) (v : IsValid s) where
  found_row : (t : Ticket) → get_ticket s i ≡ some t → find_where (has_id i) s.rows ≡ some t
  unfolding get_ticket
  found_row t e = e

  discarded_gone :
      (t : Ticket)
      → find_where (unreviewed i) s.rows ≡ some t
      → get_ticket (record s { rows = delete_where (unreviewed i) s.rows }) i ≡ none
  unfolding get_ticket
  discarded_gone t e =
      delete_where-found (unreviewed i) i s.rows t v.unique_id (λ u h. ground arith) e

  discarded_row :
      (t : Ticket)
      → get_ticket s i ≡ some t
      → runs (get_ticket (discard_skipped_ticket s i now) i) ≡ false
  unfolding discard_skipped_ticket
  discarded_row t e =
      let k = get_ticket-id s i t e in
      let sound = All-find_where IsSound (has_id i) s.rows t v.sound (found_row t e) in
      let first =
        find_where-pinned (unreviewed i) (has_id i) s.rows t v.unique_id (found_row t e)
          (λ u h. ground arith) in
      let second =
        find_where-pinned (pushed i) (has_id i) s.rows t v.unique_id (found_row t e)
          (λ u h. ground arith) in
      ground (
        arith,
        k,
        e,
        sound.flag,
        first,
        second,
        discarded_gone t,
        get_ticket-update (pushed i) (requeued now) s i (λ _. refl),
        get_ticket-update (reviewed i) (reverted now) s i (λ _. refl),
      )

  discarded_none :
      get_ticket s i ≡ none → runs (get_ticket (discard_skipped_ticket s i now) i) ≡ false
  unfolding discard_skipped_ticket
  discarded_none e = elim (Option-cases (find_where (unreviewed i) s.rows)) [
    | inr (t, h) ↦ rw (h, discarded_gone t h) refl
    | inl h ↦ ground (
      arith,
      h,
      e,
      get_ticket-update (pushed i) (requeued now) s i (λ _. refl),
      get_ticket-update (reviewed i) (reverted now) s i (λ _. refl),
    )
  ]

pub discard-rests :
    (s : Table) (i now : ℕ) → IsValid s → still_running (discard_skipped_ticket s i now) i ≡ false
unfolding still_running
discard-rests s i now v = elim (Option-cases (get_ticket s i)) [
  | inl e ↦ discarded_none s i now v e
  | inr (t, e) ↦ discarded_row s i now v t e
]

pub mark_failed-rests :
    (s : Table) (i now : ℕ) (error : Option String)
    → still_running (mark_failed s i now error) i ≡ false
unfolding mark_failed
mark_failed-rests s i now error = update-rests _ s i (λ _. refl) (λ _. refl)

pub defer_failed-rests :
    (s : Table) (i nb now : ℕ) → still_running (defer_failed s i nb now) i ≡ false
unfolding defer_failed
defer_failed-rests s i nb now = update-rests _ s i (λ _. refl) (λ _. refl)

pub defer_rate_limited-rests :
    (s : Table) (i nb now : ℕ) → still_running (defer_rate_limited s i nb now) i ≡ false
unfolding defer_rate_limited
defer_rate_limited-rests s i nb now = update-rests _ s i (λ _. refl) (λ _. refl)

pub defer_usage_capped-rests :
    (s : Table) (i nb now : ℕ) → still_running (defer_usage_capped s i nb now) i ≡ false
unfolding defer_usage_capped
defer_usage_capped-rests s i nb now = update-rests _ s i (λ _. refl) (λ _. refl)

pub finalize_review-rests :
    (s : Table) (i now nb level : ℕ) (c : Option ℕ)
    → still_running (finalize_review s i now nb level c) i ≡ false
unfolding finalize_review
finalize_review-rests s i now nb level c =
    update-rests _ s i (λ _. refl)
      (λ t.
        if_cases (λ x. is_running x ≡ false) (t.rereview_requested == 1) deferred done (λ _. refl)
          (λ _. refl))
