-- ===== src/Dispatcher/Swept.antt =====
-- The rows of the tickets table after a sweep of notices.
use mathlib.Core.Path.{subst}
use pr_review_bot.Prelude.{
  ℕ, ◌≡◌, refl, sym, ◌∙◌, ◌⊎◌, inl, inr, Bool, true, false, Option, none, some, List, [], ◌∷◌,
  arith, Option-cases, All, ◌==◌,
}
use pr_review_bot.Tickets.Rows.{Ticket, has_id}
use pr_review_bot.Tickets.{
  Table, update, get_ticket, mark_notice_posted, set_comment_id, clear_visible_review,
}
use pr_review_bot.Tickets.Claim.{notice_due}
use pr_review_bot.Tickets.Search.{get_ticket-update, get_ticket-id}
use pr_review_bot.Dispatcher.Step.{noted, comment_was_recreated}
use pr_review_bot.Dispatcher.Notices.{post_notice, post_all, post_notice_once}

-- The tickets of a sweep have different ids.
abbrev pub Apart : List Ticket → Type 0
Apart [] = Unit
Apart (t ∷ ts) = All (λ u. (u.id == t.id) ≡ false) ts × Apart ts

abbrev pub IsIn : Ticket → List Ticket → Type 0
IsIn t [] = ⊥
IsIn t (u ∷ us) = (u ≡ t) ⊎ IsIn t us

-- An UPDATE by another id.
updated_other :
    (f : Ticket → Ticket) (s : Table) (i j : ℕ)
    → ((t : Ticket) → (f t).id ≡ t.id)
    → (i == j) ≡ false
    → get_ticket (update (has_id i) f s) j ≡ get_ticket s j
updated_other f s i j h d = elim (Option-cases (get_ticket s j)) [
  | inl e ↦ get_ticket-update (has_id i) f s j h ∙ rw e refl
  | inr (t, e) ↦
      get_ticket-update (has_id i) f s j h ∙ rw e (ground (arith, get_ticket-id s j t e, d))
]

set_comment_id-other :
    (s : Table) (i j : ℕ) (c : Option ℕ)
    → (i == j) ≡ false
    → get_ticket (set_comment_id s i c) j ≡ get_ticket s j
unfolding set_comment_id
set_comment_id-other s i j none d = refl
set_comment_id-other s i j (some c) d = updated_other _ s i j (λ _. refl) d

noted_other :
    (i j : ℕ) (c : Option ℕ) (lost : Bool) (s : Table)
    → (i == j) ≡ false
    → get_ticket (noted i c lost s) j ≡ get_ticket s j
unfolding clear_visible_review
noted_other i j c true s d =
    updated_other _ (set_comment_id s i c) i j (λ _. refl) d ∙ set_comment_id-other s i j c d
noted_other i j c false s d = set_comment_id-other s i j c d

module _ (appended : ℕ → Option (Option ℕ)) where
  post_notice-other :
      (t : Ticket) (s : Table) (j : ℕ)
      → (t.id == j) ≡ false
      → get_ticket (post_notice appended t s).1 j ≡ get_ticket s j
  unfolding post_notice mark_notice_posted
  post_notice-other t s j d = elim (Option-cases (appended t.id)) [
    | inl e ↦ rw (post_notice, e) refl
    | inr (c, e) ↦
        rw (post_notice, e)
          (updated_other _ (noted t.id c (comment_was_recreated t c) s) t.id j (λ _. refl) d
            ∙ noted_other t.id j c (comment_was_recreated t c) s d)
  ]

  post_all-other :
      (ts : List Ticket) (s : Table) (j : ℕ)
      → All (λ u. (u.id == j) ≡ false) ts
      → get_ticket (post_all appended ts s).1 j ≡ get_ticket s j
  unfolding post_all
  post_all-other [] s j a = refl
  post_all-other (t ∷ ts) s j (d, a) =
      post_all-other ts (post_notice appended t s).1 j a ∙ post_notice-other t s j d

  -- The row after the sweep: its post raised and it is as before, or it needs no notice at any time.
  abbrev pub IsSettled : Ticket → Ticket → Table → Type 0
  IsSettled t row s =
      ((appended t.id ≡ none) × (get_ticket s t.id ≡ some row))
      ⊎ ((u : Ticket) × (get_ticket s t.id ≡ some u) × ((now : ℕ) → notice_due now u ≡ false))

  post_notice-IsSettled :
      (t row : Ticket) (s : Table)
      → get_ticket s t.id ≡ some row
      → row.not_before ≡ t.not_before
      → IsSettled t row (post_notice appended t s).1
  unfolding post_notice
  post_notice-IsSettled t row s e h = elim (Option-cases (appended t.id)) [
    | inl k ↦ inl (k, rw (post_notice, k) e)
    | inr (c, k) ↦ inr (post_notice_once appended t row s e h (rw (post_notice, k) refl))
  ]

  moved-IsSettled :
      (t row : Ticket) (s s' : Table)
      → get_ticket s' t.id ≡ get_ticket s t.id
      → IsSettled t row s
      → IsSettled t row s'
  moved-IsSettled t row s s' e (inl (a, b)) = inl (a, e ∙ b)
  moved-IsSettled t row s s' e (inr (u, a, b)) = inr (u, e ∙ a, b)

  apart_from :
      (t x : Ticket) (ts : List Ticket)
      → IsIn t ts
      → All (λ u. (u.id == x.id) ≡ false) ts
      → (x.id == t.id) ≡ false
  apart_from t x [] k a = absurd k
  apart_from t x (u ∷ us) (inl e) (d, a) = subst (λ y. (x.id == y.id) ≡ false) e (ground (arith, d))
  apart_from t x (u ∷ us) (inr k) (d, a) = apart_from t x us k a

  -- After a sweep over tickets with different ids, each of them whose row had the date that was read
  -- needs no further notice for it at any time, unless its post raised, and then its row is as before.
  -- The row of a ticket that is not in the sweep is as before.
  pub post_all_settles :
      (ts : List Ticket) (t row : Ticket) (s : Table) (j : ℕ)
      → Apart ts
      → IsIn t ts
      → get_ticket s t.id ≡ some row
      → row.not_before ≡ t.not_before
      → All (λ u. (u.id == j) ≡ false) ts
      → IsSettled t row (post_all appended ts s).1
        × (get_ticket (post_all appended ts s).1 j ≡ get_ticket s j)
  unfolding post_all
  post_all_settles ts t row s j a k e h d = (settles ts s a k e, post_all-other ts s j d)
    where
      settles :
          (ts : List Ticket) (s : Table)
          → Apart ts
          → IsIn t ts
          → get_ticket s t.id ≡ some row
          → IsSettled t row (post_all appended ts s).1
      settles [] s a k e = absurd k
      settles (x ∷ xs) s (d, a) (inl same) e =
          moved-IsSettled t row (post_notice appended x s).1 _
            (post_all-other xs (post_notice appended x s).1 t.id
              (subst (λ y. All (λ u. (u.id == y.id) ≡ false) xs) same d))
            (subst (λ y. IsSettled t row (post_notice appended y s).1) (sym same)
              (post_notice-IsSettled t row s e h))
      settles (x ∷ xs) s (d, a) (inr k) e =
          settles xs (post_notice appended x s).1 a k
            (post_notice-other x s t.id (apart_from t x xs k d) ∙ e)
