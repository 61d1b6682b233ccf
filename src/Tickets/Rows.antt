-- ===== src/Tickets/Rows.antt =====
-- A row of the tickets table, and the SQL statements on a list of rows with their laws.
use pr_review_bot.Prelude.{
  ℕ, String, ◌≡◌, refl, Bool, true, false, ◌&&◌, Option, none, some, List, [], ◌∷◌, arith, ◌==◌,
  str_eq, if◌then◌else◌, if_cases, All, ◌++◌, eq_iff, ◌∙◌,
}
use mathlib.Core.Option
use mathlib.Core.Path.{subst, fun_ext}
use pr_review_bot.Status.{Status, Reason}

pub record Ticket : Type 0 where
  pub id : ℕ
  pub repo_full_name : String
  pub pr_number : ℕ
  pub head_sha : Option String
  pub status : Status
  pub provider : String
  pub not_before : Option ℕ
  pub attempts : ℕ
  pub comment_id : Option ℕ
  pub enqueued_at : ℕ
  pub updated_at : ℕ
  pub rereview_requested : ℕ
  pub last_reviewed_at : Option ℕ
  pub cooldown_level : ℕ
  pub notice_not_before : Option ℕ
  pub last_error : Option String
  pub defer_reason : Option Reason

-- `WHERE id = %s`
abbrev pub has_id : ℕ → Ticket → Bool
has_id ticket_id t = t.id == ticket_id

-- `WHERE repo_full_name = %s AND pr_number = %s`
abbrev pub has_key : String → ℕ → Ticket → Bool
has_key repo pr t = str_eq t.repo_full_name repo && t.pr_number == pr

-- `UPDATE tickets SET f WHERE p`
unfoldable pub update_where : (Ticket → Bool) → (Ticket → Ticket) → List Ticket → List Ticket
update_where p f [] = []
update_where p f (t ∷ ts) = (if p t then f t else t) ∷ update_where p f ts

-- `DELETE FROM tickets WHERE p`
unfoldable pub delete_where : (Ticket → Bool) → List Ticket → List Ticket
delete_where p [] = []
delete_where p (t ∷ ts) = let rest = delete_where p ts in if p t then rest else t ∷ rest

-- The first row that passes; the tests below pass one row at most.
unfoldable pub find_where : (Ticket → Bool) → List Ticket → Option Ticket
find_where p [] = none
find_where p (t ∷ ts) = if p t then some t else find_where p ts

-- An update that leaves the outcome of `q` alone commutes with a search by `q`.
pub find_where-update_where :
    (q p : Ticket → Bool) (f : Ticket → Ticket) (ts : List Ticket)
    → ((t : Ticket) → q (f t) ≡ q t)
    → find_where q (update_where p f ts)
      ≡ Option.map (λ t. if p t then f t else t) (find_where q ts)
unfolding find_where update_where
find_where-update_where q p f [] h = refl
find_where-update_where q p f (t ∷ ts) h = ground (arith, h t, find_where-update_where q p f ts h)

pub find_where-passes :
    (q : Ticket → Bool) (ts : List Ticket) (t : Ticket) → find_where q ts ≡ some t → q t ≡ true
unfolding find_where
find_where-passes q [] t h = ground arith
find_where-passes q (x ∷ ts) t h = ground (arith, find_where-passes q ts t)

pub All-update_where {ℓ} :
    (P : Ticket → Type ℓ) (p : Ticket → Bool) (f : Ticket → Ticket) (ts : List Ticket)
    → ((t : Ticket) → p t ≡ true → P t → P (f t))
    → All P ts
    → All P (update_where p f ts)
unfolding update_where
All-update_where P p f [] h a = tt
All-update_where P p f (t ∷ ts) h a =
    (if_cases P (p t) (f t) t (λ e. h t e a.0) (λ e. a.0), All-update_where P p f ts h a.1)

pub All-delete_where {ℓ} :
    (P : Ticket → Type ℓ) (p : Ticket → Bool) (ts : List Ticket)
    → All P ts
    → All P (delete_where p ts)
unfolding delete_where
All-delete_where P p [] a = tt
All-delete_where P p (t ∷ ts) a =
    if_cases (All P) (p t) _ _ (λ e. All-delete_where P p ts a.1)
      (λ e. (a.0, All-delete_where P p ts a.1))

pub All-append {ℓ} :
    (P : Ticket → Type ℓ) (ts us : List Ticket) → All P ts → All P us → All P (ts ++ us)
All-append P [] us a b = b
All-append P (t ∷ ts) us a b = (a.0, All-append P ts us a.1 b)

pub All-weaken {ℓ κ} :
    (P : Ticket → Type ℓ) (Q : Ticket → Type κ) (ts : List Ticket)
    → ((t : Ticket) → P t → Q t)
    → All P ts
    → All Q ts
All-weaken P Q [] h a = tt
All-weaken P Q (t ∷ ts) h a = (h t a.0, All-weaken P Q ts h a.1)

pub All-find_where {ℓ} :
    (P : Ticket → Type ℓ) (q : Ticket → Bool) (ts : List Ticket) (t : Ticket)
    → All P ts
    → find_where q ts ≡ some t
    → P t
unfolding find_where
All-find_where P q [] t a = λ e. cc
All-find_where P q (x ∷ ts) t a =
    if_cases (λ o. o ≡ some t → P t) (q x) (some x) (find_where q ts)
      (λ _ e. subst P (some_eq x t e) a.0) (λ _ e. All-find_where P q ts t a.1 e)
  where
    some_eq : (x t : Ticket) → some x ≡ some t → x ≡ t
    some_eq x t e = cc

-- No two rows agree under `same`: a UNIQUE constraint.
abbrev pub Unique : (Ticket → Ticket → Bool) → List Ticket → Type 0
Unique same [] = Unit
Unique same (t ∷ ts) = (find_where (same t) ts ≡ none) × Unique same ts

abbrev pub same_id : Ticket → Ticket → Bool
same_id t = has_id t.id

abbrev pub same_key : Ticket → Ticket → Bool
same_key t = has_key t.repo_full_name t.pr_number

pub same_key_symm : (t u : Ticket) → same_key t u ≡ same_key u t
same_key_symm t u =
    ground
      (arith, eq_iff t.repo_full_name u.repo_full_name, eq_iff u.repo_full_name t.repo_full_name)

module _ (same : Ticket → Ticket → Bool) where
  -- An update that leaves the compared columns alone keeps the constraint.
  pub Unique-update_where :
      (p : Ticket → Bool) (f : Ticket → Ticket) (ts : List Ticket)
      → ((t u : Ticket) → same (f t) u ≡ same t u)
      → ((t u : Ticket) → same u (f t) ≡ same u t)
      → Unique same ts
      → Unique same (update_where p f ts)
  unfolding update_where
  Unique-update_where p f [] hl hr u = tt
  Unique-update_where p f (t ∷ ts) hl hr u = (
    if_cases (λ x. find_where (same x) (update_where p f ts) ≡ none) (p t) (f t) t
        (λ _. rw (fun_ext (hl t)) kept) (λ _. kept),
    Unique-update_where p f ts hl hr u.1,
  )
    where
      kept : find_where (same t) (update_where p f ts) ≡ none
      kept = rw (find_where-update_where (same t) p f ts (λ x. hr x t), u.0)

  find_where-delete_where :
      (q p : Ticket → Bool) (ts : List Ticket)
      → find_where q ts ≡ none
      → find_where q (delete_where p ts) ≡ none
  unfolding find_where delete_where
  find_where-delete_where q p [] h = refl
  find_where-delete_where q p (t ∷ ts) h = ground (arith, find_where-delete_where q p ts)

  pub Unique-delete_where :
      (p : Ticket → Bool) (ts : List Ticket) → Unique same ts → Unique same (delete_where p ts)
  unfolding delete_where
  Unique-delete_where p [] u = tt
  Unique-delete_where p (t ∷ ts) u =
      if_cases (Unique same) (p t) _ _ (λ _. Unique-delete_where p ts u.1)
        (λ _. (find_where-delete_where (same t) p ts u.0, Unique-delete_where p ts u.1))

  find_where-append :
      (q : Ticket → Bool) (ts : List Ticket) (n : Ticket)
      → find_where q ts ≡ none
      → q n ≡ false
      → find_where q (ts ++ n ∷ []) ≡ none
  unfolding find_where
  find_where-append q [] n h k = rw k
  find_where-append q (t ∷ ts) n h k = ground (arith, find_where-append q ts n)

  -- A new last row that no row agrees with keeps the constraint.
  pub Unique-append :
      (ts : List Ticket) (n : Ticket)
      → ((t u : Ticket) → same t u ≡ same u t)
      → find_where (same n) ts ≡ none
      → Unique same ts
      → Unique same (ts ++ n ∷ [])
  unfolding find_where
  Unique-append [] n symm h u = (refl, tt)
  Unique-append (t ∷ ts) n symm h u = (
    find_where-append (same t) ts n u.0 (symm t n ∙ head_miss),
    Unique-append ts n symm tail_miss u.1,
  )
    where
      head_miss : same n t ≡ false
      head_miss = ground arith

      tail_miss : find_where (same n) ts ≡ none
      tail_miss = ground arith
