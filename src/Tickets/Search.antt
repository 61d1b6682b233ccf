-- ===== src/Tickets/Search.antt =====
-- Searching the table by id and by pull request, before and after an UPDATE.
use mathlib.Core.Option
use pr_review_bot.Prelude.{
  ℕ, String, ◌≡◌, Bool, true, false, none, some, List, [], ◌∷◌, arith, eq_iff, Option-cases, ◌∙◌,
  inl, inr, if◌then◌else◌,
}
use pr_review_bot.Tickets.Rows.{
  Ticket, find_where, has_id, has_key, Unique, same_id, find_where-update_where, find_where-passes,
}
use pr_review_bot.Tickets.{Table, update, lookup, get_ticket}

pub lookup-update :
    (p : Ticket → Bool) (f : Ticket → Ticket) (s : Table) (repo : String) (pr : ℕ)
    → ((t : Ticket) → has_key repo pr (f t) ≡ has_key repo pr t)
    → lookup (update p f s) repo pr ≡ Option.map (λ t. if p t then f t else t) (lookup s repo pr)
unfolding lookup
lookup-update p f s repo pr h = find_where-update_where (has_key repo pr) p f s.rows h

pub get_ticket-update :
    (p : Ticket → Bool) (f : Ticket → Ticket) (s : Table) (i : ℕ)
    → ((t : Ticket) → (f t).id ≡ t.id)
    → get_ticket (update p f s) i ≡ Option.map (λ t. if p t then f t else t) (get_ticket s i)
unfolding get_ticket
get_ticket-update p f s i h = find_where-update_where (has_id i) p f s.rows (λ t. rw (h t))

pub get_ticket-id : (s : Table) (i : ℕ) (t : Ticket) → get_ticket s i ≡ some t → t.id ≡ i
unfolding get_ticket
get_ticket-id s i t e = ground (arith, find_where-passes (has_id i) s.rows t e)

pub lookup-key :
    (s : Table) (repo : String) (pr : ℕ) (t : Ticket)
    → lookup s repo pr ≡ some t
    → (t.repo_full_name ≡ repo) × (t.pr_number ≡ pr)
unfolding lookup
lookup-key s repo pr t e =
    ground (arith, find_where-passes (has_key repo pr) s.rows t e, eq_iff t.repo_full_name repo)

pub find_where-none :
    (q r : Ticket → Bool) (ts : List Ticket) (u : Ticket)
    → find_where q ts ≡ none
    → find_where r ts ≡ some u
    → q u ≡ false
unfolding find_where
find_where-none q r [] u e h = cc
find_where-none q r (t ∷ ts) u e h = ground (arith, find_where-none q r ts u)

-- Ids are unique, so what two searches find under one id is one row.
pub find_where-same_id :
    (q r : Ticket → Bool) (ts : List Ticket) (t u : Ticket)
    → Unique same_id ts
    → find_where q ts ≡ some t
    → find_where r ts ≡ some u
    → t.id ≡ u.id
    → t ≡ u
unfolding find_where
find_where-same_id q r [] t u v e h k = cc
find_where-same_id q r (x ∷ ts) t u v e h k = ground (
  arith,
  find_where-same_id q r ts t u v.1,
  find_where-none (same_id x) r ts u v.0,
  find_where-none (same_id x) q ts t v.0,
)

-- A test that fixes the id finds the row of that id or nothing.
pub find_where-pinned :
    (q r : Ticket → Bool) (ts : List Ticket) (t : Ticket)
    → Unique same_id ts
    → find_where r ts ≡ some t
    → ((u : Ticket) → q u ≡ true → u.id ≡ t.id)
    → find_where q ts ≡ (if q t then some t else none)
find_where-pinned q r ts t v e h = elim (Option-cases (find_where q ts)) [
  | inl n ↦ rw (n, find_where-none q r ts t n e)
  | inr (u, f) ↦ ground (
    arith,
    f,
    find_where-passes q ts u f,
    find_where-same_id q r ts u t v f e (h u (find_where-passes q ts u f)),
  )
]

pub get_ticket-found :
    (q : Ticket → Bool) (s : Table) (t : Ticket)
    → Unique same_id s.rows
    → find_where q s.rows ≡ some t
    → get_ticket s t.id ≡ some t
unfolding get_ticket
get_ticket-found q s t v e =
    find_where-pinned (has_id t.id) q s.rows t v e (λ u k. ground arith) ∙ ground arith
