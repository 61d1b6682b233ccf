-- ===== src/Tickets/Queueing.antt =====
-- Which ticket `claim_next_due` takes.
use pr_review_bot.Prelude.{
  ℕ, ◌≡◌, ◌≢◌, refl, Bool, true, false, not, ◌&&◌, ◌||◌, Option, none, some, List, [], ◌∷◌, arith,
  All, Option-cases, inl, inr, ◌==◌, if◌then◌else◌, ◌⊎◌, Bool-cases, if_cases,
}
use pr_review_bot.Tickets.Rows.{Ticket, has_id, find_where, Unique, same_id}
use pr_review_bot.Tickets.{Table, get_ticket, update}
use pr_review_bot.Tickets.Claim.{claim_next_due, claimed, oldest_due, is_due, comes_first}
use pr_review_bot.Tickets.Invariant.{IsValid, claim_next_due-IsValid}
use pr_review_bot.Tickets.Search.{get_ticket-update, get_ticket-id, find_where-none}

-- A row that the subquery may pick.
abbrev pub eligible : (ℕ → Bool) → ℕ → Ticket → Bool
eligible locked now t = is_due now t && not (locked t.id)

-- A row that is eligible comes after `t`.
abbrev pub yields_to : (ℕ → Bool) → ℕ → Ticket → Ticket → Bool
yields_to locked now t u = not (eligible locked now u) || comes_first t u

module _ (locked : ℕ → Bool) (now : ℕ) where
  comes_first_trans :
      (t u v : Ticket) → comes_first t u ≡ true → comes_first u v ≡ true → comes_first t v ≡ true
  comes_first_trans t u v h k = ground arith

  comes_first_total : (t u : Ticket) → comes_first t u ≡ false → comes_first u t ≡ true
  comes_first_total t u h = ground arith

  All-yields_trans :
      (t u : Ticket) (ts : List Ticket)
      → comes_first t u ≡ true
      → All (λ v. yields_to locked now u v ≡ true) ts
      → All (λ v. yields_to locked now t v ≡ true) ts
  All-yields_trans t u [] h a = tt
  All-yields_trans t u (v ∷ ts) h a = (yt v a.0, All-yields_trans t u ts h a.1)
    where
      yt : (v : Ticket) → yields_to locked now u v ≡ true → yields_to locked now t v ≡ true
      yt v k = elim (Bool-cases (eligible locked now v)) [
        | inl y ↦ rw y (comes_first_trans t u v h (rw y at k))
        | inr n ↦ rw n
      ]

  -- What the subquery finds: an eligible row with no eligible row before it.
  abbrev Oldest : List Ticket → Option Ticket → Type 0
  Oldest ts none = All (λ u. eligible locked now u ≡ false) ts
  Oldest ts (some t) =
      (eligible locked now t ≡ true) × All (λ u. yields_to locked now t u ≡ true) ts

  none_yields :
      (t : Ticket) (ts : List Ticket)
      → All (λ u. eligible locked now u ≡ false) ts
      → All (λ u. yields_to locked now t u ≡ true) ts
  none_yields t [] a = tt
  none_yields t (u ∷ ts) a = (rw a.0, none_yields t ts a.1)

  self_yields : (t : Ticket) → yields_to locked now t t ≡ true
  self_yields t = elim (Bool-cases (eligible locked now t)) [
    | inl y ↦ rw y (ground arith)
    | inr n ↦ rw n
  ]

  late_yields : (t u : Ticket) → comes_first t u ≡ false → yields_to locked now u t ≡ true
  late_yields t u h = elim (Bool-cases (eligible locked now t)) [
    | inl y ↦ rw y (comes_first_total t u h)
    | inr n ↦ rw n
  ]

  Oldest-step :
      (t : Ticket) (ts : List Ticket) (o : Option Ticket)
      → Oldest ts o
      → Oldest (t ∷ ts) (
          if eligible locked now t
          then elim o [ none ↦ some t | some u ↦ if comes_first t u then some t else some u ]
          else o)
  Oldest-step t ts none a =
      if_cases (Oldest (t ∷ ts)) (eligible locked now t) (some t) none
        (λ h. (h, (self_yields t, none_yields t ts a))) (λ h. (h, a))
  Oldest-step t ts (some u) a =
      if_cases (Oldest (t ∷ ts)) (eligible locked now t) _ (some u)
        (λ h.
          if_cases (Oldest (t ∷ ts)) (comes_first t u) (some t) (some u)
            (λ k. (h, (self_yields t, All-yields_trans t u ts k a.1)))
            (λ k. (a.0, (late_yields t u k, a.1))))
        (λ h. (a.0, (rw h, a.1)))

  oldest_due-Oldest : (ts : List Ticket) → Oldest ts (oldest_due locked now ts)
  unfolding oldest_due
  oldest_due-Oldest [] = tt
  oldest_due-Oldest (t ∷ ts) = Oldest-step t ts (oldest_due locked now ts) (oldest_due-Oldest ts)

  oldest_due-found :
      (ts : List Ticket) (t : Ticket)
      → Unique same_id ts
      → oldest_due locked now ts ≡ some t
      → find_where (has_id t.id) ts ≡ some t
  unfolding oldest_due find_where
  oldest_due-found [] t v e = cc
  oldest_due-found (x ∷ ts) t v e =
      ground
        (arith, oldest_due-found ts t v.1, find_where-none (has_id x.id) (has_id t.id) ts t v.0)

  get_oldest :
      (s : Table) (t : Ticket)
      → Unique same_id s.rows
      → oldest_due locked now s.rows ≡ some t
      → get_ticket s t.id ≡ some t
  unfolding get_ticket
  get_oldest s t v e = oldest_due-found s.rows t v e

  get_claimed :
      (s : Table) (t : Ticket) (i : ℕ)
      → get_ticket s t.id ≡ some t
      → get_ticket (update (has_id t.id) (claimed now) s) i
        ≡ (if t.id == i then some (claimed now t) else get_ticket s i)
  get_claimed s t i e =
      rw (get_ticket-update (has_id t.id) (claimed now) s i (λ _. refl))
        (elim (Option-cases (get_ticket s i)) [
          | inl n ↦ rw n (ground arith)
          | inr (u, h) ↦ rw h (ground (arith, get_ticket-id s i u h))
        ])

  -- The outcome `r` of a claim on `s`.
  abbrev pub Claims : Table → Option Ticket × Table → Type 0
  Claims s r =
      ((t : Ticket) × (get_ticket s t.id ≡ some t)
        × (eligible locked now t ≡ true)
        × All (λ u. yields_to locked now t u ≡ true) s.rows
        × (r.0 ≡ some (claimed now t))
        × ((i : ℕ)
            → get_ticket r.1 i ≡ (if t.id == i then some (claimed now t) else get_ticket s i)))
      ⊎ (All (λ u. eligible locked now u ≡ false) s.rows × (r ≡ (none, s)))

  -- A claim takes a row of the table that is due and not locked, such that no eligible row was
  -- enqueued before it; it returns that row as running, the table holds the row so, and every
  -- other row is as it was. Where nothing is returned no row was eligible and the table is the same.
  pub claim_next_due_lem : (s : Table) → IsValid s → Claims s (claim_next_due locked s now)
  unfolding claim_next_due
  claim_next_due_lem s v = go (oldest_due locked now s.rows) refl (oldest_due-Oldest s.rows)
    where
      go :
          (o : Option Ticket)
          → oldest_due locked now s.rows ≡ o
          → Oldest s.rows o
          → Claims s (claim_next_due locked s now)
      go none e a = inr (a, rw (e, claim_next_due))
      go (some t) e a =
          let found = get_oldest s t v.unique_id e in
          inl (
            t,
            found,
            a.0,
            a.1,
            rw (e, claim_next_due),
            λ i. rw (e, claim_next_due) (get_claimed s t i found),
          )

-- A ticket that was claimed is not claimed again while it runs: the next claim, at any time and
-- with any locks, takes another ticket.
pub claim_next_due-exclusive :
    (locked locked' : ℕ → Bool) (s : Table) (now later : ℕ) (t u : Ticket)
    → IsValid s
    → (claim_next_due locked s now).0 ≡ some t
    → (claim_next_due locked' (claim_next_due locked s now).1 later).0 ≡ some u
    → t.id ≢ u.id
claim_next_due-exclusive locked locked' s now later t u v p q =
    go (claim_next_due_lem locked now s v) (
      claim_next_due_lem locked' later (claim_next_due locked s now).1
        (claim_next_due-IsValid locked s now v))
  where
    go :
        Claims locked now s (claim_next_due locked s now)
        → Claims locked' later
            (claim_next_due locked s now).1
            (claim_next_due locked' (claim_next_due locked s now).1 later)
        → t.id ≡ u.id
        → ⊥
    go (inr a) b same = cc (p, a.1)
    go (inl a) (inr b) same = cc (q, b.1)
    go (inl (x, _, _, _, r, after)) (inl (y, found, ok, _, r', _)) same =
        ground (arith, p, q, r, r', after y.id, found, ok)
