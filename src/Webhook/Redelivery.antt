-- ===== src/Webhook/Redelivery.antt =====
-- A delivery and its redelivery with other deliveries in between.
use pr_review_bot.Prelude.{
  ℕ, ◌+◌, ◌≤◌, ◌<◌, ◌≡◌, refl, sym, ap, ◌∙◌, inl, inr, String, Bool, true, false, some, none,
  Option, List, [], ◌∷◌, ◌++◌, arith, if_cases, Bool-cases, length, length-append, str_eq, eq_iff,
  All, ltb,
}
use mathlib.Core.Path.{subst}
use pr_review_bot.Number.{Number}
use pr_review_bot.Tickets.Invariant.{IsValid}
use pr_review_bot.Webhook.{
  Request, Settings, Hook, Reply, accepted, already_processed, contains, without, moved_to_end,
  drop_oldest, bounded, dedup_capacity, is_duplicate_delivery, mark_delivery_processed, Moment,
  marked, known, touched, webhook,
}
use pr_review_bot.Webhook.Cache.{IsCache}
use pr_review_bot.Webhook.Laws.{Delivered, webhook-Safe, accepted-seen, known_again}

-- The id is in the cache with at most n later ids.
abbrev pub Recent : String → ℕ → List String → Type 0
Recent d n seen =
    (xs : List String) × (ys : List String) × (seen ≡ xs ++ (d ∷ ys)) × (length ys ≤ n)

Recent-cons : (d x : String) (n : ℕ) (seen : List String) → Recent d n seen → Recent d n (x ∷ seen)
Recent-cons d x n seen (xs, ys, e, h) = (x ∷ xs, ys, ap (λ l. x ∷ l) e, h)

Recent-more : (d : String) (n : ℕ) (seen : List String) → Recent d n seen → Recent d (n + 1) seen
Recent-more d n seen (xs, ys, e, h) = (xs, ys, e, omega (arith, h))

append_snoc :
    (xs ys : List String) (d e : String)
    → (xs ++ (d ∷ ys)) ++ (e ∷ []) ≡ xs ++ (d ∷ (ys ++ (e ∷ [])))
append_snoc [] ys d e = refl
append_snoc (x ∷ xs) ys d e = ap (λ l. x ∷ l) (append_snoc xs ys d e)

Recent-snoc :
    (d e : String) (n : ℕ) (seen : List String)
    → Recent d n seen
    → Recent d (n + 1) (seen ++ (e ∷ []))
Recent-snoc d e n seen (xs, ys, h, k) = (
  xs,
  ys ++ (e ∷ []),
  ap (λ l. l ++ (e ∷ [])) h ∙ append_snoc xs ys d e,
  omega (arith, k, length-append ys (e ∷ [])),
)

contains-Recent : (xs ys : List String) (d : String) → contains (xs ++ (d ∷ ys)) d ≡ true
contains-Recent [] ys d = ground (arith, eq_iff d d)
contains-Recent (x ∷ xs) ys d = ground (arith, contains-Recent xs ys d)

length-without-le : (ys : List String) (e : String) → length (without ys e) ≤ length ys
length-without-le [] e = omega arith
length-without-le (y ∷ ys) e =
    if_cases (λ l. length l ≤ length (y ∷ ys)) (str_eq y e) _ _ (λ _. omega arith)
      (λ _. omega (arith, length-without-le ys e))

-- Removing another id.
Recent-without :
    (xs ys : List String) (d e : String) (n : ℕ)
    → str_eq d e ≡ false
    → length ys ≤ n
    → Recent d n (without (xs ++ (d ∷ ys)) e)
Recent-without [] ys d e n h k =
    if_cases (Recent d n) (str_eq d e) _ _ (λ a. absurd (ground (arith, a, h)))
      (λ _. ([], without ys e, refl, omega (arith, k, length-without-le ys e)))
Recent-without (x ∷ xs) ys d e n h k =
    if_cases (Recent d n) (str_eq x e) _ _ (λ _. (xs, ys, refl, k))
      (λ _. Recent-cons d x n _ (Recent-without xs ys d e n h k))

Recent-moved :
    (d e : String) (n : ℕ) (seen : List String)
    → Recent d n seen
    → Recent d (n + 1) (moved_to_end seen e)
Recent-moved d e n seen (xs, ys, h, k) = elim (Bool-cases (str_eq d e)) [
  | inl a ↦ (
    without seen e,
    [],
    ap (λ x. without seen e ++ (x ∷ [])) (sym ((eq_iff d e).0 a)),
    omega arith,
  )
  | inr a ↦
      Recent-snoc d e n (without seen e)
        (subst (λ l. Recent d n (without l e)) (sym h) (Recent-without xs ys d e n a k))
]

is_duplicate_delivery-Recent :
    (d e : String) (n : ℕ) (seen : List String)
    → Recent d n seen
    → Recent d (n + 1) (is_duplicate_delivery seen e).1
unfolding is_duplicate_delivery
is_duplicate_delivery-Recent d e n seen r =
    if_cases (λ (x : Bool × List String). Recent d (n + 1) x.1) (contains seen e) _ _
      (λ _. Recent-moved d e n seen r) (λ _. Recent-more d n seen r)

-- Dropping the oldest of more ids than follow.
drop_oldest-Recent :
    (d : String) (n : ℕ) (seen : List String)
    → Recent d n seen
    → n + 1 < length seen
    → Recent d n (drop_oldest seen)
drop_oldest-Recent d n seen ([], ys, h, k) g =
    absurd (omega (arith, k, g, ap (length {A = String}) h))
drop_oldest-Recent d n seen (x ∷ xs, ys, h, k) g = (xs, ys, ap drop_oldest h, k)

bounded-Recent :
    (d : String) (n : ℕ) (seen : List String)
    → n < dedup_capacity
    → Recent d n seen
    → Recent d n (bounded seen)
bounded-Recent d n seen h r =
    if_cases (Recent d n) (ltb dedup_capacity (length seen)) _ _
      (λ a. drop_oldest-Recent d n seen r (ground arith)) (λ _. r)

mark_delivery_processed-Recent :
    (d e : String) (n : ℕ) (seen : List String)
    → n + 1 < dedup_capacity
    → Recent d n seen
    → Recent d (n + 1) (mark_delivery_processed seen e)
unfolding mark_delivery_processed
mark_delivery_processed-Recent d e n seen h r = bounded-Recent d (n + 1) _ h (
    if_cases (Recent d (n + 1)) (contains seen e) _ _ (λ _. Recent-more d n seen r)
      (λ _. Recent-snoc d e n seen r))

marked_new :
    (d : String) (seen : List String)
    → contains seen d ≡ false
    → Recent d 0 (mark_delivery_processed seen d)
unfolding mark_delivery_processed
marked_new d seen h = bounded-Recent d 0 _ (omega arith) (
    if_cases (Recent d 0) (contains seen d) _ _ (λ a. absurd (ground (arith, a, h)))
      (λ _. (seen, [], refl, omega arith)))

module _ (N : Number) (c : Settings) where
  -- Deliveries one after the other.
  abbrev pub run_all : List (Moment N.F × Request) → Hook → Hook
  run_all [] h = h
  run_all ((m, r) ∷ rest) h = run_all rest (webhook N c m r h).1

  -- What other transactions commit inside an enqueue keeps the table well formed.
  abbrev pub KeepsTable : Moment N.F × Request → Type 0
  KeepsTable p = (u : _) → IsValid u → IsValid (p.0.between u)

  marked-Recent :
      (o : Option String) (h : Hook) (d : String) (n : ℕ)
      → n + 1 < dedup_capacity
      → Recent d n h.seen
      → Recent d (n + 1) (marked N c o h).seen
  marked-Recent none h d n k r = Recent-more d n h.seen r
  marked-Recent (some e) h d n k r = mark_delivery_processed-Recent d e n h.seen k r

  touched-Recent :
      (o : Option String) (h : Hook) (d : String) (n : ℕ)
      → Recent d n h.seen
      → Recent d (n + 1) (touched N c o h).seen
  touched-Recent none h d n r = Recent-more d n h.seen r
  touched-Recent (some e) h d n r = is_duplicate_delivery-Recent d e n h.seen r

  Delivered-Recent :
      (q : Request) (h : Hook) (x : Reply × Hook) (d : String) (n : ℕ)
      → Delivered N c q h x
      → n + 1 < dedup_capacity
      → Recent d n h.seen
      → Recent d (n + 1) x.1.seen
  Delivered-Recent q h x d n (inl (a, e)) k r =
      subst (λ (y : Reply × Hook). Recent d (n + 1) y.1.seen) (sym e) (Recent-more d n h.seen r)
  Delivered-Recent q h x d n (inr (inl (_, _, _, _, _, e))) k r =
      subst (Recent d (n + 1)) (sym e) (touched-Recent q.delivery h d n r)
  Delivered-Recent q h x d n (inr (inr (_, _, inl (_, _, e)))) k r =
      subst (Recent d (n + 1)) (sym e) (Recent-more d n h.seen r)
  Delivered-Recent q h x d n (inr (inr (_, _, inr (_, e)))) k r =
      subst (Recent d (n + 1)) (sym e) (marked-Recent q.delivery h d n k r)

  run_all-Recent :
      (ds : List (Moment N.F × Request)) (h : Hook) (d : String) (n : ℕ)
      → IsValid h.table
      → IsCache h.seen
      → All KeepsTable ds
      → n + length ds < dedup_capacity
      → Recent d n h.seen
      → Recent d (n + length ds) (run_all ds h).seen
  run_all-Recent [] h d n v k a g r = subst (λ x. Recent d x h.seen) (omega arith) r
  run_all-Recent ((m, q) ∷ ds) h d n v k (b, a) g r =
      let s = webhook-Safe N c m q h v (b h.table v) k in
      subst (λ x. Recent d x (run_all ds (webhook N c m q h).1).seen) (omega arith)
        (run_all-Recent ds (webhook N c m q h).1 d (n + 1) s.valid s.cache a (omega (arith, g))
          (Delivered-Recent q h (webhook N c m q h) d n s.ends (omega (arith, g)) r))

  -- A delivery that was accepted is not handled again: with any fewer than a thousand deliveries in
  -- between, its redelivery is answered as processed and leaves the tickets table as it is, where other
  -- transactions keep the table well formed.
  pub webhook-redelivery :
      (m later : Moment N.F) (r : Request) (ds : List (Moment N.F × Request)) (h : Hook)
      (d : String)
      → IsValid h.table
      → IsCache h.seen
      → All KeepsTable ((m, r) ∷ ds)
      → length ds < dedup_capacity
      → r.delivery ≡ some d
      → (webhook N c m r h).0 ≡ accepted
      → ((webhook N c later r (run_all ds (webhook N c m r h).1)).0 ≡ already_processed)
        × ((webhook N c later r (run_all ds (webhook N c m r h).1)).1.table
            ≡ (run_all ds (webhook N c m r h).1).table)
  webhook-redelivery m later r ds h d v k (b, a) g e f =
      let s = webhook-Safe N c m r h v (b h.table v) k in
      let (signed, new, seen) = accepted-seen N c r h (webhook N c m r h) s.ends f in
      let fresh : contains h.seen d ≡ false = ap (λ o. known N c o h) (sym e) ∙ new in
      let first : Recent d 0 (webhook N c m r h).1.seen =
        subst (Recent d 0) (sym (seen ∙ ap (λ o. (marked N c o h).seen) e))
          (marked_new d h.seen fresh) in
      let (xs, ys, at, _) =
        run_all-Recent ds (webhook N c m r h).1 d 0 s.valid s.cache a (omega (arith, g)) first in
      known_again N c later r (run_all ds (webhook N c m r h).1) d signed e
        (subst (λ l. contains l d ≡ true) (sym at) (contains-Recent xs ys d))
