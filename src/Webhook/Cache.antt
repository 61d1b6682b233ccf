-- ===== src/Webhook/Cache.antt =====
-- The shape of the cache of delivery ids.
use pr_review_bot.Prelude.{
  ℕ, ◌+◌, ◌≤◌, ◌≡◌, refl, String, Bool, true, false, ◌||◌, List, [], ◌∷◌, ◌++◌, arith, if_cases,
  ltb, length, length-append, str_eq, eq_iff, ◌∙◌,
}
use pr_review_bot.Webhook.{
  dedup_capacity, contains, without, is_duplicate_delivery, bounded, drop_oldest,
  mark_delivery_processed,
}

-- Distinct ids.
abbrev pub AllDistinct : List String → Type 0
AllDistinct [] = Unit
AllDistinct (x ∷ xs) = (contains xs x ≡ false) × AllDistinct xs

pub record IsCache (seen : List String) : Type 0 where
  pub distinct : AllDistinct seen
  pub small : length seen ≤ dedup_capacity

contains-append :
    (xs : List String) (d x : String) → contains (xs ++ (d ∷ [])) x ≡ (contains xs x || str_eq d x)
contains-append [] d x = ground arith
contains-append (y ∷ xs) d x = ground (arith, contains-append xs d x)

append-AllDistinct :
    (xs : List String) (d : String)
    → AllDistinct xs
    → contains xs d ≡ false
    → AllDistinct (xs ++ (d ∷ []))
append-AllDistinct [] d a h = (refl, tt)
append-AllDistinct (x ∷ xs) d a h = (
  ground (arith, contains-append xs d x, a.0, eq_iff x d, eq_iff d x),
  append-AllDistinct xs d a.1 (ground arith),
)

contains-without :
    (xs : List String) (d x : String) → contains xs x ≡ false → contains (without xs d) x ≡ false
contains-without [] d x h = h
contains-without (y ∷ xs) d x h = ground (arith, contains-without xs d x)

without-AllDistinct : (xs : List String) (d : String) → AllDistinct xs → AllDistinct (without xs d)
without-AllDistinct [] d a = a
without-AllDistinct (x ∷ xs) d a =
    if_cases AllDistinct (str_eq x d) _ _ (λ _. a.1)
      (λ _. (contains-without xs d x a.0, without-AllDistinct xs d a.1))

without_gone : (xs : List String) (d : String) → AllDistinct xs → contains (without xs d) d ≡ false
without_gone [] d a = refl
without_gone (x ∷ xs) d a = ground (arith, without_gone xs d a.1, a.0, eq_iff x d)

length-without :
    (xs : List String) (d : String) → contains xs d ≡ true → length (without xs d) + 1 ≡ length xs
length-without [] d h = ground arith
length-without (x ∷ xs) d h = ground (arith, length-without xs d)

pub is_duplicate_delivery-IsCache :
    (seen : List String) (d : String) → IsCache seen → IsCache (is_duplicate_delivery seen d).1
unfolding is_duplicate_delivery
is_duplicate_delivery-IsCache seen d k =
    if_cases (λ (r : Bool × List String). IsCache r.1) (contains seen d) _ _
      (λ h. record {
        distinct =
            append-AllDistinct (without seen d) d (without-AllDistinct seen d k.distinct)
              (without_gone seen d k.distinct);
        small =
            omega
              (arith, length-append (without seen d) (d ∷ []), length-without seen d h, k.small);
      })
      (λ _. k)

drop_oldest-AllDistinct : (xs : List String) → AllDistinct xs → AllDistinct (drop_oldest xs)
drop_oldest-AllDistinct [] a = a
drop_oldest-AllDistinct (x ∷ xs) a = a.1

length-drop_oldest : (xs : List String) (n : ℕ) → length xs ≤ n + 1 → length (drop_oldest xs) ≤ n
length-drop_oldest [] n h = omega arith
length-drop_oldest (x ∷ xs) n h = omega arith

bounded-IsCache :
    (xs : List String) → AllDistinct xs → length xs ≤ dedup_capacity + 1 → IsCache (bounded xs)
bounded-IsCache xs a h =
    if_cases IsCache (ltb dedup_capacity (length xs)) _ _
      (λ _. record {
        distinct = drop_oldest-AllDistinct xs a;
        small = length-drop_oldest xs dedup_capacity h;
      })
      (λ b. record { distinct = a; small = ground arith })

pub mark_delivery_processed-IsCache :
    (seen : List String) (d : String) → IsCache seen → IsCache (mark_delivery_processed seen d)
unfolding mark_delivery_processed
mark_delivery_processed-IsCache seen d k =
    if_cases (λ xs. IsCache (bounded xs)) (contains seen d) seen (seen ++ (d ∷ []))
      (λ _. bounded-IsCache seen k.distinct (omega (arith, k.small)))
      (λ h.
        bounded-IsCache _ (append-AllDistinct seen d k.distinct h)
          (omega (arith, length-append seen (d ∷ []), k.small)))

-- The id of a delivery that was just marked is in the cache.
pub contains-mark :
    (seen : List String) (d : String)
    → IsCache seen
    → contains (mark_delivery_processed seen d) d ≡ true
unfolding mark_delivery_processed
contains-mark seen d k =
    if_cases (λ xs. contains (bounded xs) d ≡ true) (contains seen d) seen (seen ++ (d ∷ []))
      (λ h.
        if_cases (λ xs. contains xs d ≡ true) (ltb dedup_capacity (length seen)) _ _
          (λ b. over seen b k.small) (λ _. h))
      (λ h.
        if_cases (λ xs. contains xs d ≡ true) (ltb dedup_capacity (length (seen ++ (d ∷ [])))) _ _
          (λ b. last_stays seen d (ground (arith, length-append seen (d ∷ []))))
          (λ _. contains-append seen d d ∙ ground (arith, eq_iff d d)))
  where
    over :
        (xs : List String)
        → ltb dedup_capacity (length xs) ≡ true
        → length xs ≤ dedup_capacity
        → contains (drop_oldest xs) d ≡ true
    over xs b h = ground arith

    last_stays :
        (xs : List String) (d : String)
        → 1 ≤ length xs
        → contains (drop_oldest (xs ++ (d ∷ []))) d ≡ true
    last_stays [] d h = ground arith
    last_stays (x ∷ xs) d h = contains-append xs d d ∙ ground (arith, eq_iff d d)
