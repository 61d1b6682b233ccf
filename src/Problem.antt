-- ===== src/Problem.antt =====
-- What `problems` reports in review_queue/cooldown_config.py, dispatcher_tuning_config.py and
-- usage_cap_config.py, and the entry of their `_BOUNDS` tables that is checked for each key.
use pr_review_bot.Prelude.{
  String, ◌≡◌, refl, Bool, true, Option, none, some, List, [], ◌∷◌, ◌++◌, arith, if◌then◌else◌,
}

-- A reason why a configuration is unusable; the source renders it as a text.
pub data Problem : Type 0 where
  not_set : String → Problem
  out_of_range : String → Problem
  base_exceeds_max : Problem

-- One round of the loop over `_BOUNDS`. A missing key and a None value are reported alike.
abbrev pub check_bound {ℓ} : {A : Type ℓ} → String → (A → Bool) → Option A → List Problem
check_bound key predicate none = not_set key ∷ []
check_bound key predicate (some v) = if predicate v then [] else out_of_range key ∷ []

-- The test that follows the loop: both ends are present and the wrong way round.
abbrev pub check_order {ℓ} : {A : Type ℓ} → (A → A → Bool) → Option A → Option A → List Problem
check_order le none cap = []
check_order le (some b) none = []
check_order le (some b) (some c) = if le b c then [] else base_exceeds_max ∷ []

-- A check that finds nothing has seen a value that passes.
pub check_bound-eq-nil {ℓ} :
    {A : Type ℓ} (key : String) (predicate : A → Bool) (o : Option A)
    → check_bound key predicate o ≡ []
    → (v : A) × (o ≡ some v) × (predicate v ≡ true)
check_bound-eq-nil key predicate none h = ground arith
check_bound-eq-nil key predicate (some v) h = (v, refl, ground arith)

pub append-eq-nil {ℓ} : {A : Type ℓ} (xs ys : List A) → xs ++ ys ≡ [] → (xs ≡ []) × (ys ≡ [])
append-eq-nil [] ys h = (refl, h)
append-eq-nil (x ∷ xs) ys h = absurd (ground arith)
