-- ===== src/Number.antt =====
-- The numbers of the configuration and the clock. Durations, factors and prices are Python floats
-- in the source; here they are a type `F` with the operations that the code applies to them.
-- An instant is the number of microseconds since a fixed origin, the resolution of `datetime`.
pub mod Natural
use pr_review_bot.Prelude.{ℕ, zero, ◌≤◌, ◌≡◌, Bool, true, ◌⊎◌, Option, some}

-- `le` is `<=`; `pow x n` is `x ** n` at a natural exponent, none where it
-- raises OverflowError; `after t x` is `t + timedelta(seconds=x)` and `of_nat` the conversion of an
-- int, both inside the ranges of their types. The laws hold of floats other than NaN: the order is total, products
-- and powers of non-negative factors are monotone, and adding a longer delay gives a later instant.
pub record Number : Type 1 where
  pub F : Type 0
  pub le : F → F → Bool
  pub zero_f : F
  pub one_f : F
  pub of_nat : ℕ → F
  pub add : F → F → F
  pub mul : F → F → F
  pub pow : F → ℕ → Option F
  pub after : ℕ → F → ℕ
  pub le_refl : (x : F) → le x x ≡ true
  pub le_trans : (x y z : F) → le x y ≡ true → le y z ≡ true → le x z ≡ true
  pub le_total : (x y : F) → (le x y ≡ true) ⊎ (le y x ≡ true)
  pub mul_mono : (x y z : F) → le zero_f x ≡ true → le y z ≡ true → le (mul x y) (mul x z) ≡ true
  pub pow_mono :
      (x : F) (m n : ℕ) {a b : F}
      → le one_f x ≡ true
      → m ≤ n
      → pow x m ≡ some a
      → pow x n ≡ some b
      → le a b ≡ true
  pub pow_zero : (x : F) → pow x zero ≡ some one_f
  pub mul_one : (x : F) → mul x one_f ≡ x
  pub of_nat_one : of_nat 1 ≡ one_f
  pub of_nat_mono : (m n : ℕ) → m ≤ n → le (of_nat m) (of_nat n) ≡ true
  pub add_mono : (x y z : F) → le x y ≡ true → le (add x z) (add y z) ≡ true
  pub after_mono : (t : ℕ) (x y : F) → le x y ≡ true → after t x ≤ after t y
  pub after_zero : (t : ℕ) → after t zero_f ≡ t
  pub add_zero : (x : F) → add x zero_f ≡ x
  pub add_comm : (x y : F) → add x y ≡ add y x
