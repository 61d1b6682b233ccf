-- ===== src/Number/Natural.antt =====
-- Whole seconds as an instance of the numbers, for tests: every law can be met.
use native.Mathlib.Nat.{pow-le-pow_right, pow-zero, add_comm}
use pr_review_bot.Prelude.{ℕ, ◌+◌, ◌*◌, ◌^◌, ◌≤◌, ◌≡◌, refl, ap, true, some, leb, arith, ◌⊎◌}
use pr_review_bot.Number.{Number}

pub le→leb : (a b : ℕ) → a ≤ b → leb a b ≡ true
le→leb a b h = ground arith

leb→le : (a b : ℕ) → leb a b ≡ true → a ≤ b
leb→le a b h = ground arith

pub mul_mono : (x y z : ℕ) → leb y z ≡ true → leb (x * y) (x * z) ≡ true
mul_mono x y z h = le→leb _ _ (mul_le x y z (leb→le y z h))
  where
    mul_le : (x y z : ℕ) → y ≤ z → x * y ≤ x * z
    mul_le x y z h = grind arith

pub pow_mono : (x m n : ℕ) → leb 1 x ≡ true → m ≤ n → leb (x ^ m) (x ^ n) ≡ true
pow_mono x m n h k = le→leb _ _ (pow-le-pow_right (leb→le 1 x h) k)

pub leb_refl : (x : ℕ) → leb x x ≡ true
leb_refl x = ground arith

pub leb_trans : (x y z : ℕ) → leb x y ≡ true → leb y z ≡ true → leb x z ≡ true
leb_trans x y z h k = ground arith

pub leb_total : (x y : ℕ) → (leb x y ≡ true) ⊎ (leb y x ≡ true)
leb_total x y = ground arith

pub mul_one : (x : ℕ) → x * 1 ≡ x
mul_one x = omega arith

pub add_zero : (x : ℕ) → x + 0 ≡ x
add_zero x = omega arith

pub add_mono : (x y z : ℕ) → leb x y ≡ true → leb (x + z) (y + z) ≡ true
add_mono x y z h = ground arith

pub after_mono : (t x y : ℕ) → leb x y ≡ true → t + x * 1000000 ≤ t + y * 1000000
after_mono t x y h = ground arith

pub after_zero : (t : ℕ) → t + 0 * 1000000 ≡ t
after_zero t = omega arith

pub powers :
    (x m n : ℕ) {a b : ℕ}
    → leb 1 x ≡ true
    → m ≤ n
    → some (x ^ m) ≡ some a
    → some (x ^ n) ≡ some b
    → leb a b ≡ true
powers x m n h k p q = cc (pow_mono x m n h k, p, q)

-- One second is a million microseconds.
abbrev pub natural : Number
natural = record {
  F = ℕ;
  le = leb;
  zero_f = 0;
  one_f = 1;
  of_nat = λ n. n;
  add = ◌+◌;
  mul = ◌*◌;
  pow = λ x n. some (x ^ n);
  after = λ t x. t + x * 1000000;
  le_refl = leb_refl;
  le_trans = leb_trans;
  le_total = leb_total;
  mul_mono = λ x y z _ h. mul_mono x y z h;
  pow_mono = λ x m n h k p q. powers x m n h k p q;
  pow_zero = λ x. ap some (pow-zero x);
  mul_one = mul_one;
  of_nat_one = refl;
  add_zero = add_zero;
  add_comm = add_comm;
  of_nat_mono = le→leb;
  add_mono = add_mono;
  after_mono = after_mono;
  after_zero = after_zero;
}
