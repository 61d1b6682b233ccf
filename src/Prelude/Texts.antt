-- ===== src/Prelude/Texts.antt =====
-- Texts as lists of code points, with the operations of Python's `str` that the sources use.
use Prim.Native.Nat.{ℕ, zero, suc, ◌+◌, ◌/◌, ◌%◌, ◌≤◌, ◌<◌}
use Prim.Native.Char.{code}
use Prim.Native.String.{String}
use mathlib.Core.Path.{◌≡◌, refl, ap, ◌∙◌}
use mathlib.Core.Logic.{◌≢◌}
use mathlib.Core.Bool.{Bool, true, false, ◌&&◌, ◌||◌}
use mathlib.Core.Option.{Option, none, some}
use mathlib.Core.List.{List, [], ◌∷◌, ◌++◌}
use native.Mathlib.Omega.{arith}
use pr_review_bot.Prelude.Tests.{if◌then◌else◌, ltb, leb, ◌==◌}
use pr_review_bot.Prelude.Lists.{length, take, All, length-append}

abbrev pub Text : Type 0
Text = List ℕ

-- The code points of a literal.
abbrev pub codes : String → Text
codes String.[] = []
codes (String.◌∷◌ c s) = code c ∷ codes s

abbrev pub text_eq : Text → Text → Bool
text_eq [] [] = true
text_eq [] (y ∷ ys) = false
text_eq (x ∷ xs) [] = false
text_eq (x ∷ xs) (y ∷ ys) = x == y && text_eq xs ys

-- `s.startswith(p)`
abbrev pub has_prefix : Text → Text → Bool
has_prefix xs [] = true
has_prefix [] (p ∷ ps) = false
has_prefix (x ∷ xs) (p ∷ ps) = x == p && has_prefix xs ps

-- `s.endswith(p)`: some rest of the text is `p`.
abbrev pub ends_with : Text → Text → Bool
ends_with [] p = text_eq [] p
ends_with (x ∷ xs) p = text_eq (x ∷ xs) p || ends_with xs p

-- `s.rfind(p)`, with none for -1.
abbrev pub shifted : Bool → Option ℕ → Option ℕ
shifted b (some i) = some (suc i)
shifted true none = some 0
shifted false none = none

unfoldable pub rfind : Text → Text → Option ℕ
rfind [] p = if has_prefix [] p then some 0 else none
rfind (x ∷ xs) p = shifted (has_prefix (x ∷ xs) p) (rfind xs p)

-- `p in s`
unfoldable pub occurs : Text → Text → Bool
occurs p [] = has_prefix [] p
occurs p (x ∷ xs) = has_prefix (x ∷ xs) p || occurs p xs

-- `str.isspace` of one character.
abbrev between : ℕ → ℕ → ℕ → Bool
between a b c = leb a c && leb c b

unfoldable pub is_space : ℕ → Bool
is_space c =
    between 9 13 c
    || (between 28 32 c
        || (c == 133
            || (c == 160
                || (c == 5760
                    || (between 8192 8202 c
                        || (between 8232 8233 c || (c == 8239 || (c == 8287 || c == 12288))))))))

abbrev cons_stripped : ℕ → Text → Text
cons_stripped x (y ∷ ys) = x ∷ y ∷ ys
cons_stripped x [] = if is_space x then [] else x ∷ []

-- `s.rstrip()`
unfoldable pub rstrip : Text → Text
rstrip [] = []
rstrip (x ∷ xs) = cons_stripped x (rstrip xs)

pub text_eq_refl : (xs : Text) → text_eq xs xs ≡ true
text_eq_refl [] = refl
text_eq_refl (x ∷ xs) = ground (arith, text_eq_refl xs)

pub text_eq-eq : (xs ys : Text) → text_eq xs ys ≡ true → xs ≡ ys
text_eq-eq [] [] h = refl
text_eq-eq [] (y ∷ ys) h = cc
text_eq-eq (x ∷ xs) [] h = cc
text_eq-eq (x ∷ xs) (y ∷ ys) h = ground (arith, text_eq-eq xs ys)

pub ends_with_self : (xs : Text) → ends_with xs xs ≡ true
ends_with_self [] = refl
ends_with_self (x ∷ xs) = ground (arith, text_eq_refl (x ∷ xs))

pub ends_with-append : (xs p : Text) → ends_with (xs ++ p) p ≡ true
ends_with-append [] p = ends_with_self p
ends_with-append (x ∷ xs) p = ground (arith, ends_with-append xs p)

text_eq-length : (xs ys : Text) → length ys < length xs → text_eq xs ys ≡ false
text_eq-length [] ys h = absurd (omega arith)
text_eq-length (x ∷ xs) [] h = refl
text_eq-length (x ∷ xs) (y ∷ ys) h = ground (arith, text_eq-length xs ys)

-- Only the last part decides about an ending that is no longer than it.
pub ends_with-longer : (xs q p : Text) → length p ≤ length q → ends_with (xs ++ q) p ≡ ends_with q p
ends_with-longer [] q p h = refl
ends_with-longer (x ∷ xs) q p h = ground (
  arith,
  ends_with-longer xs q p h,
  text_eq-length (x ∷ (xs ++ q)) p (omega (arith, length-append xs q)),
)

-- The last occurrence lies in the last part where that has one.
pub rfind-append :
    (xs ys p : Text) (i : ℕ) → rfind ys p ≡ some i → rfind (xs ++ ys) p ≡ some (length xs + i)
unfolding rfind
rfind-append [] ys p i h = h ∙ ap some (omega arith)
rfind-append (x ∷ xs) ys p i h = ground (arith, rfind-append xs ys p i h)

pub take-append : (xs ys : Text) → take (length xs) (xs ++ ys) ≡ xs
take-append [] ys = refl
take-append (x ∷ xs) ys = ap (λ l. x ∷ l) (take-append xs ys)

-- A character outside the text's own begins no occurrence.
pub rfind-cons_none :
    (x c : ℕ) (xs p : Text) → x ≢ c → rfind xs (c ∷ p) ≡ none → rfind (x ∷ xs) (c ∷ p) ≡ none
unfolding rfind
rfind-cons_none x c xs p h e = ground arith

pub rfind-lacks :
    (xs ys p : Text) (c : ℕ)
    → All (λ x. x ≢ c) xs
    → rfind ys (c ∷ p) ≡ none
    → rfind (xs ++ ys) (c ∷ p) ≡ none
rfind-lacks [] ys p c a h = h
rfind-lacks (x ∷ xs) ys p c a h = rfind-cons_none x c (xs ++ ys) p a.0 (rfind-lacks xs ys p c a.1 h)

pub rstrip_idem : (xs : Text) → rstrip (rstrip xs) ≡ rstrip xs
unfolding rstrip
rstrip_idem [] = refl
rstrip_idem (x ∷ xs) = again x (rstrip xs) (rstrip_idem xs)
  where
    again : (x : ℕ) (ys : Text) → rstrip ys ≡ ys → rstrip (cons_stripped x ys) ≡ cons_stripped x ys
    again x (y ∷ ys) e = rw e refl
    again x [] e = ground arith

-- A text that ends with another character than a space is left alone.
pub rstrip_solid : (xs : Text) (c : ℕ) → is_space c ≡ false → rstrip (xs ++ c ∷ []) ≡ xs ++ c ∷ []
unfolding rstrip
rstrip_solid [] c h = ground arith
rstrip_solid (x ∷ []) c h = ground arith
rstrip_solid (x ∷ y ∷ xs) c h = rw (rstrip_solid (y ∷ xs) c h) refl

pub rstrip_blank : (xs : Text) (c : ℕ) → is_space c ≡ true → rstrip (xs ++ c ∷ []) ≡ rstrip xs
unfolding rstrip
rstrip_blank [] c h = ground arith
rstrip_blank (x ∷ xs) c h = ap (cons_stripped x) (rstrip_blank xs c h)

-- Decimal digits, as `str` writes a count.
abbrev pub digits_fuel : ℕ → ℕ → Text
digits_fuel zero n = (48 + n % 10) ∷ []
digits_fuel (suc f) n =
    let more = digits_fuel f (n / 10) ++ ((48 + n % 10) ∷ []) in
    if ltb n 10 then (48 + n % 10) ∷ [] else more

unfoldable pub decimal : ℕ → Text
decimal n = digits_fuel n n
