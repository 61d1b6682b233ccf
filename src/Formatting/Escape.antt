-- ===== src/Formatting/Escape.antt =====
-- A specialist's text in the cells of the tables.
use mathlib.Core.List.{append_assoc}
use pr_review_bot.Prelude.{
  ℕ, ◌+◌, ◌≡◌, ◌≢◌, refl, sym, ap, ◌∙◌, Bool, false, not, ◌&&◌, [], ◌∷◌, ◌++◌, arith, ◌==◌,
  if◌then◌else◌, if_cases, Text, codes, All,
}
use pr_review_bot.Formatting.{replace, escape_cell}

-- How often a character occurs.
unfoldable pub count : ℕ → Text → ℕ
count c [] = 0
count c (x ∷ xs) = (if x == c then 1 else 0) + count c xs

-- The pipes that no backslash precedes, which are those that separate cells. `escaped` says whether
-- the character before the text is a backslash.
unfoldable pub bare_pipes : (escaped : Bool) → Text → ℕ
bare_pipes escaped [] = 0
bare_pipes escaped (x ∷ xs) = (if x == 124 && not escaped then 1 else 0) + bare_pipes (x == 92) xs

pub count-append : (c : ℕ) (xs ys : Text) → count c (xs ++ ys) ≡ count c xs + count c ys
unfolding count
count-append c [] ys = omega arith
count-append c (x ∷ xs) ys = omega (arith, count-append c xs ys)

replace-append :
    (c : ℕ) (by xs ys : Text) → replace c by (xs ++ ys) ≡ replace c by xs ++ replace c by ys
unfolding replace
replace-append c by [] ys = refl
replace-append c by (x ∷ xs) ys =
    ap (λ l. (if x == c then by else x ∷ []) ++ l) (replace-append c by xs ys)
    ∙ sym (append_assoc (if x == c then by else x ∷ []) (replace c by xs) (replace c by ys))

count-replace : (c : ℕ) (by xs : Text) → count c by ≡ 0 → count c (replace c by xs) ≡ 0
unfolding count replace
count-replace c by [] h = refl
count-replace c by (x ∷ xs) h =
    count-append c (if x == c then by else x ∷ []) (replace c by xs)
    ∙ if_cases (λ l. count c l + count c (replace c by xs) ≡ 0) (x == c) by (x ∷ [])
        (λ e. omega (arith, h, count-replace c by xs h))
        (λ e. ground (arith, count-replace c by xs h))

-- No cell has a line break.
pub escape_cell-newlines : (t : Text) → count 10 (escape_cell t) ≡ 0
unfolding escape_cell count
escape_cell-newlines t =
    count-replace 10 (codes " ") (replace 96 (codes "'") (replace 124 (codes "\\|") t)) refl

abbrev escape_char : ℕ → Text
escape_char x =
    if x == 124
    then 92 ∷ 124 ∷ []
    else if x == 96
    then 39 ∷ []
    else if x == 10
    then 32 ∷ []
    else x ∷ []

escape_cell-cons : (x : ℕ) (xs : Text) → escape_cell (x ∷ xs) ≡ escape_char x ++ escape_cell xs
unfolding escape_cell replace
escape_cell-cons x xs = ground arith

pub bare_pipes-other :
    (b : Bool) (x : ℕ) (ys : Text) → x ≢ 124 → bare_pipes b (x ∷ ys) ≡ bare_pipes (x == 92) ys
unfolding bare_pipes
bare_pipes-other b x ys n = ground arith

bare_pipes-escaped : (b : Bool) (ys : Text) → bare_pipes b (92 ∷ 124 ∷ ys) ≡ bare_pipes false ys
unfolding bare_pipes
bare_pipes-escaped b ys = omega arith

escape_cell-nil : escape_cell [] ≡ []
unfolding escape_cell replace
escape_cell-nil = refl

-- Only the character after a cell's text counts.
pub bare_pipes-escape_cell :
    (t : Text) (b : Bool) (c : ℕ) (ys : Text)
    → c ≢ 124
    → bare_pipes b (escape_cell t ++ c ∷ ys) ≡ bare_pipes (c == 92) ys
bare_pipes-escape_cell [] b c ys n =
    ap (λ t. bare_pipes b (t ++ c ∷ ys)) escape_cell-nil ∙ bare_pipes-other b c ys n
bare_pipes-escape_cell (x ∷ xs) b c ys n =
    ap (λ t. bare_pipes b (t ++ c ∷ ys)) (escape_cell-cons x xs)
    ∙ if_cases (λ l. bare_pipes b ((l ++ escape_cell xs) ++ c ∷ ys) ≡ bare_pipes (c == 92) ys)
        (x == 124) (92 ∷ 124 ∷ [])
        (if x == 96 then 39 ∷ [] else if x == 10 then 32 ∷ [] else x ∷ [])
        (λ e.
          bare_pipes-escaped b (escape_cell xs ++ c ∷ ys) ∙ bare_pipes-escape_cell xs false c ys n)
        (λ e.
          if_cases (λ l. bare_pipes b ((l ++ escape_cell xs) ++ c ∷ ys) ≡ bare_pipes (c == 92) ys)
            (x == 96) (39 ∷ []) (if x == 10 then 32 ∷ [] else x ∷ [])
            (λ f.
              bare_pipes-other b 39 (escape_cell xs ++ c ∷ ys) (omega arith)
              ∙ bare_pipes-escape_cell xs false c ys n)
            (λ f.
              if_cases
                (λ l. bare_pipes b ((l ++ escape_cell xs) ++ c ∷ ys) ≡ bare_pipes (c == 92) ys)
                (x == 10) (32 ∷ []) (x ∷ [])
                (λ g.
                  bare_pipes-other b 32 (escape_cell xs ++ c ∷ ys) (omega arith)
                  ∙ bare_pipes-escape_cell xs false c ys n)
                (λ g.
                  bare_pipes-other b x (escape_cell xs ++ c ∷ ys) (ground arith)
                  ∙ bare_pipes-escape_cell xs (x == 92) c ys n)))

-- A text without pipes.
pub bare_pipes-plain :
    (t : Text) (b : Bool) (c : ℕ) (ys : Text)
    → All (λ x. x ≢ 124) t
    → c ≢ 124
    → bare_pipes b (t ++ c ∷ ys) ≡ bare_pipes (c == 92) ys
bare_pipes-plain [] b c ys a n = bare_pipes-other b c ys n
bare_pipes-plain (x ∷ xs) b c ys a n =
    bare_pipes-other b x (xs ++ c ∷ ys) a.0 ∙ bare_pipes-plain xs (x == 92) c ys a.1 n
