-- ===== src/Config/Keyed.antt =====
-- The slot_config table as a map from providers and slots.
use mathlib.Core.Bool.{true≢false}
use pr_review_bot.Prelude.{
  ◌≡◌, refl, sym, ap, ◌∙◌, String, Bool, true, false, ◌&&◌, Option, none, some, List, [], ◌∷◌,
  arith, if◌then◌else◌, if_cases, str_eq, eq_iff, ℤ, pos, negsuc, Bool-cases, inl, inr, or_else,
}
use pr_review_bot.Config.Slots.{
  SlotRow, SlotValues, int_eq, has_slot_key, values_of, get_slot_config, set_slot_config,
  delete_slot_config, get_all_slot_configs, IsKeyed,
}

pub int_eq-eq : (i j : ℤ) → int_eq i j ≡ true → i ≡ j
int_eq-eq (pos a) (pos b) h = ap pos (grind arith)
int_eq-eq (negsuc a) (negsuc b) h = ap negsuc (grind arith)
int_eq-eq (pos a) (negsuc b) h = absurd (ground arith)
int_eq-eq (negsuc a) (pos b) h = absurd (ground arith)

pub int_eq_refl : (i : ℤ) → int_eq i i ≡ true
int_eq_refl (pos a) = ground arith
int_eq_refl (negsuc a) = ground arith

pub str_eq-eq : (p q : String) → str_eq p q ≡ true → p ≡ q
str_eq-eq p q h = (eq_iff p q).0 h

pub str_eq_refl : (p : String) → str_eq p p ≡ true
str_eq_refl p = (eq_iff p p).1 refl

-- The keys of two calls are the same.
abbrev pub same_key : String → ℤ → String → ℤ → Bool
same_key p i q j = str_eq p q && int_eq i j

pub and_true : (a b : Bool) → (a && b) ≡ true → (a ≡ true) × (b ≡ true)
and_true true b h = (refl, h)
and_true false b h = absurd (ground arith)

-- A row of a key has the keys that equal it.
has_slot_key-same_key :
    (p : String) (i : ℤ) (q : String) (j : ℤ) (r : SlotRow)
    → has_slot_key p i r ≡ true
    → has_slot_key q j r ≡ same_key p i q j
has_slot_key-same_key p i q j r h =
    let (a, b) = and_true (str_eq r.provider p) (int_eq r.slot_index i) h in
    ap (λ s. str_eq s q && int_eq r.slot_index j) (str_eq-eq r.provider p a)
    ∙ ap (λ k. str_eq p q && int_eq k j) (int_eq-eq r.slot_index i b)

-- A row of one key has not another.
has_slot_key-other :
    (p : String) (i : ℤ) (q : String) (j : ℤ) (r : SlotRow)
    → has_slot_key p i r ≡ true
    → same_key p i q j ≡ false
    → has_slot_key q j r ≡ false
has_slot_key-other p i q j r h d = has_slot_key-same_key p i q j r h ∙ d

same_key-eq :
    (p : String) (i : ℤ) (q : String) (j : ℤ) (r : SlotRow)
    → same_key p i q j ≡ true
    → has_slot_key p i r ≡ has_slot_key q j r
same_key-eq p i q j r h =
    let (a, b) = and_true (str_eq p q) (int_eq i j) h in
    ap (λ s. str_eq r.provider s && int_eq r.slot_index i) (str_eq-eq p q a)
    ∙ ap (λ k. str_eq r.provider q && int_eq r.slot_index k) (int_eq-eq i j b)

get_slot_config-same_key :
    (p : String) (i : ℤ) (q : String) (j : ℤ) (rs : List SlotRow)
    → same_key p i q j ≡ true
    → get_slot_config p i rs ≡ get_slot_config q j rs
get_slot_config-same_key p i q j rs h =
    let (a, b) = and_true (str_eq p q) (int_eq i j) h in
    ap (λ s. get_slot_config s i rs) (str_eq-eq p q a)
    ∙ ap (λ k. get_slot_config q k rs) (int_eq-eq i j b)

if_again {ℓ} :
    {A : Type ℓ} (b : Bool) (x y z : A)
    → (if b then x else z) ≡ (if b then x else if b then y else z)
if_again true x y z = refl
if_again false x y z = refl

if_later {ℓ} :
    {A : Type ℓ} (s k : Bool) (x y z later : A)
    → (s ≡ true → k ≡ false)
    → later ≡ (if s then x else z)
    → (if k then y else later) ≡ (if s then x else if k then y else z)
if_later true true x y z later h e = absurd (ground (arith, h refl))
if_later true false x y z later h e = e
if_later false true x y z later h e = refl
if_later false false x y z later h e = e

or_else-none {ℓ} : {A : Type ℓ} (o : Option A) → or_else o none ≡ o
or_else-none none = refl
or_else-none (some a) = refl

pub get_slot_config-set_slot_config :
    (p : String) (i : ℤ) (v : SlotValues) (now q : String) (j : ℤ) (rs : List SlotRow)
    → get_slot_config q j (set_slot_config p i v now rs)
      ≡ (if same_key p i q j then some v else get_slot_config q j rs)
unfolding get_slot_config set_slot_config
get_slot_config-set_slot_config p i v now q j [] = refl
get_slot_config-set_slot_config p i v now q j (r ∷ rs) =
    if_cases
      (λ l.
        get_slot_config q j l ≡ (if same_key p i q j then some v else get_slot_config q j (r ∷ rs)))
      (has_slot_key p i r) _ _
      (λ h.
        rw (has_slot_key-same_key p i q j r h)
          (if_again (same_key p i q j) (some v) (some (values_of r)) (get_slot_config q j rs)))
      (λ h.
        if_later (same_key p i q j) (has_slot_key q j r) (some v) (some (values_of r))
          (get_slot_config q j rs) (get_slot_config q j (set_slot_config p i v now rs))
          (λ e. sym (same_key-eq p i q j r e) ∙ h)
          (get_slot_config-set_slot_config p i v now q j rs))

get_slot_config-delete_slot_config :
    (p : String) (i : ℤ) (q : String) (j : ℤ) (rs : List SlotRow)
    → get_slot_config q j (delete_slot_config p i rs)
      ≡ (if same_key p i q j then none else get_slot_config q j rs)
unfolding get_slot_config delete_slot_config
get_slot_config-delete_slot_config p i q j [] =
    if_cases (λ o. none ≡ o) (same_key p i q j) none none (λ e. refl) (λ e. refl)
get_slot_config-delete_slot_config p i q j (r ∷ rs) =
    if_cases
      (λ l.
        get_slot_config q j l ≡ (if same_key p i q j then none else get_slot_config q j (r ∷ rs)))
      (has_slot_key p i r) _ _
      (λ h. rw (has_slot_key-same_key p i q j r h) (
        get_slot_config-delete_slot_config p i q j rs
        ∙ if_again (same_key p i q j) none (some (values_of r)) (get_slot_config q j rs)))
      (λ h.
        if_later (same_key p i q j) (has_slot_key q j r) none (some (values_of r))
          (get_slot_config q j rs) (get_slot_config q j (delete_slot_config p i rs))
          (λ e. sym (same_key-eq p i q j r e) ∙ h) (get_slot_config-delete_slot_config p i q j rs))

-- The value that the last entry of a key has in a dict.
unfoldable pub entry_of : String → ℤ → List ((String × ℤ) × SlotValues) → Option SlotValues
entry_of q j [] = none
entry_of q j (((p, i), v) ∷ rest) =
    or_else (entry_of q j rest) (if same_key p i q j then some v else none)

get_slot_config_keyed :
    (p : String) (i : ℤ) (q : String) (j : ℤ) (rs : List SlotRow)
    → same_key p i q j ≡ true
    → get_slot_config p i rs ≡ none
    → get_slot_config q j rs ≡ none
get_slot_config_keyed p i q j rs h n = sym (get_slot_config-same_key p i q j rs h) ∙ n

-- The dict of all slots has for each slot what reading that slot gives.
pub entry_of-get_all_slot_configs :
    (q : String) (j : ℤ) (rs : List SlotRow)
    → IsKeyed rs
    → entry_of q j (get_all_slot_configs rs) ≡ get_slot_config q j rs
unfolding entry_of get_all_slot_configs get_slot_config
entry_of-get_all_slot_configs q j [] k = refl
entry_of-get_all_slot_configs q j (r ∷ rs) k = rw (entry_of-get_all_slot_configs q j rs k.1) (
    if_cases (λ o. or_else (get_slot_config q j rs) o ≡ get_slot_config q j (r ∷ rs))
      (same_key r.provider r.slot_index q j) (some (values_of r)) none
      (λ h. rw (get_slot_config_keyed r.provider r.slot_index q j rs h k.0, h) refl)
      (λ h. rw h (or_else-none (get_slot_config q j rs))))

has_slot_key_self : (r : SlotRow) → has_slot_key r.provider r.slot_index r ≡ true
has_slot_key_self r = rw (str_eq_refl r.provider, int_eq_refl r.slot_index) refl

not_same_key :
    (p : String) (i : ℤ) (r : SlotRow)
    → has_slot_key p i r ≡ false
    → same_key p i r.provider r.slot_index ≡ false
not_same_key p i r h = elim (Bool-cases (same_key p i r.provider r.slot_index)) [
  | inl e ↦ absurd (
      true≢false
        (sym (has_slot_key_self r) ∙ sym (same_key-eq p i r.provider r.slot_index r e) ∙ h))
  | inr e ↦ e
]

set_slot_config-IsKeyed :
    (p : String) (i : ℤ) (v : SlotValues) (now : String) (rs : List SlotRow)
    → IsKeyed rs
    → IsKeyed (set_slot_config p i v now rs)
unfolding set_slot_config get_slot_config
set_slot_config-IsKeyed p i v now [] k = (refl, tt)
set_slot_config-IsKeyed p i v now (r ∷ rs) k =
    if_cases IsKeyed (has_slot_key p i r) _ _ (λ h. k)
      (λ h. (
        get_slot_config-set_slot_config p i v now r.provider r.slot_index rs
            ∙ rw (not_same_key p i r h) k.0,
        set_slot_config-IsKeyed p i v now rs k.1,
      ))

delete_slot_config-IsKeyed :
    (p : String) (i : ℤ) (rs : List SlotRow) → IsKeyed rs → IsKeyed (delete_slot_config p i rs)
unfolding delete_slot_config
delete_slot_config-IsKeyed p i [] k = tt
delete_slot_config-IsKeyed p i (r ∷ rs) k =
    if_cases IsKeyed (has_slot_key p i r) _ _ (λ h. delete_slot_config-IsKeyed p i rs k.1)
      (λ h. (
        get_slot_config-delete_slot_config p i r.provider r.slot_index rs
            ∙ if_cases (λ o. o ≡ none) (same_key p i r.provider r.slot_index) none
                (get_slot_config r.provider r.slot_index rs) (λ e. refl) (λ e. k.0),
        delete_slot_config-IsKeyed p i rs k.1,
      ))

-- Setting a slot and deleting one keep the primary key, and each slot then reads as it was set, or
-- not at all where it was deleted, while every other slot reads as before.
pub slots_lem :
    (p : String) (i : ℤ) (v : SlotValues) (now q : String) (j : ℤ) (rs : List SlotRow)
    → IsKeyed rs
    → IsKeyed (set_slot_config p i v now rs)
      × IsKeyed (delete_slot_config p i rs)
      × (get_slot_config q j (set_slot_config p i v now rs)
          ≡ (if same_key p i q j then some v else get_slot_config q j rs))
      × (get_slot_config q j (delete_slot_config p i rs)
          ≡ (if same_key p i q j then none else get_slot_config q j rs))
slots_lem p i v now q j rs k = (
  set_slot_config-IsKeyed p i v now rs k,
  delete_slot_config-IsKeyed p i rs k,
  get_slot_config-set_slot_config p i v now q j rs,
  get_slot_config-delete_slot_config p i q j rs,
)
