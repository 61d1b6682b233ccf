-- ===== src/Panel/Arming/Probed.antt =====
-- The probe of a provider that a request makes active.
use pr_review_bot.Prelude.{
  arith, ◌≡◌, refl, sym, String, Bool, true, false, ◌&&◌, ◌||◌, Option, none, some, List, [], ◌∷◌,
  ◌++◌, if_cases, ℤ, is_some, ◌⊎◌, inl, inr, str_eq,
}
use pr_review_bot.Config.{
  ConfigTable, KeyColumn, key_column, get_provider_override, get_all_key_index_overrides,
}
use pr_review_bot.Config.Slots.{SlotRow, SlotValues, int_eq}
use pr_review_bot.Config.Keyed.{str_eq_refl, str_eq-eq, int_eq-eq, and_true}
use pr_review_bot.Panel.{FieldKey, field, index_field, ConfigPatch}
use pr_review_bot.Panel.Arming.{
  Resolution, ProbeResult, model_problems, effective_index, is_named, Targets, add_target,
  any_known, arming_probe_targets, key_eq, fail_all, failures_after, slot_values, probe_all,
  arming_problems,
}

abbrev Has : FieldKey → List FieldKey → Type 0
Has k [] = ⊥
Has k (f ∷ fs) = (f ≡ k) ⊎ Has k fs

-- A target of this provider and slot that was asked for by this key.
abbrev HasTarget : String → ℤ → FieldKey → Targets → Type 0
HasTarget p i k [] = ⊥
HasTarget p i k (((q, j), ks) ∷ rest) = ((q ≡ p) × (j ≡ i) × Has k ks) ⊎ HasTarget p i k rest

Has-append : (k : FieldKey) (ks : List FieldKey) → Has k (ks ++ (k ∷ []))
Has-append k [] = inl refl
Has-append k (f ∷ fs) = inr (Has-append k fs)

add_target-HasTarget :
    (p : String) (i : ℤ) (k : FieldKey) (ts : Targets) → HasTarget p i k (add_target p i k ts)
add_target-HasTarget p i k [] = inl (refl, refl, inl refl)
add_target-HasTarget p i k (((q, j), ks) ∷ rest) =
    if_cases (HasTarget p i k) (str_eq p q && int_eq i j) _ _
      (λ e.
        let (a, b) = and_true (str_eq p q) (int_eq i j) e in
        inl (sym (str_eq-eq p q a), sym (int_eq-eq i j b), Has-append k ks))
      (λ e. inr (add_target-HasTarget p i k rest))

key_eq_refl : (k : FieldKey) → key_eq k k ≡ true
key_eq_refl (field a) = str_eq_refl a
key_eq_refl (index_field a) = str_eq_refl a

-- The key has an error.
abbrev IsFailed : FieldKey → (FieldKey → Option String) → Type 0
IsFailed k failures = is_some (failures k) ≡ true

fail_all_keeps :
    (k : FieldKey) (fs : List FieldKey) (e : String) (failures : FieldKey → Option String)
    → IsFailed k failures
    → IsFailed k (fail_all fs e failures)
fail_all_keeps k [] e failures h = h
fail_all_keeps k (f ∷ fs) e failures h =
    fail_all_keeps k fs e _
      (if_cases (λ o. is_some o ≡ true) (key_eq f k) (some e) (failures k) (λ a. refl) (λ a. h))

fail_all-Has :
    (k : FieldKey) (fs : List FieldKey) (e : String) (failures : FieldKey → Option String)
    → Has k fs
    → IsFailed k (fail_all fs e failures)
fail_all-Has k [] e failures h = absurd h
fail_all-Has k (f ∷ fs) e failures (inl h) = fail_all_keeps k fs e _ (rw (h, key_eq_refl k) refl)
fail_all-Has k (f ∷ fs) e failures (inr h) = fail_all-Has k fs e _ h

failures_after_keeps :
    (k : FieldKey) (fs : List FieldKey) (es : List String) (failures : FieldKey → Option String)
    → IsFailed k failures
    → IsFailed k (failures_after fs es failures)
failures_after_keeps k fs [] failures h = h
failures_after_keeps k fs (e ∷ es) failures h = fail_all_keeps k fs e failures h

module _ (vertex_info : ℤ → Resolution) (gemini_key : ℤ → Option String)
    (probe : KeyColumn → ℤ → SlotValues → ProbeResult) (slots : List SlotRow) where
  probe_all_keeps :
      (k : FieldKey) (ts : Targets) (failures : FieldKey → Option String)
      → IsFailed k failures
      → IsFailed k (probe_all vertex_info gemini_key probe slots ts failures)
  probe_all_keeps k [] failures h = h
  probe_all_keeps k (((p, i), ks) ∷ rest) failures h =
      probe_all_keeps k rest _ (failures_after_keeps k ks _ failures h)

  probe_all-HasTarget :
      (p : String) (i : ℤ) (e : String) (es : List String) (k : FieldKey) (ts : Targets)
      (failures : FieldKey → Option String)
      → model_problems vertex_info gemini_key probe p i (slot_values p i slots) ≡ e ∷ es
      → HasTarget p i k ts
      → IsFailed k (probe_all vertex_info gemini_key probe slots ts failures)
  probe_all-HasTarget p i e es k [] failures h t = absurd t
  probe_all-HasTarget p i e es k (((q, j), ks) ∷ rest) failures h (inr t) =
      probe_all-HasTarget p i e es k rest _ h t
  probe_all-HasTarget p i e es k (((q, j), ks) ∷ rest) failures h (inl (a, b, t)) =
      probe_all_keeps k rest _ (rw (a, b, h) (fail_all-Has k ks e failures t))

or_true : (b : Bool) → ¬ ((b || true) ≡ false)
or_true true h = absurd (ground (arith, h))
or_true false h = absurd (ground (arith, h))

-- The target of a change of the provider.
provider_changed-HasTarget :
    {F : Type 0} (q : ConfigPatch F) (t : ConfigTable F) (p : String) (i : ℤ)
    → q.provider_field ≡ some (some p)
    → is_some (key_column p) ≡ true
    → is_named (get_provider_override t) p ≡ false
    → effective_index q.index_fields (get_all_key_index_overrides t) p ≡ i
    → HasTarget p i (field "provider") (arming_probe_targets q t)
unfolding arming_probe_targets
provider_changed-HasTarget q t p i h known other live =
    rw (h, known)
      (if_cases (HasTarget p i (field "provider")) (any_known q.index_fields || true) _ _
        (λ e. rw (other, live) (add_target-HasTarget p i (field "provider") _))
        (λ e. absurd (or_true (any_known q.index_fields) e)))

-- The provider field of a request to change to a known provider fails where the slot that the request
-- makes live has a problem.
pub arming_problems-provider :
    {F : Type 0} (vertex_info : ℤ → Resolution) (gemini_key : ℤ → Option String)
    (probe : KeyColumn → ℤ → SlotValues → ProbeResult) (q : ConfigPatch F) (t : ConfigTable F)
    (slots : List SlotRow) (p : String) (i : ℤ) (e : String) (es : List String)
    → q.provider_field ≡ some (some p)
    → is_some (key_column p) ≡ true
    → is_named (get_provider_override t) p ≡ false
    → effective_index q.index_fields (get_all_key_index_overrides t) p ≡ i
    → model_problems vertex_info gemini_key probe p i (slot_values p i slots) ≡ e ∷ es
    → is_some (arming_problems vertex_info gemini_key probe q t slots (field "provider")) ≡ true
unfolding arming_problems
arming_problems-provider vertex_info gemini_key probe q t slots p i e es h known other live bad =
    probe_all-HasTarget vertex_info gemini_key probe slots p i e es (field "provider")
      (arming_probe_targets q t) (λ k. none) bad
      (provider_changed-HasTarget q t p i h known other live)
