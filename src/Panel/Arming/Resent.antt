-- ===== src/Panel/Arming/Resent.antt =====
-- The probes of a request that sends what is stored.
use pr_review_bot.Prelude.{
  ◌≡◌, refl, ap, ◌∙◌, String, Option, none, some, List, [], ◌∷◌, if_cases, ℤ, is_some, All, ◌⊎◌,
  inl, inr,
}
use pr_review_bot.Config.{
  ConfigTable, KeyColumn, key_column, get_provider_override, get_all_key_index_overrides,
}
use pr_review_bot.Config.Slots.{SlotRow, SlotValues}
use pr_review_bot.Config.Keyed.{str_eq_refl, int_eq_refl}
use pr_review_bot.Panel.{FieldKey, ConfigPatch}
use pr_review_bot.Panel.Arming.{
  Resolution, ProbeResult, stored_index, effective_index, provider_changing, Targets, target_round,
  index_targets, provider_target, arming_probe_targets, arming_problems, probe_all,
}

-- The index that the request gives the provider of an entry is the stored one.
abbrev pub IsStored : List (String × Option ℤ) → List (String × ℤ) → String × Option ℤ → Type 0
IsStored submitted stored e = effective_index submitted stored e.0 ≡ stored_index e.0 stored

module _ (current changing : Option String) (submitted : List (String × Option ℤ))
    (stored : List (String × ℤ)) where
  target_round-stored :
      (index i : ℤ) (p : String) (acc : Targets)
      → index ≡ i
      → target_round current changing index i p acc ≡ acc
  target_round-stored index i p acc h =
      rw (h, int_eq_refl i)
        (if_cases (λ x. x ≡ acc) (is_some (key_column p)) acc acc (λ e. refl) (λ e. refl))

  index_targets-stored :
      (is : List (String × Option ℤ)) (acc : Targets)
      → All (IsStored submitted stored) is
      → index_targets current changing submitted stored is acc ≡ acc
  index_targets-stored [] acc h = refl
  index_targets-stored ((p, i) ∷ rest) acc (h, hs) =
      index_targets-stored rest _ hs ∙ target_round-stored _ _ p acc h

module _ (submitted : List (String × Option ℤ)) (stored : List (String × ℤ)) (acc : Targets) where
  provider_target_self :
      (current : Option String)
      → provider_target current (provider_changing (some current)) submitted stored acc ≡ acc
  provider_target_self none = refl
  provider_target_self (some c) =
      if_cases (λ x. provider_target (some c) x submitted stored acc ≡ acc) (is_some (key_column c))
        _ _ (λ e. rw (str_eq_refl c) refl) (λ e. refl)

  provider_target-current :
      (current : Option String) (f : Option (Option String))
      → (f ≡ none) ⊎ (f ≡ some current)
      → provider_target current (provider_changing f) submitted stored acc ≡ acc
  provider_target-current current f (inl h) = rw (h) refl
  provider_target-current current f (inr h) = rw (h) (provider_target_self current)

arming_probe_targets-stored :
    {F : Type 0} (q : ConfigPatch F) (t : ConfigTable F)
    → All (IsStored q.index_fields (get_all_key_index_overrides t)) q.index_fields
    → (q.provider_field ≡ none) ⊎ (q.provider_field ≡ some (get_provider_override t))
    → arming_probe_targets q t ≡ []
unfolding arming_probe_targets
arming_probe_targets-stored q t h g =
    let stored = get_all_key_index_overrides t in
    let current = get_provider_override t in
    if_cases (λ x. x ≡ []) _ _ _
      (λ e.
        provider_target-current q.index_fields stored _ current q.provider_field g
        ∙ index_targets-stored current (provider_changing q.provider_field) q.index_fields stored
            q.index_fields [] h)
      (λ e. refl)

-- A request that sends for each provider the slot that is stored, as the form does on every save, and
-- no provider or the stored one, probes nothing and so fails for no probe.
pub arming_problems-resent :
    {F : Type 0} (vertex_info : ℤ → Resolution) (gemini_key : ℤ → Option String)
    (probe : KeyColumn → ℤ → SlotValues → ProbeResult) (q : ConfigPatch F) (t : ConfigTable F)
    (slots : List SlotRow) (k : FieldKey)
    → All (IsStored q.index_fields (get_all_key_index_overrides t)) q.index_fields
    → (q.provider_field ≡ none) ⊎ (q.provider_field ≡ some (get_provider_override t))
    → (arming_probe_targets q t ≡ [])
      × (arming_problems vertex_info gemini_key probe q t slots k ≡ none)
unfolding arming_problems
arming_problems-resent vertex_info gemini_key probe q t slots k h g =
    let none_probed = arming_probe_targets-stored q t h g in
    (
      none_probed,
      ap (λ ts. probe_all vertex_info gemini_key probe slots ts (λ x. none) k) none_probed,
    )
