-- ===== src/Panel/SlotPatch.antt =====
-- `_apply_slot_config_patch` of dashboard/environment.py: the edit of one row of slot_config. An error
-- is what the response names; `raises` is the error of a write that raises.
use pr_review_bot.Prelude.{
  ◌≡◌, refl, ◌∙◌, String, true, false, ◌&&◌, Option, none, some, List, [], ◌∷◌, if◌then◌else◌,
  if_cases, str_eq, ℤ, is_some, is_none, ◌⊎◌, inl, inr, Bool-cases,
}
use pr_review_bot.Config.{KeyColumn, key_column, nonempty}
use pr_review_bot.Config.Slots.{SlotRow, SlotValues, get_slot_config, set_slot_config}
use pr_review_bot.Config.Keyed.{same_key, str_eq_refl, int_eq_refl, get_slot_config-set_slot_config}
use pr_review_bot.Panel.{given_or}
use pr_review_bot.Panel.Arming.{Resolution, ProbeResult, no_values, model_problems, slot_values}

pub record SlotConfigPatch : Type 0 where
  pub provider : String
  pub slot : ℤ
  pub model_field : Option (Option String)
  pub project_field : Option (Option String)
  pub location_field : Option (Option String)

abbrev pub merged_slot : SlotConfigPatch → SlotValues → SlotValues
merged_slot q existing = record {
  model = given_or q.model_field existing.model;
  vertex_gcp_project = given_or q.project_field existing.vertex_gcp_project;
  vertex_gcp_location = given_or q.location_field existing.vertex_gcp_location;
}

-- Only a vertex row has a project and a location.
abbrev pub kept_values : String → SlotValues → SlotValues
kept_values p v = if str_eq p "vertex" then v else record no_values { model = v.model }

module _ (vertex_info : ℤ → Resolution) (gemini_key : ℤ → Option String)
    (probe : KeyColumn → ℤ → SlotValues → ProbeResult) (raises : Option String) (now : String) where
  abbrev pub slot_written :
      SlotConfigPatch → SlotValues → List SlotRow → Option String → List SlotRow × Option String
  slot_written q v slots (some e) = (slots, some e)
  slot_written q v slots none =
      (set_slot_config q.provider q.slot (kept_values q.provider v) now slots, none)

  abbrev pub after_problems :
      SlotConfigPatch → SlotValues → List SlotRow → List String → List SlotRow × Option String
  after_problems q v slots [] = slot_written q v slots raises
  after_problems q v slots (e ∷ es) = (slots, some e)

  abbrev pub slot_checked :
      SlotConfigPatch → SlotValues → List SlotRow → Option String → List SlotRow × Option String
  slot_checked q v slots none = (slots, some "model_required")
  slot_checked q v slots (some model) =
      if str_eq q.provider "vertex" && is_none (nonempty v.vertex_gcp_location)
      then (slots, some "vertex_gcp_location_required")
      else after_problems q v slots
          (model_problems vertex_info gemini_key probe q.provider q.slot v)

  unfoldable pub apply_slot_config_patch :
      SlotConfigPatch → List SlotRow → List SlotRow × Option String
  apply_slot_config_patch q slots =
      let v = merged_slot q (slot_values q.provider q.slot slots) in
      if is_some (key_column q.provider)
      then slot_checked q v slots (nonempty v.model)
      else (slots, some "unknown_provider")

  -- Other providers are checked by the model alone.
  model_problems-no_values :
      (p : String) (i : ℤ) (v : SlotValues)
      → str_eq p "vertex" ≡ false
      → model_problems vertex_info gemini_key probe p i (record no_values { model = v.model })
        ≡ model_problems vertex_info gemini_key probe p i v
  unfolding model_problems
  model_problems-no_values p i v h = elim (Bool-cases (str_eq p "gemini")) [
    | inl g ↦ rw (model_problems, g) refl
    | inr g ↦ elim (Bool-cases (str_eq p "groq")) [
      | inl r ↦ rw (model_problems, g, r) refl
      | inr r ↦ rw (model_problems, g, r, h) refl
    ]
  ]

  model_problems-kept_values :
      (p : String) (i : ℤ) (v : SlotValues)
      → model_problems vertex_info gemini_key probe p i (kept_values p v)
        ≡ model_problems vertex_info gemini_key probe p i v
  model_problems-kept_values p i v =
      if_cases
        (λ w.
          model_problems vertex_info gemini_key probe p i w
          ≡ model_problems vertex_info gemini_key probe p i v)
        (str_eq p "vertex") _ _ (λ e. refl) (model_problems-no_values p i v)

  -- The rows as they were and an error, or a row without problems at the slot and another slot as it
  -- was.
  abbrev pub IsSaved :
      SlotConfigPatch → String → ℤ → List SlotRow → List SlotRow × Option String → Type 0
  IsSaved q p j slots r =
      ((r.0 ≡ slots) × (is_some r.1 ≡ true))
      ⊎ ((v : SlotValues) × (r.1 ≡ none)
          × (get_slot_config q.provider q.slot r.0 ≡ some v)
          × (model_problems vertex_info gemini_key probe q.provider q.slot v ≡ [])
          × (get_slot_config p j r.0 ≡ get_slot_config p j slots))

  slot_written-IsSaved :
      (q : SlotConfigPatch) (p : String) (j : ℤ) (v : SlotValues) (slots : List SlotRow)
      (o : Option String)
      → same_key q.provider q.slot p j ≡ false
      → model_problems vertex_info gemini_key probe q.provider q.slot v ≡ []
      → IsSaved q p j slots (slot_written q v slots o)
  slot_written-IsSaved q p j v slots (some e) h ok = inl (refl, refl)
  slot_written-IsSaved q p j v slots none h ok =
      let kept = kept_values q.provider v in
      inr (
        kept,
        refl,
        rw
            (
              get_slot_config-set_slot_config q.provider q.slot kept now q.provider q.slot slots,
              str_eq_refl q.provider,
              int_eq_refl q.slot,
            )
            refl,
        model_problems-kept_values q.provider q.slot v ∙ ok,
        rw (get_slot_config-set_slot_config q.provider q.slot kept now p j slots, h) refl,
      )

  after_problems-IsSaved :
      (q : SlotConfigPatch) (p : String) (j : ℤ) (v : SlotValues) (slots : List SlotRow)
      (ps : List String)
      → same_key q.provider q.slot p j ≡ false
      → model_problems vertex_info gemini_key probe q.provider q.slot v ≡ ps
      → IsSaved q p j slots (after_problems q v slots ps)
  after_problems-IsSaved q p j v slots [] h ok = slot_written-IsSaved q p j v slots raises h ok
  after_problems-IsSaved q p j v slots (e ∷ es) h ok = inl (refl, refl)

  slot_checked-IsSaved :
      (q : SlotConfigPatch) (p : String) (j : ℤ) (v : SlotValues) (slots : List SlotRow)
      (o : Option String)
      → same_key q.provider q.slot p j ≡ false
      → IsSaved q p j slots (slot_checked q v slots o)
  slot_checked-IsSaved q p j v slots none h = inl (refl, refl)
  slot_checked-IsSaved q p j v slots (some model) h =
      if_cases (IsSaved q p j slots)
        (str_eq q.provider "vertex" && is_none (nonempty v.vertex_gcp_location)) _ _
        (λ e. inl (refl, refl)) (λ e. after_problems-IsSaved q p j v slots _ h refl)

  -- The edit of a slot changes no row where it reports an error. Otherwise the slot has a row in which
  -- the check of models finds no problem, and another slot reads as before.
  pub apply_slot_config_patch-IsSaved :
      (q : SlotConfigPatch) (p : String) (j : ℤ) (slots : List SlotRow)
      → same_key q.provider q.slot p j ≡ false
      → IsSaved q p j slots (apply_slot_config_patch q slots)
  unfolding apply_slot_config_patch
  apply_slot_config_patch-IsSaved q p j slots h =
      if_cases (IsSaved q p j slots) (is_some (key_column q.provider)) _ _
        (λ e.
          slot_checked-IsSaved q p j (merged_slot q (slot_values q.provider q.slot slots)) slots _
            h)
        (λ e. inl (refl, refl))
