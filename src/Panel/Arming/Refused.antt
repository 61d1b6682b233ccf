-- ===== src/Panel/Arming/Refused.antt =====
-- Which requests leave the active provider as it is.
use pr_review_bot.UsageCap.{ClockTime}
use pr_review_bot.Prelude.{
  arith, ◌≡◌, refl, sym, ap, ◌∙◌, String, Bool, true, false, Option, none, some, List, [], ◌∷◌,
  if_cases, ℤ, is_some, inl, inr,
}
use mathlib.Core.Path.{subst}
use pr_review_bot.Number.{Number}
use pr_review_bot.Problem.{Problem}
use pr_review_bot.Tuning.{unset_tuning}
use pr_review_bot.Config.{
  ConfigTable, KeyColumn, gemini_column, groq_column, vertex_column, key_column,
  get_provider_override, get_all_key_index_overrides, set_key_index_override,
  get_cooldown_overrides, get_usage_cap_overrides, get_dispatcher_tuning_config,
}
use pr_review_bot.Config.Views.{View, view, indexed, setters_lem, set_key_index_override_lem}
use pr_review_bot.Config.Slots.{SlotRow, SlotValues}
use pr_review_bot.Panel.{
  FieldKey, field, index_field, ConfigPatch, Panel, written, checked, cooldown_keys,
  merged_cooldown, usage_keys, merged_caps, tuning_keys, merged_tuning, given_or, armed_provider,
  is_known, provider_stage, group, cooldown_stage, usage_stage, draft_stage, index_write,
  armed_index, index_round, index_stage, tuning_stage, apply_config_patch, is_slot,
}
use pr_review_bot.Panel.Arming.{
  Resolution, ProbeResult, model_problems, effective_index, is_named, slot_values, arming_problems,
}
use pr_review_bot.Panel.Arming.Probed.{arming_problems-provider}

module _ (N : Number) (from_iso : String → Option ClockTime)
    (raises arming : FieldKey → Option String) (now : String) where
  abbrev active_of : Panel N.F → Option String
  active_of s = (view s.config).active

  -- The active provider is as before.
  abbrev Same : Panel N.F → Panel N.F → Type 0
  Same s x = active_of x ≡ active_of s

  written-Same :
      (keys : List FieldKey) (r : Option String) (t : ConfigTable N.F) (s : Panel N.F)
      → (view t).active ≡ active_of s
      → Same s (written keys r t s)
  written-Same keys none t s h = h
  written-Same keys (some e) t s h = refl

  checked-Same :
      (keys : List FieldKey) (ps : List Problem) (r : Option String) (t : ConfigTable N.F)
      (s : Panel N.F)
      → (view t).active ≡ active_of s
      → Same s (checked keys ps r t s)
  checked-Same keys [] r t s h = written-Same keys r t s h
  checked-Same keys (p ∷ ps) r t s h = refl

  group-Same :
      (keys : List FieldKey) (go : FieldKey → Panel N.F) (s : Panel N.F)
      → ((k : FieldKey) → Same s (go k))
      → Same s (group N from_iso raises arming now keys go s)
  group-Same [] go s h = refl
  group-Same (k ∷ ks) go s h = h k

  cooldown_stage-Same :
      (q : ConfigPatch N.F) (s : Panel N.F)
      → Same s (cooldown_stage N from_iso raises arming now q s)
  unfolding cooldown_stage
  cooldown_stage-Same q s =
      let m = merged_cooldown q (get_cooldown_overrides s.config) in
      group-Same (cooldown_keys q) _ s (λ k. checked-Same (cooldown_keys q) _ (raises k) _ s (
        ap (λ v. v.active)
          (setters_lem s.config now none m.base m.cap m.factor none unset_tuning none none none).1))

  usage_stage-Same :
      (q : ConfigPatch N.F) (s : Panel N.F) → Same s (usage_stage N from_iso raises arming now q s)
  unfolding usage_stage
  usage_stage-Same q s =
      let m = merged_caps q (get_usage_cap_overrides s.config) in
      group-Same (usage_keys q) _ s (λ k. checked-Same (usage_keys q) _ (raises k) _ s (
        ap (λ v. v.active)
          (setters_lem s.config now none none none none none unset_tuning m.tokens m.reset none).3))

  draft_stage-Same :
      (f : Option (Option Bool)) (s : Panel N.F)
      → Same s (draft_stage N from_iso raises arming now f s)
  draft_stage-Same none s = refl
  draft_stage-Same (some v) s =
      written-Same (field "review_draft_prs" ∷ []) (raises (field "review_draft_prs")) _ s (
        ap (λ v. v.active)
          (setters_lem s.config now none none none none none unset_tuning none none v).4)

  tuning_stage-Same :
      (q : ConfigPatch N.F) (s : Panel N.F) → Same s (tuning_stage N from_iso raises arming now q s)
  unfolding tuning_stage
  tuning_stage-Same q s =
      let c = get_dispatcher_tuning_config s.config in
      group-Same (tuning_keys q) _ s (λ k. checked-Same (tuning_keys q) _ (raises k) _ s (
        ap (λ v. v.active)
          (setters_lem s.config now none none none none (given_or q.idle_field c.1)
            (merged_tuning q c.0) none none none).2))

  indexed-active : (c : KeyColumn) (i : Option ℤ) (v : View N.F) → (indexed c i v).active ≡ v.active
  indexed-active gemini_column i v = refl
  indexed-active groq_column i v = refl
  indexed-active vertex_column i v = refl

  index_write-Same :
      (p : String) (i : Option ℤ) (s : Panel N.F)
      → Same s
          (index_write N from_iso raises arming now p s (set_key_index_override p i now s.config))
  index_write-Same p i s = elim (set_key_index_override_lem s.config now p i) [
    | inl (c, t, e, shown, r) ↦
        subst (λ o. Same s (index_write N from_iso raises arming now p s o)) (sym e)
          (written-Same (index_field p ∷ []) (raises (index_field p)) t s
            (ap (λ v. v.active) shown ∙ indexed-active c i (view s.config)))
    | inr (e, r) ↦ subst (λ o. Same s (index_write N from_iso raises arming now p s o)) (sym e) refl
  ]

  index_round-Same :
      (p : String) (i : Option ℤ) (s : Panel N.F)
      → Same s (index_round N from_iso raises arming now p i s)
  index_round-Same p i s =
      if_cases (Same s) (is_some (key_column p)) _ _
        (λ e. if_cases (Same s) (is_slot i) _ _ (λ f. armed (arming (index_field p))) (λ f. refl))
        (λ e. refl)
    where
      armed : (o : Option String) → Same s (armed_index N from_iso raises arming now p i s o)
      armed (some e) = refl
      armed none = index_write-Same p i s

  index_stage-Same :
      (is : List (String × Option ℤ)) (s : Panel N.F)
      → Same s (index_stage N from_iso raises arming now is s)
  index_stage-Same [] s = refl
  index_stage-Same ((p, i) ∷ rest) s = index_stage-Same rest _ ∙ index_round-Same p i s

  provider_stage-Same :
      (f : Option (Option String)) (s : Panel N.F)
      → is_some (arming (field "provider")) ≡ true
      → Same s (provider_stage N from_iso raises arming now f s)
  provider_stage-Same none s h = refl
  provider_stage-Same (some p) s h =
      if_cases (Same s) (is_known N from_iso raises arming now p) _ _
        (λ e. armed (arming (field "provider")) h) (λ e. refl)
    where
      armed :
          (o : Option String)
          → is_some o ≡ true
          → Same s (armed_provider N from_iso raises arming now p s o)
      armed (some e) h = refl
      armed none h = absurd (ground (arith, h))

  apply_config_patch-Same :
      (q : ConfigPatch N.F) (t : ConfigTable N.F)
      → is_some (arming (field "provider")) ≡ true
      → get_provider_override (apply_config_patch N from_iso raises arming now q t).config
        ≡ get_provider_override t
  unfolding apply_config_patch
  apply_config_patch-Same q t h =
      tuning_stage-Same q _
      ∙ index_stage-Same q.index_fields _
      ∙ draft_stage-Same q.draft_field _
      ∙ usage_stage-Same q _
      ∙ cooldown_stage-Same q _
      ∙ provider_stage-Same q.provider_field (record { config = t; applied = []; failed = [] }) h

-- A request does not change the active provider to another one whose slot, at the index that the
-- request makes effective, has a problem, whatever else it sends.
pub apply_config_patch-refused :
    (N : Number) (from_iso : String → Option ClockTime) (raises : FieldKey → Option String)
    (now : String) (vertex_info : ℤ → Resolution) (gemini_key : ℤ → Option String)
    (probe : KeyColumn → ℤ → SlotValues → ProbeResult) (q : ConfigPatch N.F) (t : ConfigTable N.F)
    (slots : List SlotRow) (p : String) (i : ℤ) (e : String) (es : List String)
    → q.provider_field ≡ some (some p)
    → is_some (key_column p) ≡ true
    → is_named (get_provider_override t) p ≡ false
    → effective_index q.index_fields (get_all_key_index_overrides t) p ≡ i
    → model_problems vertex_info gemini_key probe p i (slot_values p i slots) ≡ e ∷ es
    → get_provider_override
        (apply_config_patch N from_iso raises
          (arming_problems vertex_info gemini_key probe q t slots)
          now
          q
          t).config
      ≡ get_provider_override t
apply_config_patch-refused N from_iso raises now vertex_info gemini_key probe q t slots p i e es h
      known other live bad =
    apply_config_patch-Same N from_iso raises
      (arming_problems vertex_info gemini_key probe q t slots) now q t
      (arming_problems-provider vertex_info gemini_key probe q t slots p i e es h known other live
        bad)
