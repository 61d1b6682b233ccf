-- ===== src/Panel/Kept.antt =====
-- The checked settings of the tuning, the cooldown and the usage cap under the requests to the panel.
use mathlib.Core.Path.{subst}
use pr_review_bot.Prelude.{
  ◌≡◌, refl, sym, String, Bool, Option, none, some, List, [], ◌∷◌, ◌++◌, if_cases, ℤ, is_some, inl,
  inr,
}
use pr_review_bot.Number.{Number}
use pr_review_bot.Problem.{Problem, append-eq-nil}
use pr_review_bot.Cooldown.{cooldown_problems}
use pr_review_bot.Tuning.{tuning_problems, unset_tuning}
use pr_review_bot.UsageCap.{ClockTime, cap_problems}
use pr_review_bot.Config.{
  ConfigTable, KeyColumn, gemini_column, groq_column, vertex_column, key_column,
  set_key_index_override, set_provider_override, set_cooldown_override, set_usage_cap_override,
  set_review_draft_override, set_dispatcher_tuning_config, get_cooldown_overrides,
  get_usage_cap_overrides, get_dispatcher_tuning_config,
}
use pr_review_bot.Config.Views.{View, view, indexed, setters_lem, set_key_index_override_lem}
use pr_review_bot.Config.Gates.{config_problems}
use pr_review_bot.Panel.{
  FieldKey, ConfigPatch, Panel, written, checked, cooldown_keys, merged_cooldown, usage_keys,
  merged_caps, tuning_keys, merged_tuning, given_or, armed_provider, is_known, provider_stage,
  group, cooldown_stage, usage_stage, draft_stage, index_write, armed_index, index_round,
  index_stage, idle_problems, tuning_stage, apply_config_patch, is_slot, field, index_field,
}

module _ (N : Number) (from_iso : String → Option ClockTime)
    (raises arming : FieldKey → Option String) (now : String) where
  -- What is read has no problem.
  abbrev IsFit : View N.F → Type 0
  IsFit v =
      (tuning_problems N v.tuning_view.0 ≡ [])
      × (cooldown_problems N v.cooldown_view ≡ [])
      × (cap_problems from_iso v.caps_view ≡ [])

  abbrev HasFit : Panel N.F → Type 0
  HasFit s = IsFit (view s.config)

  written-HasFit :
      (keys : List FieldKey) (r : Option String) (t : ConfigTable N.F) (s : Panel N.F)
      → IsFit (view t)
      → HasFit s
      → HasFit (written keys r t s)
  written-HasFit keys none t s ht hs = ht
  written-HasFit keys (some e) t s ht hs = hs

  checked-HasFit :
      (keys : List FieldKey) (ps : List Problem) (r : Option String) (t : ConfigTable N.F)
      (s : Panel N.F)
      → (ps ≡ [] → IsFit (view t))
      → HasFit s
      → HasFit (checked keys ps r t s)
  checked-HasFit keys [] r t s ht hs = written-HasFit keys r t s (ht refl) hs
  checked-HasFit keys (p ∷ ps) r t s ht hs = hs

  group-HasFit :
      (keys : List FieldKey) (go : FieldKey → Panel N.F) (s : Panel N.F)
      → ((k : FieldKey) → HasFit (go k))
      → HasFit s
      → HasFit (group N from_iso raises arming now keys go s)
  group-HasFit [] go s hg hs = hs
  group-HasFit (k ∷ ks) go s hg hs = hg k

  provider-IsFit :
      (p : Option String) (t : ConfigTable N.F)
      → IsFit (view t)
      → IsFit (view (set_provider_override p now t))
  provider-IsFit p t h =
      subst IsFit (sym (setters_lem t now p none none none none unset_tuning none none none).0) h

  draft-IsFit :
      (v : Option Bool) (t : ConfigTable N.F)
      → IsFit (view t)
      → IsFit (view (set_review_draft_override v now t))
  draft-IsFit v t h =
      subst IsFit (sym (setters_lem t now none none none none none unset_tuning none none v).4) h

  provider_stage-HasFit :
      (f : Option (Option String)) (s : Panel N.F)
      → HasFit s
      → HasFit (provider_stage N from_iso raises arming now f s)
  provider_stage-HasFit none s h = h
  provider_stage-HasFit (some p) s h =
      if_cases HasFit (is_known N from_iso raises arming now p) _ _
        (λ e. armed p (arming (field "provider"))) (λ e. h)
    where
      armed :
          (p : Option String) (o : Option String)
          → HasFit (armed_provider N from_iso raises arming now p s o)
      armed p (some e) = h
      armed p none =
          written-HasFit (field "provider" ∷ []) (raises (field "provider"))
            (set_provider_override p now s.config) s (provider-IsFit p s.config h) h

  cooldown_stage-HasFit :
      (q : ConfigPatch N.F) (s : Panel N.F)
      → HasFit s
      → HasFit (cooldown_stage N from_iso raises arming now q s)
  unfolding cooldown_stage
  cooldown_stage-HasFit q s h =
      let m = merged_cooldown q (get_cooldown_overrides s.config) in
      group-HasFit (cooldown_keys q) _ s
        (λ k.
          checked-HasFit (cooldown_keys q) (cooldown_problems N m) (raises k)
            (set_cooldown_override m.base m.cap m.factor now s.config) s
            (λ e.
              subst IsFit
                (sym
                  (setters_lem s.config now none m.base m.cap m.factor none unset_tuning none none
                    none).1)
                (h.0, e, h.2))
            h)
        h

  usage_stage-HasFit :
      (q : ConfigPatch N.F) (s : Panel N.F)
      → HasFit s
      → HasFit (usage_stage N from_iso raises arming now q s)
  unfolding usage_stage
  usage_stage-HasFit q s h =
      let m = merged_caps q (get_usage_cap_overrides s.config) in
      group-HasFit (usage_keys q) _ s
        (λ k.
          checked-HasFit (usage_keys q) (cap_problems from_iso m) (raises k)
            (set_usage_cap_override m.tokens m.reset now s.config) s
            (λ e.
              subst IsFit
                (sym
                  (setters_lem s.config now none none none none none unset_tuning m.tokens m.reset
                    none).3)
                (h.0, h.1, e))
            h)
        h

  tuning_stage-HasFit :
      (q : ConfigPatch N.F) (s : Panel N.F)
      → HasFit s
      → HasFit (tuning_stage N from_iso raises arming now q s)
  unfolding tuning_stage
  tuning_stage-HasFit q s h =
      let current = get_dispatcher_tuning_config s.config in
      let m = merged_tuning q current.0 in
      let idle = given_or q.idle_field current.1 in
      group-HasFit (tuning_keys q) _ s
        (λ k.
          checked-HasFit (tuning_keys q)
            (tuning_problems N m ++ idle_problems N from_iso raises arming now idle) (raises k)
            (set_dispatcher_tuning_config m idle now s.config) s
            (λ e.
              subst IsFit
                (sym (setters_lem s.config now none none none none idle m none none none).2)
                ((append-eq-nil (tuning_problems N m) _ e).0, h.1, h.2))
            h)
        h

  draft_stage-HasFit :
      (f : Option (Option Bool)) (s : Panel N.F)
      → HasFit s
      → HasFit (draft_stage N from_iso raises arming now f s)
  draft_stage-HasFit none s h = h
  draft_stage-HasFit (some v) s h =
      written-HasFit (field "review_draft_prs" ∷ []) (raises (field "review_draft_prs"))
        (set_review_draft_override v now s.config) s (draft-IsFit v s.config h) h

  indexed-IsFit : (c : KeyColumn) (i : Option ℤ) (v : View N.F) → IsFit v → IsFit (indexed c i v)
  indexed-IsFit gemini_column i v h = h
  indexed-IsFit groq_column i v h = h
  indexed-IsFit vertex_column i v h = h

  index_write-HasFit :
      (p : String) (i : Option ℤ) (s : Panel N.F)
      → HasFit s
      → HasFit
          (index_write N from_iso raises arming now p s (set_key_index_override p i now s.config))
  index_write-HasFit p i s h = elim (set_key_index_override_lem s.config now p i) [
    | inl (c, t, e, shown, r) ↦
        subst (λ o. HasFit (index_write N from_iso raises arming now p s o)) (sym e)
          (written-HasFit (index_field p ∷ []) (raises (index_field p)) t s
            (subst IsFit (sym shown) (indexed-IsFit c i (view s.config) h)) h)
    | inr (e, r) ↦ subst (λ o. HasFit (index_write N from_iso raises arming now p s o)) (sym e) h
  ]

  index_round-HasFit :
      (p : String) (i : Option ℤ) (s : Panel N.F)
      → HasFit s
      → HasFit (index_round N from_iso raises arming now p i s)
  index_round-HasFit p i s h =
      if_cases HasFit (is_some (key_column p)) _ _
        (λ e. if_cases HasFit (is_slot i) _ _ (λ f. armed (arming (index_field p))) (λ f. h))
        (λ e. h)
    where
      armed : (o : Option String) → HasFit (armed_index N from_iso raises arming now p i s o)
      armed (some e) = h
      armed none = index_write-HasFit p i s h

  index_stage-HasFit :
      (is : List (String × Option ℤ)) (s : Panel N.F)
      → HasFit s
      → HasFit (index_stage N from_iso raises arming now is s)
  index_stage-HasFit [] s h = h
  index_stage-HasFit ((p, i) ∷ rest) s h =
      index_stage-HasFit rest (index_round N from_iso raises arming now p i s)
        (index_round-HasFit p i s h)

  -- Where the checks of the tuning, the cooldown and the usage cap that the start makes find nothing,
  -- they find nothing after any request to the panel, whichever fields it sends, whatever they hold and
  -- whichever writes raise. The other checks of the start, of the provider and its slot, are not meant.
  pub apply_config_patch-keeps :
      (q : ConfigPatch N.F) (t : ConfigTable N.F)
      → config_problems N from_iso t ≡ []
      → config_problems N from_iso (apply_config_patch N from_iso raises arming now q t).config ≡ []
  unfolding apply_config_patch config_problems
  apply_config_patch-keeps q t h =
      let (h1, rest) = append-eq-nil (tuning_problems N (get_dispatcher_tuning_config t).0) _ h in
      let (h2, h3) = append-eq-nil (cooldown_problems N (get_cooldown_overrides t)) _ rest in
      let first : Panel N.F = record { config = t; applied = []; failed = [] } in
      let fit : HasFit (apply_config_patch N from_iso raises arming now q t) =
        tuning_stage-HasFit q _ (
          index_stage-HasFit q.index_fields _ (
            draft_stage-HasFit q.draft_field _ (
              usage_stage-HasFit q _ (
                cooldown_stage-HasFit q _
                  (provider_stage-HasFit q.provider_field first (h1, h2, h3)))))) in
      rw (fit.0, fit.1, fit.2) refl
