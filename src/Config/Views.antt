-- ===== src/Config/Views.antt =====
-- What the getters show, and the setters as updates of it.
use pr_review_bot.Prelude.{◌≡◌, refl, ap, String, Bool, Option, none, some, ℤ, ◌⊎◌, inl, inr}
use pr_review_bot.Cooldown.{CooldownCache}
use pr_review_bot.Tuning.{TuningCache}
use pr_review_bot.UsageCap.{UsageCapCache}
use pr_review_bot.Config.{
  ConfigTable, KeyColumn, gemini_column, groq_column, vertex_column, key_column, upsert, read,
  nonempty, get_provider_override, set_provider_override, get_cooldown_overrides,
  set_cooldown_override, index_of, with_index, get_key_index_override, set_key_index_override,
  get_dispatcher_tuning_config, set_dispatcher_tuning_config, get_idle_sleep_seconds,
  get_usage_cap_overrides, set_usage_cap_override, get_review_draft_override,
  set_review_draft_override,
}

-- Everything that the getters return, with the three indexes that get_key_index_override reads.
pub record View (F : Type 0) : Type 0 where
  pub active : Option String
  pub cooldown_view : CooldownCache F
  pub gemini_view : Option ℤ
  pub groq_view : Option ℤ
  pub vertex_view : Option ℤ
  pub tuning_view : TuningCache F × Option F
  pub idle_view : Option F
  pub caps_view : UsageCapCache
  pub draft_view : Option Bool

module _ {F : Type 0} where
  abbrev pub view : ConfigTable F → View F
  view t = record {
    active = get_provider_override t;
    cooldown_view = get_cooldown_overrides t;
    gemini_view = read none (index_of gemini_column) t;
    groq_view = read none (index_of groq_column) t;
    vertex_view = read none (index_of vertex_column) t;
    tuning_view = get_dispatcher_tuning_config t;
    idle_view = get_idle_sleep_seconds t;
    caps_view = get_usage_cap_overrides t;
    draft_view = get_review_draft_override t;
  }

  abbrev pub indexed : KeyColumn → Option ℤ → View F → View F
  indexed gemini_column i v = record v { gemini_view = i }
  indexed groq_column i v = record v { groq_view = i }
  indexed vertex_column i v = record v { vertex_view = i }

  abbrev pub index_view : KeyColumn → View F → Option ℤ
  index_view gemini_column v = v.gemini_view
  index_view groq_column v = v.groq_view
  index_view vertex_column v = v.vertex_view

  -- Each setter writes what its getter then reads and nothing that another getter reads, with or
  -- without a row before it; an empty provider reads as none.
  pub setters_lem :
      (t : ConfigTable F) (now : String) (p : Option String) (base cap factor idle : Option F)
      (values : TuningCache F) (tokens : Option ℤ) (reset : Option String) (draft : Option Bool)
      → (view (set_provider_override p now t) ≡ record (view t) { active = nonempty p })
        × (view (set_cooldown_override base cap factor now t) ≡ record (view t) {
          cooldown_view = record { base = base; cap = cap; factor = factor };
        })
        × (view (set_dispatcher_tuning_config values idle now t)
            ≡ record (view t) { tuning_view = (values, idle); idle_view = idle })
        × (view (set_usage_cap_override tokens reset now t)
            ≡ record (view t) { caps_view = record { tokens = tokens; reset = reset } })
        × (view (set_review_draft_override draft now t) ≡ record (view t) { draft_view = draft })
  unfolding set_provider_override get_provider_override set_cooldown_override get_cooldown_overrides
      set_dispatcher_tuning_config get_dispatcher_tuning_config get_idle_sleep_seconds
      set_usage_cap_override get_usage_cap_overrides set_review_draft_override
      get_review_draft_override
  setters_lem none now p base cap factor idle values tokens reset draft =
      (refl, refl, refl, refl, refl)
  setters_lem (some r) now p base cap factor idle values tokens reset draft =
      (refl, refl, refl, refl, refl)

  -- The index of a known provider is read back and no other value changes; for another provider both
  -- calls raise.
  pub set_key_index_override_lem :
      (t : ConfigTable F) (now p : String) (i : Option ℤ)
      → ((c : KeyColumn) × (t' : ConfigTable F) × (set_key_index_override p i now t ≡ some t')
          × (view t' ≡ indexed c i (view t))
          × (get_key_index_override p t' ≡ some i))
        ⊎ ((set_key_index_override p i now t ≡ none) × (get_key_index_override p t ≡ none))
  unfolding set_key_index_override get_key_index_override get_provider_override
      get_cooldown_overrides get_dispatcher_tuning_config get_idle_sleep_seconds
      get_usage_cap_overrides get_review_draft_override
  set_key_index_override_lem t now p i = by_column (key_column p) refl
    where
      written :
          (c : KeyColumn) (t : ConfigTable F)
          → view (upsert (with_index c i) now t) ≡ indexed c i (view t)
      written gemini_column none = refl
      written groq_column none = refl
      written vertex_column none = refl
      written gemini_column (some r) = refl
      written groq_column (some r) = refl
      written vertex_column (some r) = refl

      found :
          (c : KeyColumn) (t : ConfigTable F)
          → read none (index_of c) (upsert (with_index c i) now t) ≡ i
      found gemini_column none = refl
      found groq_column none = refl
      found vertex_column none = refl
      found gemini_column (some r) = refl
      found groq_column (some r) = refl
      found vertex_column (some r) = refl

      by_column :
          (o : Option KeyColumn)
          → key_column p ≡ o
          → ((c : KeyColumn) × (t' : ConfigTable F) × (set_key_index_override p i now t ≡ some t')
              × (view t' ≡ indexed c i (view t))
              × (get_key_index_override p t' ≡ some i))
            ⊎ ((set_key_index_override p i now t ≡ none) × (get_key_index_override p t ≡ none))
      by_column none e =
          inr (rw (e, set_key_index_override) refl, rw (e, get_key_index_override) refl)
      by_column (some c) e = inl (
        c,
        upsert (with_index c i) now t,
        rw (e, set_key_index_override) refl,
        written c t,
        rw (e, get_key_index_override) (ap some (found c t)),
      )
