-- ===== src/Config.antt =====
-- The runtime_config row and the slot_config table of review_queue/store.py: reading, writing and
-- the filling of missing columns at start-up. The key column of runtime_config admits one row, so
-- the table is an optional row; a NULL is `none`. A KeyError of the registry is `none` too.
pub mod Backfill
pub mod Boot
pub mod Filled
pub mod Fresh
pub mod Gates
pub mod Keyed
pub mod Slots
pub mod Views
mod Tests
use pr_review_bot.Prelude.{
  ℕ, String, Bool, true, false, Option, none, some, List, [], ◌∷◌, ◌++◌, map, if◌then◌else◌, str_eq,
  ℤ, or_else,
}
use pr_review_bot.Cooldown.{CooldownCache, unset_cooldown}
use pr_review_bot.Tuning.{TuningCache, unset_tuning}
use pr_review_bot.UsageCap.{UsageCapCache, unset_caps}

-- A row of runtime_config.
pub record RuntimeConfig (F : Type 0) : Type 0 where
  pub provider_column : Option String
  pub updated_at : String
  pub cooldown : CooldownCache F
  pub gemini_key_index : Option ℤ
  pub groq_key_index : Option ℤ
  pub vertex_key_index : Option ℤ
  pub caps : UsageCapCache
  pub review_draft_prs : Option Bool
  pub tuning : TuningCache F
  pub idle_sleep_seconds : Option F

abbrev pub ConfigTable : Type 0 → Type 0
ConfigTable F = Option (RuntimeConfig F)

-- `registry.KEY_INDEX_COLUMNS`
pub data KeyColumn : Type 0 where
  gemini_column : KeyColumn
  groq_column : KeyColumn
  vertex_column : KeyColumn

abbrev pub key_column : String → Option KeyColumn
key_column p =
    if str_eq p "gemini"
    then some gemini_column
    else if str_eq p "groq"
    then some groq_column
    else if str_eq p "vertex"
    then some vertex_column
    else none

-- `value or None` of a text.
abbrev pub nonempty : Option String → Option String
nonempty none = none
nonempty (some t) = if str_eq t "" then none else some t

-- The entries of the returned dict: the columns that are not NULL, with their providers.
abbrev entry : String → Option ℤ → List (String × ℤ)
entry p none = []
entry p (some i) = (p, i) ∷ []

module _ {F : Type 0} where
  -- A row in which only the key and the time are written.
  abbrev pub blank : String → RuntimeConfig F
  blank now = record {
    provider_column = none;
    updated_at = now;
    cooldown = unset_cooldown;
    gemini_key_index = none;
    groq_key_index = none;
    vertex_key_index = none;
    caps = unset_caps;
    review_draft_prs = none;
    tuning = unset_tuning;
    idle_sleep_seconds = none;
  }

  -- `INSERT ... ON CONFLICT (id) DO UPDATE SET`, with the columns that the statement sets.
  abbrev pub upsert : (RuntimeConfig F → RuntimeConfig F) → String → ConfigTable F → ConfigTable F
  upsert set now none = some (set (blank now))
  upsert set now (some row) = some (set (record row { updated_at = now }))

  -- The columns that are read, or what is returned where there is no row.
  abbrev pub read : {A : Type 0} → A → (RuntimeConfig F → A) → ConfigTable F → A
  read absent columns none = absent
  read absent columns (some row) = columns row

  unfoldable pub get_provider_override : ConfigTable F → Option String
  get_provider_override t = nonempty (read none (λ r. r.provider_column) t)

  unfoldable pub set_provider_override : Option String → String → ConfigTable F → ConfigTable F
  set_provider_override p now t = upsert (λ r. record r { provider_column = p }) now t

  unfoldable pub get_cooldown_overrides : ConfigTable F → CooldownCache F
  get_cooldown_overrides t = read unset_cooldown (λ r. r.cooldown) t

  unfoldable pub set_cooldown_override :
      (base cap factor : Option F) → String → ConfigTable F → ConfigTable F
  set_cooldown_override base cap factor now t =
      upsert (λ r. record r { cooldown = record { base = base; cap = cap; factor = factor } }) now t

  abbrev pub index_of : KeyColumn → RuntimeConfig F → Option ℤ
  index_of gemini_column r = r.gemini_key_index
  index_of groq_column r = r.groq_key_index
  index_of vertex_column r = r.vertex_key_index

  abbrev pub with_index : KeyColumn → Option ℤ → RuntimeConfig F → RuntimeConfig F
  with_index gemini_column i r = record r { gemini_key_index = i }
  with_index groq_column i r = record r { groq_key_index = i }
  with_index vertex_column i r = record r { vertex_key_index = i }

  unfoldable pub get_key_index_override : String → ConfigTable F → Option (Option ℤ)
  get_key_index_override p t = elim (key_column p) [
    | none ↦ none
    | some c ↦ some (read none (index_of c) t)
  ]

  unfoldable pub set_key_index_override :
      String → Option ℤ → String → ConfigTable F → Option (ConfigTable F)
  set_key_index_override p i now t = elim (key_column p) [
    | none ↦ none
    | some c ↦ some (upsert (with_index c i) now t)
  ]

  unfoldable pub get_all_key_index_overrides : ConfigTable F → List (String × ℤ)
  get_all_key_index_overrides t =
      read []
        (λ r.
          entry "gemini" r.gemini_key_index
          ++ (entry "groq" r.groq_key_index ++ entry "vertex" r.vertex_key_index))
        t

  -- The nine values, and the idle sleep.
  unfoldable pub get_dispatcher_tuning_config : ConfigTable F → TuningCache F × Option F
  get_dispatcher_tuning_config t =
      read (unset_tuning, none) (λ r. (r.tuning, r.idle_sleep_seconds)) t

  unfoldable pub set_dispatcher_tuning_config :
      TuningCache F → Option F → String → ConfigTable F → ConfigTable F
  set_dispatcher_tuning_config values idle now t =
      upsert (λ r. record r { tuning = values; idle_sleep_seconds = idle }) now t

  unfoldable pub get_idle_sleep_seconds : ConfigTable F → Option F
  get_idle_sleep_seconds t = read none (λ r. r.idle_sleep_seconds) t

  unfoldable pub get_usage_cap_overrides : ConfigTable F → UsageCapCache
  get_usage_cap_overrides t = read unset_caps (λ r. r.caps) t

  unfoldable pub set_usage_cap_override :
      Option ℤ → Option String → String → ConfigTable F → ConfigTable F
  set_usage_cap_override tokens reset now t =
      upsert (λ r. record r { caps = record { tokens = tokens; reset = reset } }) now t

  unfoldable pub get_review_draft_override : ConfigTable F → Option Bool
  get_review_draft_override t = read none (λ r. r.review_draft_prs) t

  unfoldable pub set_review_draft_override : Option Bool → String → ConfigTable F → ConfigTable F
  set_review_draft_override value now t = upsert (λ r. record r { review_draft_prs = value }) now t
