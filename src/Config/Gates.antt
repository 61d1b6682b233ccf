-- ===== src/Config/Gates.antt =====
-- `lifespan` of main.py up to the start of the dispatcher: the checks of the settings, the check of
-- the installation, the filling of the configuration, the checks of the database, the recovery of
-- interrupted tickets.
use pr_review_bot.Prelude.{
  ℕ, String, len, Bool, ◌||◌, Option, none, some, List, [], ◌∷◌, ◌++◌, if◌then◌else◌, ltb, str_eq,
  ℤ, pos,
}
use pr_review_bot.Number.{Number}
use pr_review_bot.Problem.{Problem}
use pr_review_bot.Cooldown.{cooldown_problems}
use pr_review_bot.Tuning.{tuning_problems}
use pr_review_bot.UsageCap.{ClockTime, cap_problems}
use pr_review_bot.Tickets.{Table}
use pr_review_bot.Tickets.Finish.{recover_on_startup}
use pr_review_bot.Config.{
  ConfigTable, get_provider_override, get_key_index_override, get_dispatcher_tuning_config,
  get_cooldown_overrides, get_usage_cap_overrides,
}
use pr_review_bot.Config.Slots.{SlotRow, SlotValues, get_slot_config}
use pr_review_bot.Config.Backfill.{backfill}

-- The settings that are checked; an unset one is empty.
pub record BootSettings : Type 0 where
  pub github_webhook_secret : String
  pub github_app_installation_id : String
  pub github_target_repo : String
  pub dashboard_username : String
  pub dashboard_password : String
  pub dashboard_session_secret : String

pub record Database (F : Type 0) : Type 0 where
  pub config : ConfigTable F
  pub slots : List SlotRow
  pub tickets : Table

-- Why the bot refuses to lifespan.
pub data Refusal : Type 0 where
  webhook_secret_unset : Refusal
  installation_id_unset : Refusal
  target_repo_unset : Refusal
  dashboard_credentials_unset : Refusal
  session_secret_too_short : Refusal
  installation_not_verified : Refusal
  provider_not_supported : Refusal
  slot_not_configured : Refusal
  config_not_usable : List Problem → Refusal

-- The end of the start: a refusal, or the installation's id and the database.
pub data Started (F : Type 0) : Type 0 where
  refused : Refusal → Database F → Started F
  running : String → Database F → Started F

abbrev pub is_unset : String → Bool
is_unset s = str_eq s ""

-- The checks before anything is called; none where all pass.
unfoldable pub settings_refusal : BootSettings → Option Refusal
settings_refusal s =
    if is_unset s.github_webhook_secret
    then some webhook_secret_unset
    else if is_unset s.github_app_installation_id
    then some installation_id_unset
    else if is_unset s.github_target_repo
    then some target_repo_unset
    else if is_unset s.dashboard_username
        || (is_unset s.dashboard_password || is_unset s.dashboard_session_secret)
    then some dashboard_credentials_unset
    else if ltb (len s.dashboard_session_secret) 32
    then some session_secret_too_short
    else none

-- `value or 0`
abbrev pub or_zero : Option ℤ → ℤ
or_zero none = pos 0
or_zero (some i) = i

module _ (N : Number) (from_iso : String → Option ClockTime) where
  unfoldable pub config_problems : ConfigTable N.F → List Problem
  config_problems t =
      tuning_problems N (get_dispatcher_tuning_config t).0
      ++ (cooldown_problems N (get_cooldown_overrides t)
          ++ cap_problems from_iso (get_usage_cap_overrides t))

  abbrev pub problems_gate : Database N.F → List Problem → Option Refusal
  problems_gate db [] = none
  problems_gate db (p ∷ ps) = some (config_not_usable (p ∷ ps))

  abbrev pub slot_gate : Database N.F → Option SlotValues → Option Refusal
  slot_gate db none = some slot_not_configured
  slot_gate db (some v) = problems_gate db (config_problems db.config)

  -- The checks of the database: a supported provider has a column for its index.
  abbrev pub index_gate : Database N.F → String → Option (Option ℤ) → Option Refusal
  index_gate db p none = some provider_not_supported
  index_gate db p (some i) = slot_gate db (get_slot_config p (or_zero i) db.slots)

  abbrev pub provider_gate : Database N.F → Option String → Option Refusal
  provider_gate db none = some provider_not_supported
  provider_gate db (some p) = index_gate db p (get_key_index_override p db.config)

  unfoldable pub database_refusal : Database N.F → Option Refusal
  unfolding config_problems
  database_refusal db = provider_gate db (get_provider_override db.config)

  -- `init_pool`, as far as the configuration goes.
  abbrev pub filled : String → Database N.F → Database N.F
  filled now db = record db { config = (backfill N now db.config).1 }

  abbrev pub after_pool : String → ℕ → Database N.F → Option Refusal → Started N.F
  after_pool id now db (some r) = refused r db
  after_pool id now db none = running id (record db { tickets = recover_on_startup db.tickets now })

  -- `verified` is what discover_and_verify_installation_id returns, or none where it raises; `now` is
  -- the instant, and `now_text` its text.
  unfoldable pub lifespan :
      BootSettings
      → (verified : Option String) → (now_text : String) (now : ℕ) → Database N.F
      → Started N.F
  unfolding settings_refusal database_refusal backfill
  lifespan s verified now_text now db = elim (settings_refusal s) [
    | some r ↦ refused r db
    | none ↦ elim verified [
      | none ↦ refused installation_not_verified db
      | some id ↦ after_pool id now (filled now_text db) (database_refusal (filled now_text db))
    ]
  ]
