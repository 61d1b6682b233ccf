-- ===== src/Panel/Tests.antt =====
-- Requests to the panel over the default configuration, and the theorems at one of them.
use pr_review_bot.Prelude.{
  ℕ, ◌≡◌, refl, String, List, false, ℤ, inl, true, Option, none, some, [], ◌∷◌, pos, str_eq,
  if◌then◌else◌,
}
use pr_review_bot.Number.Natural.{natural}
use pr_review_bot.Problem.{base_exceeds_max}
use pr_review_bot.Config.{
  ConfigTable, KeyColumn, get_provider_override, get_all_key_index_overrides,
  get_dispatcher_tuning_config, set_key_index_override, set_review_draft_override,
  get_cooldown_overrides, set_provider_override, get_usage_cap_overrides,
}
use pr_review_bot.Tuning.{tuning_problems}
use pr_review_bot.Cooldown.{cooldown_problems}
use pr_review_bot.UsageCap.{ClockTime, naive, cap_problems}
use pr_review_bot.Config.Backfill.{declared_defaults}
use pr_review_bot.Config.Gates.{config_problems}
use pr_review_bot.Panel.{
  FieldKey, field, index_field, ConfigPatch, Panel, apply_config_patch, unusable, invalid_slot,
  unknown_provider,
}
use pr_review_bot.Panel.SlotPatch.{
  SlotConfigPatch, apply_slot_config_patch, IsSaved, apply_slot_config_patch-IsSaved,
}
use pr_review_bot.Panel.Kept.{apply_config_patch-keeps}
use pr_review_bot.Panel.Arming.{
  Resolution, present, ProbeResult, no_values, arming_probe_targets, arming_problems,
  model_problems,
}
use pr_review_bot.Panel.Arming.Resent.{arming_problems-resent}
use pr_review_bot.Panel.Arming.Refused.{apply_config_patch-refused}
use pr_review_bot.Config.Slots.{SlotRow, SlotValues, slot_row, get_slot_config, set_slot_config}

abbrev midnight : String → Option ClockTime
midnight s = if str_eq s "04:00:00" then some (naive 14400000000) else none

abbrev no_error : FieldKey → Option String
no_error k = none

abbrev default_config : ConfigTable ℕ
default_config = some (declared_defaults natural "u")

-- A base above the default maximum, a slot that there is not and a provider that there is not.
abbrev wrong_patch : ConfigPatch ℕ
wrong_patch = record {
  provider_field = some (some "groq");
  base_field = some (some 100000);
  max_field = none;
  factor_field = none;
  tokens_field = none;
  reset_field = none;
  draft_field = some (some true);
  index_fields = ("groq", some (pos 5)) ∷ ("openai", none) ∷ ("groq", some (pos 4)) ∷ [];
  timeout_field = some (some 60);
  default_retry_field = none;
  base_backoff_field = none;
  max_backoff_field = none;
  failure_attempts_field = none;
  notice_attempts_field = none;
  min_retry_field = none;
  jitter_field = none;
  batch_field = none;
  idle_field = none;
}

abbrev patched : Panel ℕ
unfolding apply_config_patch
patched = apply_config_patch natural midnight no_error no_error "t" wrong_patch default_config

patched-reports :
    (patched.applied
      ≡ field "provider"
        ∷ field "review_draft_prs"
        ∷ index_field "groq"
        ∷ field "llm_request_timeout_seconds"
        ∷ [])
    × (patched.failed
        ≡ (field "cooldown_base_seconds", unusable (base_exceeds_max ∷ []))
          ∷ (index_field "groq", invalid_slot)
          ∷ (index_field "openai", unknown_provider)
          ∷ [])
unfolding apply_config_patch tuning_problems get_dispatcher_tuning_config set_key_index_override
    set_review_draft_override cooldown_problems get_cooldown_overrides set_provider_override
patched-reports = (refl, refl)

apply_config_patch-keeps_example :
    config_problems natural midnight
      (apply_config_patch natural midnight no_error no_error "t" wrong_patch default_config).config
    ≡ []
unfolding config_problems tuning_problems get_dispatcher_tuning_config cooldown_problems
    get_cooldown_overrides cap_problems get_usage_cap_overrides
apply_config_patch-keeps_example =
    apply_config_patch-keeps natural midnight no_error no_error "t" wrong_patch default_config refl

-- A change to slot 1 of gemini, which has a model that cannot be called.
abbrev gemini_patch : ConfigPatch ℕ
gemini_patch = record wrong_patch {
  provider_field = some (some "gemini");
  index_fields = ("gemini", some (pos 1)) ∷ [];
}

abbrev gemini_slots : List SlotRow
gemini_slots = slot_row "gemini" (pos 1) (record no_values { model = some "m" }) "t" ∷ []

abbrev a_resolution : ℤ → Resolution
a_resolution i = present

abbrev a_key : ℤ → Option String
a_key i = some "k"

abbrev not_callable : KeyColumn → ℤ → SlotValues → ProbeResult
not_callable c i v = record { ok = false; error = some "model_not_callable" }

-- Both fields ask for one probe.
one_probe :
    arming_probe_targets gemini_patch default_config
    ≡ (("gemini", pos 1), index_field "gemini" ∷ field "provider" ∷ []) ∷ []
unfolding arming_probe_targets get_provider_override get_all_key_index_overrides
one_probe = refl

apply_config_patch-refused_example :
    get_provider_override
      (apply_config_patch natural midnight no_error
        (arming_problems a_resolution a_key not_callable gemini_patch default_config gemini_slots)
        "t"
        gemini_patch
        default_config).config
    ≡ get_provider_override default_config
unfolding model_problems get_slot_config get_provider_override get_all_key_index_overrides
apply_config_patch-refused_example =
    apply_config_patch-refused natural midnight no_error "t" a_resolution a_key not_callable
      gemini_patch default_config gemini_slots "gemini" (pos 1) "model_not_callable" [] refl refl
      refl refl refl

-- Slot 0 is what a provider without an index uses.
abbrev resent_patch : ConfigPatch ℕ
resent_patch = record wrong_patch {
  provider_field = none;
  index_fields = ("gemini", some (pos 0)) ∷ ("vertex", none) ∷ [];
}

arming_problems-resent_example :
    (arming_probe_targets resent_patch default_config ≡ [])
    × (arming_problems a_resolution a_key not_callable resent_patch default_config gemini_slots
          (index_field "gemini")
        ≡ none)
unfolding get_all_key_index_overrides
arming_problems-resent_example =
    arming_problems-resent a_resolution a_key not_callable resent_patch default_config gemini_slots
      (index_field "gemini") (refl, (refl, tt)) (inl refl)

-- A row is added for a slot of groq, whose models are not probed.
abbrev slot_patch : SlotConfigPatch
slot_patch = record {
  provider = "groq";
  slot = pos 1;
  model_field = some (some "n");
  project_field = some (some "unused");
  location_field = none;
}

slot_saved :
    apply_slot_config_patch a_resolution a_key not_callable none "u" slot_patch gemini_slots ≡ (
      slot_row "gemini" (pos 1) (record no_values { model = some "m" }) "t"
          ∷ slot_row "groq" (pos 1) (record no_values { model = some "n" }) "u"
          ∷ [],
      none,
    )
unfolding apply_slot_config_patch model_problems get_slot_config set_slot_config
slot_saved = refl

apply_slot_config_patch-IsSaved_example :
    IsSaved a_resolution a_key not_callable none "u" slot_patch "gemini"
      (pos 1)
      gemini_slots
      (apply_slot_config_patch a_resolution a_key not_callable none "u" slot_patch gemini_slots)
apply_slot_config_patch-IsSaved_example =
    apply_slot_config_patch-IsSaved a_resolution a_key not_callable none "u" slot_patch "gemini"
      (pos 1) gemini_slots refl
