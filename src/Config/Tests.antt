-- ===== src/Config/Tests.antt =====
-- Runs of the configuration code, and the theorems at concrete rows.
use pr_review_bot.UsageCap.{ClockTime, naive}
use pr_review_bot.Prelude.{
  ℕ, ◌≡◌, refl, String, Option, none, some, List, [], ◌∷◌, if◌then◌else◌, str_eq, pos,
}
use pr_review_bot.Number.Natural.{natural}
use pr_review_bot.Problem.{base_exceeds_max}
use pr_review_bot.Cooldown.{cooldown_problems}
use pr_review_bot.Tickets.{Table}
use pr_review_bot.Tickets.Finish.{recover_on_startup}
use pr_review_bot.Config.{
  RuntimeConfig, groq_column, blank, set_provider_override, set_key_index_override,
}
use pr_review_bot.Config.Slots.{
  SlotRow, SlotValues, slot_row, set_slot_config, delete_slot_config, get_slot_config, IsKeyed,
}
use pr_review_bot.Config.Keyed.{slots_lem}
use pr_review_bot.Config.Backfill.{
  backfill, was_null, coalesced, declared_defaults, lacking, runtime_config_columns,
}
use pr_review_bot.Config.Filled.{old, KeepsRow, backfill_lem}
use pr_review_bot.Config.Gates.{BootSettings, Database, lifespan, running, settings_refusal}
use pr_review_bot.Config.Boot.{IsReady, lifespan-IsReady}
use pr_review_bot.Config.Fresh.{provisioned, lifespan-provisioned}

-- Writing a provider into an empty table makes the row.
first_row :
    set_provider_override {F = ℕ} (some "groq") "t" none
    ≡ some (record (blank "t") { provider_column = some "groq" })
unfolding set_provider_override
first_row = refl

unknown_provider : set_key_index_override {F = ℕ} "openai" (some (pos 1)) "t" none ≡ none
unfolding set_key_index_override
unknown_provider = refl

abbrev model_of : String → SlotValues
model_of m = record { model = some m; vertex_gcp_project = none; vertex_gcp_location = none }

abbrev two_slots : List SlotRow
two_slots =
    slot_row "groq" (pos 0) (model_of "a") "t" ∷ slot_row "groq" (pos 1) (model_of "b") "t" ∷ []

slots_lem_example :
    IsKeyed (set_slot_config "groq" (pos 1) (model_of "c") "u" two_slots)
    × IsKeyed (delete_slot_config "groq" (pos 1) two_slots)
    × (get_slot_config "groq" (pos 0) (set_slot_config "groq" (pos 1) (model_of "c") "u" two_slots)
        ≡ get_slot_config "groq" (pos 0) two_slots)
    × (get_slot_config "groq" (pos 0) (delete_slot_config "groq" (pos 1) two_slots)
        ≡ get_slot_config "groq" (pos 0) two_slots)
unfolding get_slot_config
slots_lem_example =
    slots_lem "groq" (pos 1) (model_of "c") "u" "groq" (pos 0) two_slots (refl, (refl, tt))

-- A table of an older release lacks the columns that came later.
older_table :
    lacking runtime_config_columns ("id" ∷ "provider" ∷ [])
    ≡ lacking runtime_config_columns ("provider" ∷ "id" ∷ [])
unfolding lacking
older_table = refl

abbrev only_base : RuntimeConfig ℕ
only_base = record (blank "t") { cooldown = record { base = some 7200; cap = none; factor = none } }

-- A base above the default maximum stays below no maximum until the maximum is filled: the filled
-- triple is refused.
base_above_default :
    cooldown_problems natural (coalesced only_base (declared_defaults natural "u")).cooldown
    ≡ base_exceeds_max ∷ []
unfolding cooldown_problems
base_above_default = refl

backfill_lem_example :
    (r' : RuntimeConfig ℕ) × ((backfill natural "u" (some only_base)).1 ≡ some r')
    × (was_null r' ≡ [])
    × KeepsRow (old "u" (some only_base)) r'
    × ((backfill natural "u" (some only_base)).0 ≡ was_null (old "u" (some only_base)))
    × (backfill natural "v" (some r') ≡ ([], some r'))
backfill_lem_example = backfill_lem natural "u" "v" (some only_base)

abbrev complete_settings : BootSettings
complete_settings = record {
  github_webhook_secret = "s";
  github_app_installation_id = "7";
  github_target_repo = "*";
  dashboard_username = "u";
  dashboard_password = "p";
  dashboard_session_secret = "0123456789012345678901234567890123456789";
}

abbrev four_o_clock : String → Option ClockTime
four_o_clock s = if str_eq s "04:00:00" then some (naive 14400000000) else none

abbrev no_tickets : Table
no_tickets = record { rows = []; next_id = 1 }

abbrev provided : Database ℕ
provided = record {
  config = some (provisioned natural four_o_clock refl "groq" groq_column (some (pos 1)) "t");
  slots = two_slots;
  tickets = no_tickets;
}

abbrev booted : Database ℕ
booted = record provided {
  config = some (
      coalesced (provisioned natural four_o_clock refl "groq" groq_column (some (pos 1)) "t")
        (declared_defaults natural "u"));
  tickets = recover_on_startup no_tickets 5;
}

lifespan-provisioned_example :
    lifespan natural four_o_clock complete_settings (some "7") "u" 5 provided ≡ running "7" booted
unfolding settings_refusal get_slot_config
lifespan-provisioned_example =
    lifespan-provisioned natural four_o_clock refl complete_settings "7" "u" "groq" "t" 5
      (naive 14400000000) provided groq_column (some (pos 1)) (model_of "b") refl refl refl refl
      refl refl

lifespan-IsReady_example :
    IsReady natural four_o_clock booted
    × (◌≡◌ {A = Option String} (some "7") (some "7"))
    × (booted.tickets ≡ recover_on_startup provided.tickets 5)
lifespan-IsReady_example =
    lifespan-IsReady natural four_o_clock complete_settings (some "7") "u" 5 provided "7" booted
      lifespan-provisioned_example
