-- ===== src/Panel.antt =====
-- `_apply_config_patch` of dashboard/environment.py, over the runtime_config row. A field of the
-- request is none where it was not sent. Which writes raise, and what the probes of a slot find, are
-- arguments; the reads do not raise here.
pub mod Kept
pub mod Reports
pub mod Arming
pub mod SlotPatch
mod Tests
use pr_review_bot.Prelude.{
  ℕ, zero, String, Bool, true, false, not, ◌&&◌, Option, none, some, List, [], ◌∷◌, ◌++◌, map,
  if◌then◌else◌, leb, ltb, ℤ, pos, negsuc, is_some,
}
use pr_review_bot.Number.{Number}
use pr_review_bot.Problem.{Problem, not_set, out_of_range}
use pr_review_bot.Cooldown.{CooldownCache, cooldown_problems, positive}
use pr_review_bot.Tuning.{TuningCache, tuning_problems}
use pr_review_bot.UsageCap.{ClockTime, UsageCapCache, cap_problems}
use pr_review_bot.Config.{
  ConfigTable, key_column, set_provider_override, get_cooldown_overrides, set_cooldown_override,
  get_usage_cap_overrides, set_usage_cap_override, set_review_draft_override,
  set_key_index_override, get_dispatcher_tuning_config, set_dispatcher_tuning_config,
}

-- MAX_CREDENTIAL_SLOTS
abbrev pub max_credential_slots : ℕ
max_credential_slots = 5

-- A key of the request; an entry of `key_index` is reported with its provider.
pub data FieldKey : Type 0 where
  field : String → FieldKey
  index_field : String → FieldKey

-- Why a field was not applied.
pub data PatchError : Type 0 where
  unknown_provider : PatchError
  invalid_slot : PatchError
  not_armed : String → PatchError
  unusable : List Problem → PatchError
  write_raised : String → PatchError

-- The fields of the request that were sent.
pub record ConfigPatch (F : Type 0) : Type 0 where
  pub provider_field : Option (Option String)
  pub base_field : Option (Option F)
  pub max_field : Option (Option F)
  pub factor_field : Option (Option F)
  pub tokens_field : Option (Option ℤ)
  pub reset_field : Option (Option String)
  pub draft_field : Option (Option Bool)
  pub index_fields : List (String × Option ℤ)
  pub timeout_field : Option (Option F)
  pub default_retry_field : Option (Option F)
  pub base_backoff_field : Option (Option F)
  pub max_backoff_field : Option (Option F)
  pub failure_attempts_field : Option (Option ℤ)
  pub notice_attempts_field : Option (Option ℤ)
  pub min_retry_field : Option (Option F)
  pub jitter_field : Option (Option F)
  pub batch_field : Option (Option ℤ)
  pub idle_field : Option (Option F)

-- The table, and what is reported.
pub record Panel (F : Type 0) : Type 0 where
  pub config : ConfigTable F
  pub applied : List FieldKey
  pub failed : List (FieldKey × PatchError)

-- The key of a field that was sent.
abbrev pub sent_key : {A : Type 0} → String → Option A → List FieldKey
sent_key key none = []
sent_key key (some a) = field key ∷ []

-- `fields.get(key, current)`
abbrev pub given_or : {A : Type 0} → Option A → A → A
given_or none current = current
given_or (some a) current = a

module _ {F : Type 0} where
  abbrev pub rejected : List FieldKey → PatchError → Panel F → Panel F
  rejected keys e s = record s { failed = s.failed ++ map (λ k. (k, e)) keys }

  -- A write of a group of fields: the error of a write that raised, or none.
  abbrev pub written : List FieldKey → Option String → ConfigTable F → Panel F → Panel F
  written keys (some e) t s = rejected keys (write_raised e) s
  written keys none t s = record s { config = t; applied = s.applied ++ keys }

  -- A group that is checked as a whole.
  abbrev pub checked :
      List FieldKey → List Problem → Option String → ConfigTable F → Panel F → Panel F
  checked keys [] raises t s = written keys raises t s
  checked keys (p ∷ ps) raises t s = rejected keys (unusable (p ∷ ps)) s

  abbrev pub cooldown_keys : ConfigPatch F → List FieldKey
  cooldown_keys q =
      sent_key "cooldown_base_seconds" q.base_field
      ++ (sent_key "cooldown_max_seconds" q.max_field ++ sent_key "cooldown_factor" q.factor_field)

  abbrev pub merged_cooldown : ConfigPatch F → CooldownCache F → CooldownCache F
  merged_cooldown q c = record {
    base = given_or q.base_field c.base;
    cap = given_or q.max_field c.cap;
    factor = given_or q.factor_field c.factor;
  }

  abbrev pub usage_keys : ConfigPatch F → List FieldKey
  usage_keys q =
      sent_key "usage_cap_tokens" q.tokens_field ++ sent_key "usage_cap_reset" q.reset_field

  abbrev pub merged_caps : ConfigPatch F → UsageCapCache → UsageCapCache
  merged_caps q c = record {
    tokens = given_or q.tokens_field c.tokens;
    reset = given_or q.reset_field c.reset;
  }

  abbrev pub tuning_keys : ConfigPatch F → List FieldKey
  tuning_keys q =
      sent_key "llm_request_timeout_seconds" q.timeout_field
      ++ (sent_key "dispatcher_default_retry_after_seconds" q.default_retry_field
          ++ (sent_key "dispatcher_failure_base_backoff_seconds" q.base_backoff_field
              ++ (sent_key "dispatcher_failure_max_backoff_seconds" q.max_backoff_field
                  ++ (sent_key "dispatcher_max_failure_attempts" q.failure_attempts_field
                      ++ (sent_key "dispatcher_max_notice_post_attempts" q.notice_attempts_field
                          ++ (sent_key "dispatcher_min_retry_after_seconds" q.min_retry_field
                              ++ (sent_key "dispatcher_backoff_jitter_seconds" q.jitter_field
                                  ++ (sent_key "dispatcher_notice_sweep_batch_size" q.batch_field
                                      ++ sent_key "dispatcher_idle_sleep_seconds"
                                          q.idle_field))))))))

  abbrev pub merged_tuning : ConfigPatch F → TuningCache F → TuningCache F
  merged_tuning q c = record {
    llm_request_timeout_seconds = given_or q.timeout_field c.llm_request_timeout_seconds;
    default_retry_after_seconds = given_or q.default_retry_field c.default_retry_after_seconds;
    failure_base_backoff_seconds = given_or q.base_backoff_field c.failure_base_backoff_seconds;
    failure_max_backoff_seconds = given_or q.max_backoff_field c.failure_max_backoff_seconds;
    max_failure_attempts = given_or q.failure_attempts_field c.max_failure_attempts;
    max_notice_post_attempts = given_or q.notice_attempts_field c.max_notice_post_attempts;
    min_retry_after_seconds = given_or q.min_retry_field c.min_retry_after_seconds;
    backoff_jitter_seconds = given_or q.jitter_field c.backoff_jitter_seconds;
    notice_sweep_batch_size = given_or q.batch_field c.notice_sweep_batch_size;
  }

abbrev pub is_slot : Option ℤ → Bool
is_slot none = true
is_slot (some (negsuc n)) = false
is_slot (some (pos n)) = ltb n max_credential_slots

-- `raises` and `arming` are by the key of a field; a group's write is looked up by the key of its
-- first field.
module _ (N : Number) (from_iso : String → Option ClockTime)
    (raises arming : FieldKey → Option String) (now : String) where
  -- The stage of the provider, after its check.
  abbrev pub armed_provider : Option String → Panel N.F → Option String → Panel N.F
  armed_provider p s (some e) = rejected (field "provider" ∷ []) (not_armed e) s
  armed_provider p s none =
      written (field "provider" ∷ []) (raises (field "provider"))
        (set_provider_override p now s.config) s

  abbrev pub is_known : Option String → Bool
  is_known none = true
  is_known (some p) = is_some (key_column p)

  abbrev pub provider_stage : Option (Option String) → Panel N.F → Panel N.F
  provider_stage none s = s
  provider_stage (some p) s =
      if is_known p
      then armed_provider p s (arming (field "provider"))
      else rejected (field "provider" ∷ []) unknown_provider s

  -- A group is written only where one of its fields was sent.
  abbrev pub group : List FieldKey → (FieldKey → Panel N.F) → Panel N.F → Panel N.F
  group [] go s = s
  group (k ∷ ks) go s = go k

  unfoldable pub cooldown_stage : ConfigPatch N.F → Panel N.F → Panel N.F
  cooldown_stage q s =
      let merged = merged_cooldown q (get_cooldown_overrides s.config) in
      group (cooldown_keys q)
        (λ k.
          checked (cooldown_keys q) (cooldown_problems N merged) (raises k)
            (set_cooldown_override merged.base merged.cap merged.factor now s.config) s)
        s

  unfoldable pub usage_stage : ConfigPatch N.F → Panel N.F → Panel N.F
  usage_stage q s =
      let merged = merged_caps q (get_usage_cap_overrides s.config) in
      group (usage_keys q)
        (λ k.
          checked (usage_keys q) (cap_problems from_iso merged) (raises k)
            (set_usage_cap_override merged.tokens merged.reset now s.config) s)
        s

  abbrev pub draft_stage : Option (Option Bool) → Panel N.F → Panel N.F
  draft_stage none s = s
  draft_stage (some v) s =
      written (field "review_draft_prs" ∷ []) (raises (field "review_draft_prs"))
        (set_review_draft_override v now s.config) s

  -- A known provider has a column, so the write itself does not raise a KeyError.
  abbrev pub index_write : String → Panel N.F → Option (ConfigTable N.F) → Panel N.F
  index_write p s none = rejected (index_field p ∷ []) unknown_provider s
  index_write p s (some t) = written (index_field p ∷ []) (raises (index_field p)) t s

  abbrev pub armed_index : String → Option ℤ → Panel N.F → Option String → Panel N.F
  armed_index p i s (some e) = rejected (index_field p ∷ []) (not_armed e) s
  armed_index p i s none = index_write p s (set_key_index_override p i now s.config)

  -- One round of the loop over `key_index`.
  abbrev pub index_round : String → Option ℤ → Panel N.F → Panel N.F
  index_round p i s =
      if is_some (key_column p)
      then if is_slot i
        then armed_index p i s (arming (index_field p))
        else rejected (index_field p ∷ []) invalid_slot s
      else rejected (index_field p ∷ []) unknown_provider s

  abbrev pub index_stage : List (String × Option ℤ) → Panel N.F → Panel N.F
  index_stage [] s = s
  index_stage ((p, i) ∷ rest) s = index_stage rest (index_round p i s)

  abbrev pub idle_problems : Option N.F → List Problem
  idle_problems none = not_set "dispatcher_idle_sleep_seconds" ∷ []
  idle_problems (some v) =
      if positive N v then [] else out_of_range "dispatcher_idle_sleep_seconds" ∷ []

  unfoldable pub tuning_stage : ConfigPatch N.F → Panel N.F → Panel N.F
  tuning_stage q s =
      let current = get_dispatcher_tuning_config s.config in
      let merged = merged_tuning q current.0 in
      let idle = given_or q.idle_field current.1 in
      group (tuning_keys q)
        (λ k.
          checked (tuning_keys q) (tuning_problems N merged ++ idle_problems idle) (raises k)
            (set_dispatcher_tuning_config merged idle now s.config) s)
        s

  unfoldable pub apply_config_patch : ConfigPatch N.F → ConfigTable N.F → Panel N.F
  unfolding cooldown_stage usage_stage tuning_stage
  apply_config_patch q t = tuning_stage q (
      index_stage q.index_fields (
        draft_stage q.draft_field (
          usage_stage q (
            cooldown_stage q (
              provider_stage q.provider_field
                (record { config = t; applied = []; failed = [] }))))))
