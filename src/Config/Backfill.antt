-- ===== src/Config/Backfill.antt =====
-- What init_pool of review_queue/store.py does to the schema and the runtime_config row: the columns
-- that are added, and the filling of NULLs with the defaults of runtime_config_defaults.py, whose
-- values are those of config.py.
use pr_review_bot.Prelude.{
  String, Bool, false, Option, none, some, List, [], ◌∷◌, ◌++◌, if◌then◌else◌, str_eq, ◌||◌, pos,
  or_else,
}
use pr_review_bot.Number.{Number}
use pr_review_bot.Cooldown.{CooldownCache}
use pr_review_bot.Tuning.{TuningCache}
use pr_review_bot.Config.{RuntimeConfig, ConfigTable, blank}

-- The names of RUNTIME_CONFIG_COLUMNS.
abbrev pub runtime_config_columns : List String
runtime_config_columns =
    "id" ∷ "provider" ∷ "updated_at" ∷ "cooldown_base_seconds" ∷ "cooldown_max_seconds"
    ∷ "cooldown_factor" ∷ "gemini_key_index" ∷ "groq_key_index" ∷ "vertex_key_index"
    ∷ "key_usage_token_cap" ∷ "key_usage_reset_time_utc" ∷ "review_draft_prs"
    ∷ "llm_request_timeout_seconds" ∷ "dispatcher_default_retry_after_seconds"
    ∷ "dispatcher_failure_base_backoff_seconds" ∷ "dispatcher_failure_max_backoff_seconds"
    ∷ "dispatcher_max_failure_attempts" ∷ "dispatcher_max_notice_post_attempts"
    ∷ "dispatcher_min_retry_after_seconds" ∷ "dispatcher_backoff_jitter_seconds"
    ∷ "dispatcher_notice_sweep_batch_size" ∷ "dispatcher_idle_sleep_seconds" ∷ []

abbrev pub has_name : String → List String → Bool
has_name x [] = false
has_name x (y ∷ ys) = str_eq x y || has_name x ys

-- The columns that one table of `_widen_statements` lacks, in declared order.
unfoldable pub lacking : List String → (live : List String) → List String
lacking [] live = []
lacking (c ∷ cs) live = let rest = lacking cs live in if has_name c live then rest else c ∷ rest

-- The columns after the statements ran.
abbrev pub widened : List String → List String → List String
widened columns live = live ++ lacking columns live

module _ (N : Number) where
  -- `declared_defaults()`; a column without a default is `none`.
  abbrev pub declared_defaults : String → RuntimeConfig N.F
  declared_defaults now = record (blank now) {
    cooldown = record {
      base = some (N.of_nat 300);
      cap = some (N.of_nat 3600);
      factor = some (N.of_nat 2);
    };
    caps = record { tokens = none; reset = some "04:00:00" };
    review_draft_prs = some false;
    tuning = record {
      llm_request_timeout_seconds = some (N.of_nat 45);
      default_retry_after_seconds = some (N.of_nat 60);
      failure_base_backoff_seconds = some (N.of_nat 2);
      failure_max_backoff_seconds = some (N.of_nat 300);
      max_failure_attempts = some (pos 5);
      max_notice_post_attempts = some (pos 3);
      min_retry_after_seconds = some N.one_f;
      backoff_jitter_seconds = some N.zero_f;
      notice_sweep_batch_size = some (pos 20);
    };
    idle_sleep_seconds = some N.one_f;
  }

abbrev pub null_name : {A : Type 0} → String → Option A → List String
null_name name none = name ∷ []
null_name name (some a) = []

module _ {F : Type 0} where
  -- The names of the columns with a default that are NULL, in the order of COLUMN_TO_SETTING.
  unfoldable pub was_null : RuntimeConfig F → List String
  was_null r =
      null_name "cooldown_base_seconds" r.cooldown.base
      ++ (null_name "cooldown_max_seconds" r.cooldown.cap
          ++ (null_name "cooldown_factor" r.cooldown.factor
              ++ (null_name "key_usage_reset_time_utc" r.caps.reset
                  ++ (null_name "review_draft_prs" r.review_draft_prs
                      ++ (null_name "llm_request_timeout_seconds"
                            r.tuning.llm_request_timeout_seconds
                          ++ (null_name "dispatcher_default_retry_after_seconds"
                                r.tuning.default_retry_after_seconds
                              ++ (null_name "dispatcher_failure_base_backoff_seconds"
                                    r.tuning.failure_base_backoff_seconds
                                  ++ (null_name "dispatcher_failure_max_backoff_seconds"
                                        r.tuning.failure_max_backoff_seconds
                                      ++ (null_name "dispatcher_max_failure_attempts"
                                            r.tuning.max_failure_attempts
                                          ++ (null_name "dispatcher_max_notice_post_attempts"
                                                r.tuning.max_notice_post_attempts
                                              ++ (null_name "dispatcher_min_retry_after_seconds"
                                                    r.tuning.min_retry_after_seconds
                                                  ++ (null_name "dispatcher_backoff_jitter_seconds"
                                                        r.tuning.backoff_jitter_seconds
                                                      ++ (null_name
                                                            "dispatcher_notice_sweep_batch_size"
                                                            r.tuning.notice_sweep_batch_size
                                                          ++ null_name
                                                            "dispatcher_idle_sleep_seconds"
                                                            r.idle_sleep_seconds)))))))))))))

  abbrev coalesced_cooldown : CooldownCache F → CooldownCache F → CooldownCache F
  coalesced_cooldown c d = record {
    base = or_else c.base d.base;
    cap = or_else c.cap d.cap;
    factor = or_else c.factor d.factor;
  }

  abbrev coalesced_tuning : TuningCache F → TuningCache F → TuningCache F
  coalesced_tuning c d = record {
    llm_request_timeout_seconds =
        or_else c.llm_request_timeout_seconds d.llm_request_timeout_seconds;
    default_retry_after_seconds =
        or_else c.default_retry_after_seconds d.default_retry_after_seconds;
    failure_base_backoff_seconds =
        or_else c.failure_base_backoff_seconds d.failure_base_backoff_seconds;
    failure_max_backoff_seconds =
        or_else c.failure_max_backoff_seconds d.failure_max_backoff_seconds;
    max_failure_attempts = or_else c.max_failure_attempts d.max_failure_attempts;
    max_notice_post_attempts = or_else c.max_notice_post_attempts d.max_notice_post_attempts;
    min_retry_after_seconds = or_else c.min_retry_after_seconds d.min_retry_after_seconds;
    backoff_jitter_seconds = or_else c.backoff_jitter_seconds d.backoff_jitter_seconds;
    notice_sweep_batch_size = or_else c.notice_sweep_batch_size d.notice_sweep_batch_size;
  }

  -- `SET col = COALESCE(runtime_config.col, EXCLUDED.col)` for the columns with a default.
  abbrev pub coalesced : RuntimeConfig F → RuntimeConfig F → RuntimeConfig F
  coalesced r d = record r {
    cooldown = coalesced_cooldown r.cooldown d.cooldown;
    caps = record (r.caps) { reset = or_else r.caps.reset d.caps.reset };
    review_draft_prs = or_else r.review_draft_prs d.review_draft_prs;
    tuning = coalesced_tuning r.tuning d.tuning;
    idle_sleep_seconds = or_else r.idle_sleep_seconds d.idle_sleep_seconds;
  }

module _ (N : Number) where
  -- `_backfill_runtime_config`: the columns it reports, and the table after it.
  unfoldable pub backfill : String → ConfigTable N.F → List String × ConfigTable N.F
  unfolding was_null
  backfill now none = (was_null (blank {F = N.F} now), some (declared_defaults N now))
  backfill now (some r) = (was_null r, some (coalesced r (declared_defaults N now)))
