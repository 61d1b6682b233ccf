-- ===== src/Tuning.antt =====
-- review_queue/dispatcher_tuning_config.py, and the backoff of review_queue/dispatcher.py
-- (_jitter, compute_backoff).
pub mod Laws
pub mod Tests
use pr_review_bot.Prelude.{
  ℕ, ◌-◌, ◌^◌, Bool, true, false, Option, none, some, List, [], ◌∷◌, ◌++◌, if◌then◌else◌, leb, ℤ,
  pos, negsuc,
}
use pr_review_bot.Number.{Number}
use pr_review_bot.Problem.{Problem, check_bound, check_order}
use pr_review_bot.Cooldown.{min_f, positive}

-- The cached dict; a field is `none` when its column is NULL or the dict is empty.
pub record TuningCache (F : Type 0) : Type 0 where
  pub llm_request_timeout_seconds : Option F
  pub default_retry_after_seconds : Option F
  pub failure_base_backoff_seconds : Option F
  pub failure_max_backoff_seconds : Option F
  pub max_failure_attempts : Option ℤ
  pub max_notice_post_attempts : Option ℤ
  pub min_retry_after_seconds : Option F
  pub backoff_jitter_seconds : Option F
  pub notice_sweep_batch_size : Option ℤ

abbrev pub unset_tuning : {F : Type 0} → TuningCache F
unset_tuning = record {
  llm_request_timeout_seconds = none;
  default_retry_after_seconds = none;
  failure_base_backoff_seconds = none;
  failure_max_backoff_seconds = none;
  max_failure_attempts = none;
  max_notice_post_attempts = none;
  min_retry_after_seconds = none;
  backoff_jitter_seconds = none;
  notice_sweep_batch_size = none;
}

-- The values of a dict that passed: all are present, and the integers are at least 1.
pub record Tuning (F : Type 0) : Type 0 where
  pub timeout : F
  pub default_retry_after : F
  pub base : F
  pub cap : F
  pub max_failure_attempts : ℕ
  pub max_notice_post_attempts : ℕ
  pub min_retry_after : F
  pub jitter_max : F
  pub batch_size : ℕ

-- `v >= 1`
abbrev pub at_least_one : ℤ → Bool
at_least_one (pos n) = leb 1 n
at_least_one (negsuc n) = false

-- What `require_config` does: it returns the dict, or raises TuningConfigUnavailable.
pub data Required (F : Type 0) : Type 0 where
  ready : Tuning F → Required F
  unavailable : List Problem → Required F

infixl 5 ◌>>=◌
abbrev pub ◌>>=◌ : {A B : Type 0} → Option A → (A → Option B) → Option B
none >>= f = none
some a >>= f = f a

abbrev pub to_ℕ : ℤ → Option ℕ
to_ℕ (pos n) = some n
to_ℕ (negsuc n) = none

-- Reading the nine keys.
unfoldable pub read_tuning : {F : Type 0} → TuningCache F → Option (Tuning F)
read_tuning c = do
  timeout ← c.llm_request_timeout_seconds
  default_retry_after ← c.default_retry_after_seconds
  base ← c.failure_base_backoff_seconds
  cap ← c.failure_max_backoff_seconds
  failure_attempts ← c.max_failure_attempts
  max_failure_attempts ← to_ℕ failure_attempts
  notice_attempts ← c.max_notice_post_attempts
  max_notice_post_attempts ← to_ℕ notice_attempts
  min_retry_after ← c.min_retry_after_seconds
  jitter_max ← c.backoff_jitter_seconds
  batch ← c.notice_sweep_batch_size
  batch_size ← to_ℕ batch
  some (record {
    timeout = timeout;
    default_retry_after = default_retry_after;
    base = base;
    cap = cap;
    max_failure_attempts = max_failure_attempts;
    max_notice_post_attempts = max_notice_post_attempts;
    min_retry_after = min_retry_after;
    jitter_max = jitter_max;
    batch_size = batch_size;
  })

module _ (N : Number) where
  open N use {F, le, zero_f, of_nat, add, mul}

  unfoldable pub tuning_problems : TuningCache F → List Problem
  tuning_problems c =
      check_bound "llm_request_timeout_seconds" (positive N) c.llm_request_timeout_seconds
      ++ (check_bound "dispatcher_default_retry_after_seconds" (le zero_f)
            c.default_retry_after_seconds
          ++ (check_bound "dispatcher_failure_base_backoff_seconds" (le zero_f)
                c.failure_base_backoff_seconds
              ++ (check_bound "dispatcher_failure_max_backoff_seconds" (positive N)
                    c.failure_max_backoff_seconds
                  ++ (check_bound "dispatcher_max_failure_attempts" at_least_one
                        c.max_failure_attempts
                      ++ (check_bound "dispatcher_max_notice_post_attempts" at_least_one
                            c.max_notice_post_attempts
                          ++ (check_bound "dispatcher_min_retry_after_seconds" (le zero_f)
                                c.min_retry_after_seconds
                              ++ (check_bound "dispatcher_backoff_jitter_seconds" (le zero_f)
                                    c.backoff_jitter_seconds
                                  ++ (check_bound "dispatcher_notice_sweep_batch_size" at_least_one
                                        c.notice_sweep_batch_size
                                      ++ check_order le c.failure_base_backoff_seconds
                                          c.failure_max_backoff_seconds))))))))

  abbrev or_unavailable : List Problem → Option (Tuning F) → Required F
  or_unavailable (p ∷ ps) t = unavailable (p ∷ ps)
  or_unavailable [] none = unavailable []
  or_unavailable [] (some t) = ready t

  unfoldable pub require_config : TuningCache F → Required F
  require_config c = or_unavailable (tuning_problems c) (read_tuning c)

  -- `draw m` is `random.uniform(0.0, m)`.
  unfoldable pub jitter : (draw : F → F) → Tuning F → F
  jitter draw t = if le t.jitter_max zero_f then zero_f else draw t.jitter_max

  -- `attempts` is the count from 1, as its caller passes it; `base * 2 ** (attempts - 1)`, capped, plus
  -- the jitter. The power is converted to a float, for which attempts is at most 1024.
  unfoldable pub compute_backoff : ℕ → F → Tuning F → F
  compute_backoff attempts j t = add (min_f N (mul t.base (of_nat (2 ^ (attempts - 1)))) t.cap) j
