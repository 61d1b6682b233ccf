-- ===== src/Tuning/Tests.antt =====
-- A tuning dict in seconds, and the theorems at it.
use pr_review_bot.Prelude.{arith, ℕ, ◌≡◌, refl, some, pos, negsuc, [], ◌∷◌}
use pr_review_bot.Number.Natural.{natural}
use pr_review_bot.Problem.{out_of_range}
use pr_review_bot.Tuning.{
  TuningCache, Tuning, ready, unavailable, read_tuning, tuning_problems, require_config,
  compute_backoff,
}
use pr_review_bot.Tuning.Laws.{Backoff, compute_backoff_lem}

abbrev pub sample_cache : TuningCache ℕ
sample_cache = record {
  llm_request_timeout_seconds = some 120;
  default_retry_after_seconds = some 60;
  failure_base_backoff_seconds = some 30;
  failure_max_backoff_seconds = some 100;
  max_failure_attempts = some (pos 3);
  max_notice_post_attempts = some (pos 2);
  min_retry_after_seconds = some 5;
  backoff_jitter_seconds = some 4;
  notice_sweep_batch_size = some (pos 10);
}

abbrev pub sample : Tuning ℕ
sample = record {
  timeout = 120;
  default_retry_after = 60;
  base = 30;
  cap = 100;
  max_failure_attempts = 3;
  max_notice_post_attempts = 2;
  min_retry_after = 5;
  jitter_max = 4;
  batch_size = 10;
}

pub sample_ready : require_config natural sample_cache ≡ ready sample
unfolding require_config tuning_problems read_tuning
sample_ready = refl

negative_tries :
    require_config natural (record sample_cache { max_failure_attempts = some (negsuc 0) })
    ≡ unavailable (out_of_range "dispatcher_max_failure_attempts" ∷ [])
unfolding require_config tuning_problems read_tuning
negative_tries = refl

backoffs :
    (compute_backoff natural 1 4 sample ≡ 34)
    × (compute_backoff natural 2 4 sample ≡ 64)
    × (compute_backoff natural 3 4 sample ≡ 104)
unfolding compute_backoff
backoffs = (refl, refl, refl)

compute_backoff_lem_example : Backoff natural sample 2 4
compute_backoff_lem_example =
    compute_backoff_lem natural sample_cache sample 2 4 sample_ready (omega arith) (omega arith)
