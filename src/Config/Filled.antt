-- ===== src/Config/Filled.antt =====
-- The filling of the runtime_config row.
use pr_review_bot.Prelude.{
  ◌≡◌, refl, ap, ◌∙◌, String, Option, none, some, [], or_else, ◌⊎◌, inl, inr,
}
use pr_review_bot.Number.{Number}
use pr_review_bot.Config.{RuntimeConfig, ConfigTable, blank}
use pr_review_bot.Config.Backfill.{declared_defaults, was_null, coalesced, backfill, null_name}

or_else_again {ℓ} : {A : Type ℓ} (x y : Option A) → or_else (or_else x y) y ≡ or_else x y
or_else_again none none = refl
or_else_again none (some b) = refl
or_else_again (some a) y = refl

null_name_filled :
    {A : Type 0} (name : String) (x : Option A) (d : A) → null_name name (or_else x (some d)) ≡ []
null_name_filled name none d = refl
null_name_filled name (some a) d = refl

coalesced_idem : {F : Type 0} (r d : RuntimeConfig F) → coalesced (coalesced r d) d ≡ coalesced r d
coalesced_idem r d = simp or_else_again

was_null-coalesced :
    (N : Number) (now : String) (r : RuntimeConfig N.F)
    → was_null (coalesced r (declared_defaults N now)) ≡ []
unfolding was_null
was_null-coalesced N now r = simp null_name_filled

-- The row before, or one without values.
abbrev pub old : {F : Type 0} → String → ConfigTable F → RuntimeConfig F
old now none = blank now
old now (some r) = r

-- A value that was there is there still.
abbrev pub Kept : {A : Type 0} → Option A → Option A → Type 0
Kept x y = (x ≡ none) ⊎ (y ≡ x)

or_else-Kept : {A : Type 0} (x y : Option A) → Kept x (or_else x y)
or_else-Kept none y = inl refl
or_else-Kept (some a) y = inr refl

-- Every column with a default keeps a value it had, and every other column is as before.
pub record KeepsRow {F : Type 0} (r s : RuntimeConfig F) : Type 0 where
  pub base_kept : Kept r.cooldown.base s.cooldown.base
  pub cap_kept : Kept r.cooldown.cap s.cooldown.cap
  pub factor_kept : Kept r.cooldown.factor s.cooldown.factor
  pub reset_kept : Kept r.caps.reset s.caps.reset
  pub draft_kept : Kept r.review_draft_prs s.review_draft_prs
  pub timeout_kept : Kept r.tuning.llm_request_timeout_seconds s.tuning.llm_request_timeout_seconds
  pub default_retry_kept :
      Kept r.tuning.default_retry_after_seconds s.tuning.default_retry_after_seconds
  pub base_backoff_kept :
      Kept r.tuning.failure_base_backoff_seconds s.tuning.failure_base_backoff_seconds
  pub max_backoff_kept :
      Kept r.tuning.failure_max_backoff_seconds s.tuning.failure_max_backoff_seconds
  pub failure_attempts_kept : Kept r.tuning.max_failure_attempts s.tuning.max_failure_attempts
  pub notice_attempts_kept :
      Kept r.tuning.max_notice_post_attempts s.tuning.max_notice_post_attempts
  pub min_retry_kept : Kept r.tuning.min_retry_after_seconds s.tuning.min_retry_after_seconds
  pub jitter_kept : Kept r.tuning.backoff_jitter_seconds s.tuning.backoff_jitter_seconds
  pub batch_kept : Kept r.tuning.notice_sweep_batch_size s.tuning.notice_sweep_batch_size
  pub idle_kept : Kept r.idle_sleep_seconds s.idle_sleep_seconds
  pub provider_same : s.provider_column ≡ r.provider_column
  pub gemini_same : s.gemini_key_index ≡ r.gemini_key_index
  pub groq_same : s.groq_key_index ≡ r.groq_key_index
  pub vertex_same : s.vertex_key_index ≡ r.vertex_key_index
  pub tokens_same : s.caps.tokens ≡ r.caps.tokens
  pub updated_same : s.updated_at ≡ r.updated_at

coalesced-KeepsRow : {F : Type 0} (r d : RuntimeConfig F) → KeepsRow r (coalesced r d)
coalesced-KeepsRow r d = record {
  base_kept = or_else-Kept r.cooldown.base d.cooldown.base;
  cap_kept = or_else-Kept r.cooldown.cap d.cooldown.cap;
  factor_kept = or_else-Kept r.cooldown.factor d.cooldown.factor;
  reset_kept = or_else-Kept r.caps.reset d.caps.reset;
  draft_kept = or_else-Kept r.review_draft_prs d.review_draft_prs;
  timeout_kept = or_else-Kept r.tuning.llm_request_timeout_seconds _;
  default_retry_kept = or_else-Kept r.tuning.default_retry_after_seconds _;
  base_backoff_kept = or_else-Kept r.tuning.failure_base_backoff_seconds _;
  max_backoff_kept = or_else-Kept r.tuning.failure_max_backoff_seconds _;
  failure_attempts_kept = or_else-Kept r.tuning.max_failure_attempts _;
  notice_attempts_kept = or_else-Kept r.tuning.max_notice_post_attempts _;
  min_retry_kept = or_else-Kept r.tuning.min_retry_after_seconds _;
  jitter_kept = or_else-Kept r.tuning.backoff_jitter_seconds _;
  batch_kept = or_else-Kept r.tuning.notice_sweep_batch_size _;
  idle_kept = or_else-Kept r.idle_sleep_seconds d.idle_sleep_seconds;
  provider_same = refl;
  gemini_same = refl;
  groq_same = refl;
  vertex_same = refl;
  tokens_same = refl;
  updated_same = refl;
}

defaults-KeepsRow :
    (N : Number) (now : String) → KeepsRow (blank {F = N.F} now) (declared_defaults N now)
defaults-KeepsRow N now = coalesced-KeepsRow (blank now) (declared_defaults N now)

-- Filling a row, or a table without one, which counts as a row of NULLs: no column with a default is
-- NULL after it, a column with a default that had a value has that value, and every other column is
-- as before. The columns that were NULL are reported, and filling a second time reports nothing and
-- changes nothing.
pub backfill_lem :
    (N : Number) (now later : String) (t : ConfigTable N.F)
    → (r' : RuntimeConfig N.F) × ((backfill N now t).1 ≡ some r')
      × (was_null r' ≡ [])
      × KeepsRow (old now t) r'
      × ((backfill N now t).0 ≡ was_null (old now t))
      × (backfill N later (some r') ≡ ([], some r'))
unfolding backfill was_null
backfill_lem N now later none =
    (declared_defaults N now, refl, refl, defaults-KeepsRow N now, refl, refl)
backfill_lem N now later (some r) = (
  coalesced r (declared_defaults N now),
  refl,
  was_null-coalesced N now r,
  coalesced-KeepsRow r (declared_defaults N now),
  refl,
  ap
        (λ l.
          (l, some (coalesced (coalesced r (declared_defaults N now)) (declared_defaults N later))))
        (was_null-coalesced N now r)
      ∙ ap (λ c. ([], some c)) (coalesced_idem r (declared_defaults N now)),
)
