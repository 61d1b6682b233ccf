-- ===== src/Tuning/Laws.antt =====
-- The bounds of a tuning dict and of the backoff.
use mathlib.Core.Path.{ap, ap₂, subst}
use mathlib.Core.Option.{some-injective}
use native.Mathlib.Nat.{pow-le-pow_right}
use pr_review_bot.Prelude.{
  ℕ, ◌+◌, ◌-◌, ◌^◌, ◌≤◌, ◌≡◌, refl, true, false, some, [], ℤ, pos, negsuc, arith, sym, ◌∙◌,
}
use pr_review_bot.Number.{Number}
use pr_review_bot.Problem.{check_order, check_bound-eq-nil, append-eq-nil}
use pr_review_bot.Cooldown.{min_f, positive}
use pr_review_bot.Cooldown.Laws.{min_f-le-right, min_f_mono}
use pr_review_bot.Tuning.{
  TuningCache, Tuning, ready, at_least_one, read_tuning, tuning_problems, require_config, jitter,
  compute_backoff,
}

module _ (N : Number) where
  open N use {F, le, zero_f, of_nat, add, mul, one_f}

  pub record InRange (t : Tuning F) : Type 0 where
    pub timeout_pos : le t.timeout zero_f ≡ false
    pub retry_nonneg : le zero_f t.default_retry_after ≡ true
    pub base_nonneg : le zero_f t.base ≡ true
    pub cap_pos : le t.cap zero_f ≡ false
    pub ordered : le t.base t.cap ≡ true
    pub tries : 1 ≤ t.max_failure_attempts
    pub notices : 1 ≤ t.max_notice_post_attempts
    pub min_nonneg : le zero_f t.min_retry_after ≡ true
    pub jitter_nonneg : le zero_f t.jitter_max ≡ true
    pub batch_pos : 1 ≤ t.batch_size

  ready_parts :
      (c : TuningCache F) (t : Tuning F)
      → require_config N c ≡ ready t
      → (tuning_problems N c ≡ []) × (read_tuning c ≡ some t)
  unfolding require_config
  ready_parts c t h = ground arith

  int_pos : (v : ℤ) → at_least_one v ≡ true → (n : ℕ) × (v ≡ pos n) × (1 ≤ n)
  int_pos (pos n) h = (n, refl, ground arith)
  int_pos (negsuc n) h = cc

  order_of : (b m : F) → check_order le (some b) (some m) ≡ [] → le b m ≡ true
  order_of b m h = ground arith

  -- Reading a dict whose nine values are known.
  read_tuning_lem :
      (c : TuningCache F) (v1 v2 v3 v4 v7 v8 : F) (v5 v6 v9 : ℤ) (n5 n6 n9 : ℕ)
      → c.llm_request_timeout_seconds ≡ some v1
      → c.default_retry_after_seconds ≡ some v2
      → c.failure_base_backoff_seconds ≡ some v3
      → c.failure_max_backoff_seconds ≡ some v4
      → c.max_failure_attempts ≡ some v5
      → c.max_notice_post_attempts ≡ some v6
      → c.min_retry_after_seconds ≡ some v7
      → c.backoff_jitter_seconds ≡ some v8
      → c.notice_sweep_batch_size ≡ some v9
      → v5 ≡ pos n5
      → v6 ≡ pos n6
      → v9 ≡ pos n9
      → read_tuning c
        ≡ some (record {
          timeout = v1;
          default_retry_after = v2;
          base = v3;
          cap = v4;
          max_failure_attempts = n5;
          max_notice_post_attempts = n6;
          min_retry_after = v7;
          jitter_max = v8;
          batch_size = n9;
        })
  unfolding read_tuning
  read_tuning_lem c v1 v2 v3 v4 v7 v8 v5 v6 v9 n5 n6 n9 e1 e2 e3 e4 e5 e6 e7 e8 e9 q5 q6 q9 =
      rw (e1, e2, e3, e4, e5, q5, e6, q6, e7, e8, e9, q9)

  -- A dict without problems, key by key.
  pub record Passes (c : TuningCache F) (t : Tuning F) : Type 0 where
    pub reads : read_tuning c ≡ some t
    pub in_range : InRange t

  -- `problems` finds nothing exactly where the dict can be used, and then its values are in range.
  pub tuning_problems-eq-nil :
      (c : TuningCache F) → tuning_problems N c ≡ [] → (t : Tuning F) × Passes c t
  unfolding tuning_problems
  tuning_problems-eq-nil c h =
      let (h1, r1) = append-eq-nil _ _ h in
      let (h2, r2) = append-eq-nil _ _ r1 in
      let (h3, r3) = append-eq-nil _ _ r2 in
      let (h4, r4) = append-eq-nil _ _ r3 in
      let (h5, r5) = append-eq-nil _ _ r4 in
      let (h6, r6) = append-eq-nil _ _ r5 in
      let (h7, r7) = append-eq-nil _ _ r6 in
      let (h8, r8) = append-eq-nil _ _ r7 in
      let (h9, h10) = append-eq-nil _ _ r8 in
      let (v1, e1, p1) =
        check_bound-eq-nil "llm_request_timeout_seconds" (positive N) c.llm_request_timeout_seconds
          h1 in
      let (v2, e2, p2) =
        check_bound-eq-nil "dispatcher_default_retry_after_seconds" (le zero_f)
          c.default_retry_after_seconds h2 in
      let (v3, e3, p3) =
        check_bound-eq-nil "dispatcher_failure_base_backoff_seconds" (le zero_f)
          c.failure_base_backoff_seconds h3 in
      let (v4, e4, p4) =
        check_bound-eq-nil "dispatcher_failure_max_backoff_seconds" (positive N)
          c.failure_max_backoff_seconds h4 in
      let (v5, e5, p5) =
        check_bound-eq-nil "dispatcher_max_failure_attempts" at_least_one c.max_failure_attempts
          h5 in
      let (v6, e6, p6) =
        check_bound-eq-nil "dispatcher_max_notice_post_attempts" at_least_one
          c.max_notice_post_attempts h6 in
      let (v7, e7, p7) =
        check_bound-eq-nil "dispatcher_min_retry_after_seconds" (le zero_f)
          c.min_retry_after_seconds h7 in
      let (v8, e8, p8) =
        check_bound-eq-nil "dispatcher_backoff_jitter_seconds" (le zero_f) c.backoff_jitter_seconds
          h8 in
      let (v9, e9, p9) =
        check_bound-eq-nil "dispatcher_notice_sweep_batch_size" at_least_one
          c.notice_sweep_batch_size h9 in
      let (n5, q5, g5) = int_pos v5 p5 in
      let (n6, q6, g6) = int_pos v6 p6 in
      let (n9, q9, g9) = int_pos v9 p9 in
      (
        record {
          timeout = v1;
          default_retry_after = v2;
          base = v3;
          cap = v4;
          max_failure_attempts = n5;
          max_notice_post_attempts = n6;
          min_retry_after = v7;
          jitter_max = v8;
          batch_size = n9;
        },
        record {
          reads =
              read_tuning_lem c v1 v2 v3 v4 v7 v8 v5 v6 v9 n5 n6 n9 e1 e2 e3 e4 e5 e6 e7 e8 e9 q5 q6
                q9;
          in_range = record {
            timeout_pos = ground arith;
            retry_nonneg = p2;
            base_nonneg = p3;
            cap_pos = ground arith;
            ordered = order_of v3 v4 (ap₂ (check_order le) (sym e3) (sym e4) ∙ h10);
            tries = g5;
            notices = g6;
            min_nonneg = p7;
            jitter_nonneg = p8;
            batch_pos = g9;
          };
        },
      )

  -- The bounds of a dict that `require_config` returns.
  pub require_config-InRange :
      (c : TuningCache F) (t : Tuning F) → require_config N c ≡ ready t → InRange t
  require_config-InRange c t h =
      let (clean, reads) = ready_parts c t h in
      let (t', ok) = tuning_problems-eq-nil c clean in
      subst InRange (some-injective t' t (sym ok.reads ∙ reads)) ok.in_range

  min_f-ge : (x a b : F) → le x a ≡ true → le x b ≡ true → le x (min_f N a b) ≡ true
  min_f-ge x a b h k = ground arith

  doubled-ge : (b : F) (n : ℕ) → le zero_f b ≡ true → le b (mul b (of_nat (2 ^ n))) ≡ true
  doubled-ge b n h =
      subst (λ x. le x (mul b (of_nat (2 ^ n))) ≡ true) (N.mul_one b)
        (subst (λ x. le (mul b x) (mul b (of_nat (2 ^ n))) ≡ true) N.of_nat_one
          (N.mul_mono b _ _ h
            (N.of_nat_mono 1 (2 ^ n) (pow-le-pow_right (omega arith) {i = 0} (omega arith)))))

  doubled_mono :
      (b : F) (m n : ℕ)
      → le zero_f b ≡ true
      → m ≤ n
      → le (mul b (of_nat (2 ^ m))) (mul b (of_nat (2 ^ n))) ≡ true
  doubled_mono b m n h k = N.mul_mono b _ _ h (N.of_nat_mono _ _ (pow-le-pow_right (omega arith) k))

  -- The wait after the nth hard failure in a row, with the jitter j: at least the configured base
  -- and at most the configured cap, both plus j; the base plus j for n = 1; and not shorter after
  -- one more failure with the same j.
  pub record Backoff (t : Tuning F) (n : ℕ) (j : F) : Type 0 where
    pub at_least : le (add t.base j) (compute_backoff N n j t) ≡ true
    pub at_most : le (compute_backoff N n j t) (add t.cap j) ≡ true
    pub first : compute_backoff N 1 j t ≡ add t.base j
    pub grows : le (compute_backoff N n j t) (compute_backoff N (n + 1) j t) ≡ true

  -- With a tuning dict that `require_config` returns, the wait after the nth hard failure lies
  -- between the base and the cap, is the base after the first, and never shrinks, each plus the
  -- jitter, for n from 1 to 1023, where the power of two is a float.
  pub compute_backoff_lem :
      (c : TuningCache F) (t : Tuning F) (n : ℕ) (j : F)
      → require_config N c ≡ ready t
      → 1 ≤ n
      → n ≤ 1023
      → Backoff t n j
  unfolding compute_backoff
  compute_backoff_lem c t n j h from to =
      let r = require_config-InRange c t h in
      record {
        at_least =
            N.add_mono _ _ j
              (min_f-ge t.base _ t.cap (doubled-ge t.base (n - 1) r.base_nonneg) r.ordered);
        at_most = N.add_mono _ _ j (min_f-le-right N _ t.cap);
        first = ap (λ x. add x j) (first_min t.base t.cap r.ordered);
        grows = N.add_mono _ _ j (
            min_f_mono N _ _ t.cap
              (doubled_mono t.base (n - 1) (n + 1 - 1) r.base_nonneg (omega arith)));
      }
    where
      first_min : (b m : F) → le b m ≡ true → min_f N (mul b (of_nat 1)) m ≡ b
      first_min b m k = ground (arith, N.of_nat_one, N.mul_one b)

  -- With a tuning dict that `require_config` returns, the jitter lies between zero and the
  -- configured maximum, wherever `random.uniform(0, m)` does.
  pub jitter-in_range :
      (c : TuningCache F) (t : Tuning F) (draw : F → F)
      → require_config N c ≡ ready t
      → ((m : F) → le zero_f m ≡ true → (le zero_f (draw m) ≡ true) × (le (draw m) m ≡ true))
      → (le zero_f (jitter N draw t) ≡ true) × (le (jitter N draw t) t.jitter_max ≡ true)
  unfolding jitter
  jitter-in_range c t draw h d =
      let r = require_config-InRange c t h in
      let (d1, d2) = d t.jitter_max r.jitter_nonneg in
      ground (arith, N.le_refl zero_f, r.jitter_nonneg)
