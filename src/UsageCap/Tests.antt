-- ===== src/UsageCap/Tests.antt =====
-- The usage window and the accounting on concrete values.
use pr_review_bot.Prelude.{◌+◌, ◌%◌, ◌≤◌, ◌<◌, ◌≡◌, refl, arith, none, some, [], ◌∷◌, pos}
use pr_review_bot.Problem.{out_of_range}
use pr_review_bot.UsageCap.{
  naive, effective_caps, cap_problems, day, usage_bucket_start, record_review, get_key_usage,
}
use pr_review_bot.UsageCap.Laws.{usage_bucket_start_lem}

zero_cap :
    (effective_caps (λ _. some (naive 5)) (record { tokens = some (pos 0); reset = some "00:00" })
      ≡ (none, some (naive 5)))
    × (cap_problems (λ _. some (naive 5)) (record { tokens = some (pos 0); reset = some "00:00" })
        ≡ out_of_range "key_usage_token_cap" ∷ [])
unfolding effective_caps cap_problems
zero_cap = (refl, refl)

counted :
    get_key_usage (record_review (record_review [] "groq" 10 5 100 0) "groq" 7 1 200 1) "groq" 0 100
    ≡ 15
unfolding get_key_usage
counted = refl

usage_bucket_start_lem_example :
    (usage_bucket_start 90000000000 7200000000 ≤ 90000000000)
    × (90000000000 < usage_bucket_start 90000000000 7200000000 + day)
    × (usage_bucket_start 90000000000 7200000000 % day ≡ 7200000000)
usage_bucket_start_lem_example =
    usage_bucket_start_lem 90000000000 7200000000 (omega arith) (omega arith)
