-- ===== src/Orchestrator/Tests.antt =====
-- The theorems at concrete reviews.
use pr_review_bot.Prelude.{
  inl, ℕ, zero, suc, ◌≤◌, ◌≡◌, refl, true, false, none, some, [], ◌++◌, ◌⊎◌, codes, length, leb,
  is_space, rstrip, decimal,
}
use pr_review_bot.Number.Natural.{natural}
use pr_review_bot.Formatting.{security, performance, code_quality, SpecialistResult, ok, lstrip}
use pr_review_bot.Orchestrator.{
  rate_limit, other_error, Result, returned, raised, Complete, run_specialist,
}
use pr_review_bot.Orchestrator.Calls.{
  spent, run_specialist-spent, IsAnswer, run_specialist-IsAnswer,
}
use pr_review_bot.Orchestrator.Attempt.{
  PrDiff, Inputs, AttemptEnd, review_rate_limited, migrated, attempt_review,
}
use pr_review_bot.Orchestrator.Waits.{attempt_review_limited}
use pr_review_bot.Orchestrator.Merging.{comments, IsComplete, attempt_review_atomic}

-- A provider whose first output is unusable and whose second is not.
abbrev unsure : Complete ℕ
unsure zero system = returned (record { parsed = none; tokens_in = 100; tokens_out = 7 })
unsure (suc n) system = returned (record { parsed = some []; tokens_in = 120; tokens_out = 9 })

run_specialist-IsAnswer_example :
    (length (run_specialist (returned unsure) security (codes "s") 5).0 ≤ 2)
    × IsAnswer (run_specialist (returned unsure) security (codes "s") 5).1
run_specialist-IsAnswer_example = run_specialist-IsAnswer (returned unsure) security (codes "s") 5

abbrev diff : PrDiff
diff = record { text = codes "x"; repo_full_name = codes "o/r"; draft = false }

abbrev fine : SpecialistResult
fine = record {
  name = security;
  status = ok;
  findings = [];
  error = none;
  elapsed_ms = 3;
  tokens_in = 10;
  tokens_out = 2;
}

-- Security succeeds, and the other two do as they are told.
abbrev told : Result ℕ SpecialistResult → Result ℕ SpecialistResult → Inputs ℕ ℕ
told second third = record {
  fetched = returned diff;
  review_drafts = none;
  annotate = λ t. record { text = t; truncated = false };
  tuning_error = none;
  run = λ name text. elim name [
    | security ↦ returned fine
    | performance ↦ second
    | code_quality ↦ third
  ];
  active = codes "groq";
  model = some (codes "m");
  cost = λ p m i o. none;
  elapsed_ms = 900;
  upserted = returned 44;
  seconds = decimal;
  dollars = decimal;
}

abbrev busy : Inputs ℕ ℕ
busy = told (raised (rate_limit 30)) (raised (rate_limit 70))

abbrev halved : Inputs ℕ ℕ
halved = told (raised (other_error (codes "down"))) (returned fine)

attempt_review_limited_example :
    (w : ℕ) × (attempt_review natural busy decimal (codes "o/r") 4 none
      ≡ (migrated natural busy decimal (codes "o/r") diff, returned (review_rate_limited w)))
    × (leb 70 w ≡ true)
unfolding lstrip is_space rstrip
attempt_review_limited_example =
    attempt_review_limited natural busy decimal (codes "o/r") 4 none diff 120 [] code_quality 70
      refl (inl refl) refl refl refl

attempt_review_atomic_example :
    (comments natural halved decimal (attempt_review natural halved decimal (codes "o/r") 4 none).0
      ≡ 0)
    ⊎ ((d : PrDiff) × (x : AttemptEnd natural halved decimal) × (halved.fetched ≡ returned d)
        × IsComplete natural halved decimal 4 (halved.annotate d.text) none x
        × (attempt_review natural halved decimal (codes "o/r") 4 none
            ≡ (migrated natural halved decimal (codes "o/r") d ++ x.0, x.1)))
attempt_review_atomic_example =
    attempt_review_atomic natural halved decimal (codes "o/r") 4 none 44 refl

-- With one specialist down and the others fine, one comment is posted.
one_comment :
    comments natural halved decimal (attempt_review natural halved decimal (codes "o/r") 4 none).0
    ≡ 1
unfolding attempt_review rstrip lstrip is_space
one_comment = refl

run_specialist-spent_example :
    (v : SpecialistResult) × ((run_specialist (returned unsure) security (codes "s") 5).1
      ≡ returned v)
    × (v.tokens_in
        ≡ spent
            (λ r. r.tokens_in)
            unsure
            0
            (run_specialist (returned unsure) security (codes "s") 5).0)
    × (v.tokens_out
        ≡ spent
            (λ r. r.tokens_out)
            unsure
            0
            (run_specialist (returned unsure) security (codes "s") 5).0)
run_specialist-spent_example =
    run_specialist-spent unsure security (codes "s") 5
      (record { parsed = none; tokens_in = 100; tokens_out = 7 })
      (record { parsed = some []; tokens_in = 120; tokens_out = 9 }) refl refl
