-- ===== src/Orchestrator/Calls.antt =====
-- What a specialist's run sends and returns.
use pr_review_bot.Prelude.{
  ℕ, suc, ◌+◌, ◌≤◌, ◌≡◌, refl, ◌∙◌, List, [], ◌∷◌, ◌++◌, arith, ◌⊎◌, inl, inr, Text, length,
  option_cases,
}
use pr_review_bot.Formatting.{Specialist, SpecialistResult}
use pr_review_bot.Orchestrator.{
  rate_limit, other_error, Result, returned, raised, Response, Complete, ValidatedResult, Traced,
  repair_instruction, after_first, validate_and_repair, failed_result, envelope, caught,
  run_specialist, repaired,
}

-- A result, or the exception of a rate limit.
abbrev pub IsAnswer : {F : Type 0} → Result F SpecialistResult → Type 0
IsAnswer {F} x =
    ((v : SpecialistResult) × (x ≡ returned v)) ⊎ ((r : F) × (x ≡ raised (rate_limit r)))

envelope-tokens :
    (name : Specialist) (ms : ℕ) (v : ValidatedResult)
    → ((envelope name ms v).tokens_in ≡ v.tokens_in)
      × ((envelope name ms v).tokens_out ≡ v.tokens_out)
envelope-tokens name ms v = ground arith

repaired-tokens :
    (first second : Response)
    → ((repaired first second).tokens_in ≡ first.tokens_in + second.tokens_in)
      × ((repaired first second).tokens_out ≡ first.tokens_out + second.tokens_out)
repaired-tokens first second = ground arith

module _ {F : Type 0} where
  caught-IsAnswer :
      (name : Specialist) (ms : ℕ) (x : Result F ValidatedResult) → IsAnswer (caught name ms x)
  caught-IsAnswer name ms (returned v) = inl (envelope name ms v, refl)
  caught-IsAnswer name ms (raised (rate_limit r)) = inr (r, refl)
  caught-IsAnswer name ms (raised (other_error t)) = inl (failed_result name t ms 0 0, refl)

  after_first_sent :
      (complete : Complete F) (system : Text) (x : Result F Response)
      → length (after_first complete system x).0 ≤ 2
  after_first_sent complete system (raised x) = omega arith
  after_first_sent complete system (returned first) =
      option_cases (λ (t : Traced F ValidatedResult). length t.0 ≤ 2) first.parsed _ _
        (λ e. omega arith) (λ fs e. omega arith)

  -- A specialist calls the provider at most twice and returns a result, whatever the provider
  -- answers or raises, unless it raises that a rate limit was met.
  pub run_specialist-IsAnswer :
      (get_provider : Result F (Complete F)) (name : Specialist) (system : Text) (ms : ℕ)
      → (length (run_specialist get_provider name system ms).0 ≤ 2)
        × IsAnswer (run_specialist get_provider name system ms).1
  unfolding run_specialist validate_and_repair
  run_specialist-IsAnswer (raised x) name system ms =
      (omega arith, caught-IsAnswer name ms (raised x))
  run_specialist-IsAnswer (returned complete) name system ms = (
    after_first_sent complete system (complete 0 system),
    caught-IsAnswer name ms (validate_and_repair complete system).1,
  )

  -- What the answers to the prompts cost, by one of the two counts; an exception reports none.
  abbrev cost_of : (Response → ℕ) → Result F Response → ℕ
  cost_of count (returned r) = count r
  cost_of count (raised x) = 0

  abbrev pub spent : (Response → ℕ) → Complete F → ℕ → List Text → ℕ
  spent count complete n [] = 0
  spent count complete n (p ∷ ps) = cost_of count (complete n p) + spent count complete (suc n) ps

  module _ (complete : Complete F) (name : Specialist) (ms : ℕ) where
    -- The result counts what was spent on the prompts.
    abbrev pub IsAccounted : Traced F ValidatedResult → Type 0
    IsAccounted t =
        (v : SpecialistResult) × (caught name ms t.1 ≡ returned v)
        × (v.tokens_in ≡ spent (λ r. r.tokens_in) complete 0 t.0)
        × (v.tokens_out ≡ spent (λ r. r.tokens_out) complete 0 t.0)

    after_first-IsAccounted :
        (system : Text) (first second : Response)
        → complete 0 system ≡ returned first
        → complete 1 (system ++ repair_instruction) ≡ returned second
        → IsAccounted (after_first complete system (returned first))
    after_first-IsAccounted system first second h g =
        option_cases IsAccounted first.parsed _ _
          (λ e.
            let (a, b) = repaired-tokens first second in
            let (c, d) = envelope-tokens name ms (repaired first second) in
            rw (h, g)
              (
                envelope name ms (repaired first second),
                refl,
                c ∙ a ∙ omega arith,
                d ∙ b ∙ omega arith,
              ))
          (λ fs e. rw h (_, refl, omega arith, omega arith))

  -- The tokens of a result are those of all answers to the prompts that were sent, the rejected
  -- first answer included, where the provider answers each call.
  pub run_specialist-spent :
      (complete : Complete F) (name : Specialist) (system : Text) (ms : ℕ) (first second : Response)
      → complete 0 system ≡ returned first
      → complete 1 (system ++ repair_instruction) ≡ returned second
      → (v : SpecialistResult) × ((run_specialist (returned complete) name system ms).1
          ≡ returned v)
        × (v.tokens_in
            ≡ spent
                (λ r. r.tokens_in)
                complete
                0
                (run_specialist (returned complete) name system ms).0)
        × (v.tokens_out
            ≡ spent
                (λ r. r.tokens_out)
                complete
                0
                (run_specialist (returned complete) name system ms).0)
  unfolding run_specialist validate_and_repair
  run_specialist-spent complete name system ms first second h g =
      rw (h, after_first) (after_first-IsAccounted complete name ms system first second h g)
