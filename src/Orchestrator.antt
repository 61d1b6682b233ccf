-- ===== src/Orchestrator.antt =====
-- The review: providers/validate.py, specialists/base.py and orchestrator.py. The provider's answers
-- are a parameter, by the number of the call and the system prompt; a call that leaves the process
-- is an `Effect`.
pub mod Attempt
pub mod Calls
pub mod Merging
pub mod Waits
mod Tests
use pr_review_bot.Prelude.{
  ℕ, zero, suc, ◌+◌, Bool, true, false, not, Option, none, some, List, [], ◌∷◌, ◌++◌, if◌then◌else◌,
  Text, codes,
}
use pr_review_bot.Formatting.{Finding, Specialist, SpecialistResult, SpecialistStatus, ok, failed}

-- An exception: `RateLimited`, or another with what `str` shows of it.
pub data Exception (F : Type 0) : Type 0 where
  rate_limit : F → Exception F
  other_error : Text → Exception F

pub data Result (F A : Type 0) : Type 0 where
  returned : A → Result F A
  raised : Exception F → Result F A

-- `LLMResponse`; `parsed` has the findings of the container.
pub record Response : Type 0 where
  pub parsed : Option (List Finding)
  pub tokens_in : ℕ
  pub tokens_out : ℕ

-- `provider.complete`: the answer to a call, by its number and its system prompt.
abbrev pub Complete : Type 0 → Type 0
Complete F = ℕ → Text → Result F Response

pub record ValidatedResult : Type 0 where
  pub is_ok : Bool
  pub parsed : Option (List Finding)
  pub tokens_in : ℕ
  pub tokens_out : ℕ
  pub error : Option Text

abbrev pub repair_instruction : Text
repair_instruction =
    codes
      "\n\nReturn ONLY valid JSON matching the given schema. No prose, no markdown code fences, no other text."

-- The system prompts that were sent, oldest first, and what the function returns or raises.
abbrev pub Traced : Type 0 → Type 0 → Type 0
Traced F A = List Text × Result F A

-- The result of the second call.
abbrev repaired : Response → Response → ValidatedResult
repaired first second = elim second.parsed [
  | some fs ↦ record {
    is_ok = true;
    parsed = some fs;
    tokens_in = first.tokens_in + second.tokens_in;
    tokens_out = first.tokens_out + second.tokens_out;
    error = none;
  }
  | none ↦ record {
    is_ok = false;
    parsed = none;
    tokens_in = first.tokens_in + second.tokens_in;
    tokens_out = first.tokens_out + second.tokens_out;
    error = some (codes "model output failed schema validation after one repair retry");
  }
]

-- `error or "..."`: neither None nor empty.
abbrev or_message : Option Text → Text
or_message none = codes "specialist produced no usable output"
or_message (some []) = codes "specialist produced no usable output"
or_message (some (c ∷ cs)) = c ∷ cs

-- The envelope of a specialist that failed.
abbrev pub failed_result : Specialist → Text → (ms tin tout : ℕ) → SpecialistResult
failed_result name error ms tin tout = record {
  name = name;
  status = failed;
  findings = [];
  error = some error;
  elapsed_ms = ms;
  tokens_in = tin;
  tokens_out = tout;
}

abbrev pub envelope : Specialist → ℕ → ValidatedResult → SpecialistResult
envelope name ms v =
    let rejected = failed_result name (or_message v.error) ms v.tokens_in v.tokens_out in
    if not v.is_ok then rejected else elim v.parsed [
      | none ↦ rejected
      | some fs ↦ record {
        name = name;
        status = ok;
        findings = fs;
        error = none;
        elapsed_ms = ms;
        tokens_in = v.tokens_in;
        tokens_out = v.tokens_out;
      }
    ]

module _ {F : Type 0} where
  abbrev pub after_repair : Response → Result F Response → Result F ValidatedResult
  after_repair first (raised e) = raised e
  after_repair first (returned second) = returned (repaired first second)

  abbrev pub after_first : Complete F → Text → Result F Response → Traced F ValidatedResult
  after_first complete system (raised e) = (system ∷ [], raised e)
  after_first complete system (returned first) = elim first.parsed [
    | some fs ↦ (
      system ∷ [],
      returned (record {
        is_ok = true;
        parsed = some fs;
        tokens_in = first.tokens_in;
        tokens_out = first.tokens_out;
        error = none;
      }),
    )
    | none ↦ (
      system ∷ (system ++ repair_instruction) ∷ [],
      after_repair first (complete 1 (system ++ repair_instruction)),
    )
  ]

  unfoldable pub validate_and_repair : Complete F → Text → Traced F ValidatedResult
  validate_and_repair complete system = after_first complete system (complete 0 system)

  -- What the `try` of `run_specialist` makes of the validation.
  abbrev pub caught : Specialist → ℕ → Result F ValidatedResult → Result F SpecialistResult
  caught name ms (returned v) = returned (envelope name ms v)
  caught name ms (raised (rate_limit r)) = raised (rate_limit r)
  caught name ms (raised (other_error t)) = returned (failed_result name t ms 0 0)

  -- `get_provider` gives the provider or raises.
  unfoldable pub run_specialist :
      (get_provider : Result F (Complete F))
      → Specialist
      → (system : Text) (ms : ℕ) → Traced F SpecialistResult
  unfolding validate_and_repair
  run_specialist (raised e) name system ms = ([], caught name ms (raised e))
  run_specialist (returned complete) name system ms =
      let (sent, v) = validate_and_repair complete system in (sent, caught name ms v)
