-- ===== src/UsageCap.antt =====
-- review_queue/usage_cap_config.py, and the accounting of review_queue/store.py that the cap is
-- measured by (usage_bucket_start, record_review, get_key_usage).
-- `from_iso` is `time.fromisoformat`, none where it raises.
pub mod Laws
mod Tests
use pr_review_bot.Prelude.{
  ℕ, ◌+◌, ◌-◌, ◌%◌, String, Bool, true, false, ◌&&◌, Option, none, some, List, [], ◌∷◌, ◌++◌, ◌==◌,
  if◌then◌else◌, ltb, leb, str_eq, ℤ, pos, negsuc, is_some,
}
use pr_review_bot.Problem.{Problem, not_set, out_of_range}

-- A time of day in microseconds since midnight; `aware` where the text has a UTC offset.
pub data ClockTime : Type 0 where
  naive aware : ℕ → ClockTime

pub record UsageCapCache : Type 0 where
  pub tokens : Option ℤ
  pub reset : Option String

abbrev pub unset_caps : UsageCapCache
unset_caps = record { tokens = none; reset = none }

-- A cap that is not positive is no cap.
abbrev pub positive_cap : Option ℤ → Option ℕ
positive_cap none = none
positive_cap (some (negsuc n)) = none
positive_cap (some (pos n)) = if leb n 0 then none else some n

abbrev pub parsed : (String → Option ClockTime) → Option String → Option ClockTime
parsed from_iso none = none
parsed from_iso (some text) = from_iso text

-- (token cap, reset time); a reset time that does not parse discards both.
unfoldable pub effective_caps :
    (String → Option ClockTime) → UsageCapCache → Option ℕ × Option ClockTime
effective_caps from_iso c = elim (parsed from_iso c.reset) [
  | none ↦ (none, none)
  | some reset ↦ (positive_cap c.tokens, some reset)
]

abbrev pub cap_problem : Option ℤ → List Problem
cap_problem none = []
cap_problem (some (negsuc n)) = out_of_range "key_usage_token_cap" ∷ []
cap_problem (some (pos n)) = if leb n 0 then out_of_range "key_usage_token_cap" ∷ [] else []

abbrev pub reset_problem : (String → Option ClockTime) → Option String → List Problem
reset_problem from_iso none = not_set "key_usage_reset_time_utc" ∷ []
reset_problem from_iso (some text) =
    if is_some (from_iso text) then [] else out_of_range "key_usage_reset_time_utc" ∷ []

-- What the writers check.
unfoldable pub cap_problems : (String → Option ClockTime) → UsageCapCache → List Problem
cap_problems from_iso c = cap_problem c.tokens ++ reset_problem from_iso c.reset

-- Microseconds of a day; instants count from midnight of some day.
abbrev pub day : ℕ
day = 86400000000

-- The last instant with that time of day.
unfoldable pub usage_bucket_start : ℕ → ℕ → ℕ
usage_bucket_start now reset =
    let candidate = (now - now % day) + reset in
    if ltb (now % day) reset then candidate - day else candidate

-- A row of the `reviews` table, as far as the accounting reads it.
pub record Review : Type 0 where
  pub provider : String
  pub key_index : Option ℕ
  pub created_at : ℕ
  pub total_tokens_in : ℕ
  pub total_tokens_out : ℕ

-- The insert of `record_review`.
abbrev pub record_review : List Review → String → ℕ → ℕ → ℕ → ℕ → List Review
record_review rows provider tokens_in tokens_out now key_index =
    rows
    ++ (record {
      provider = provider;
      key_index = some key_index;
      created_at = now;
      total_tokens_in = tokens_in;
      total_tokens_out = tokens_out;
    }
        ∷ [])

-- `COALESCE(key_index, 0)`
abbrev pub slot_or_base : Option ℕ → ℕ
slot_or_base none = 0
slot_or_base (some i) = i

-- The WHERE of `get_key_usage`.
abbrev pub counts : String → ℕ → ℕ → Review → Bool
counts provider key_index since r =
    str_eq r.provider provider && (slot_or_base r.key_index == key_index && leb since r.created_at)

unfoldable pub get_key_usage : List Review → String → ℕ → ℕ → ℕ
get_key_usage [] provider key_index since = 0
get_key_usage (r ∷ rs) provider key_index since =
    let rest = get_key_usage rs provider key_index since in
    if counts provider key_index since r
    then r.total_tokens_in + r.total_tokens_out + rest
    else rest
