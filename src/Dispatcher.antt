-- ===== src/Dispatcher.antt =====
-- review_queue/dispatcher.py: `process_next_due` with the caches that it refreshes.
-- The process and the tickets table are a `Service`; what the calls of one step return or raise is
-- an `Answers`. Each stage takes the service and gives the next one, with how the step ended.
-- Other transactions on the table may commit while a review runs (`others`). The statements of the
-- step on the tickets table do not fail here; the reads of the configuration may.
pub mod Step
mod Rests
pub mod Keeps
pub mod Retry
pub mod Blocks
pub mod Wait
pub mod Notices
pub mod Swept
mod Tests
use pr_review_bot.Prelude.{
  ℕ, ◌+◌, String, Bool, true, false, not, ◌&&◌, Option, none, some, List, [], ◌∷◌, ◌++◌,
  if◌then◌else◌, ltb, ◌==◌, str_eq, is_some, ℤ, pos, negsuc, select,
}
use pr_review_bot.Number.{Number}
use pr_review_bot.Status.{Reason}
use pr_review_bot.Cooldown.{CooldownCache, unset_cooldown}
use pr_review_bot.Tuning.{TuningCache, unset_tuning}
use pr_review_bot.UsageCap.{ClockTime, UsageCapCache, unset_caps, Review}
use pr_review_bot.Tickets.{Table}

-- A row of the `slot_config` table.
pub record SlotConfig : Type 0 where
  pub provider : String
  pub slot : ℕ
  pub model : Option String
  pub vertex_gcp_project : Option String
  pub vertex_gcp_location : Option String

-- The calls that leave the process, for a repository and a pull request.
pub data Call : Type 0 where
  posts_placeholder : String → ℕ → Reason → Call
  clears_notice : String → ℕ → Call
  reviews : String → ℕ → Call
  verifies_installation : Call
  appends_footnote : String → ℕ → ℕ → Call
  posts_failure : String → ℕ → ℕ → Call

-- The tickets table, the caches of providers/ and review_queue/, the block map, and the calls made,
-- oldest first.
pub record Service (F : Type 0) : Type 0 where
  pub table : Table
  pub provider : String
  pub cooldown : CooldownCache F
  pub key_overrides : String → Option ℤ
  pub models : List SlotConfig
  pub vertex_slots : List SlotConfig
  pub caps : UsageCapCache
  pub draft : Option Bool
  pub tuning : TuningCache F
  pub blocked_until : String → Option ℕ
  pub calls : List Call

-- What `attempt_review` returns or raises.
pub data Outcome (F : Type 0) : Type 0 where
  completed : Option ℕ → Outcome F
  rate_limited : F → Outcome F
  skipped : Outcome F
  crashed : String → Outcome F

-- What the check of the installation finds: `_installation_confirmed_invalid` tells a determination
-- from a check that itself failed.
pub data Installation : Type 0 where
  still_valid confirmed_invalid inconclusive : Installation

-- The answers of one step; `none` is an exception. A comment is its id, or none where the call
-- returns None.
pub record Answers (F : Type 0) : Type 0 where
  pub now : ℕ
  pub locked : ℕ → Bool
  pub provider_row : Option (Option String)
  pub cooldown_row : Option (CooldownCache F)
  pub key_rows : Option (String → Option ℤ)
  pub slot_rows : Option (List SlotConfig)
  pub caps_row : Option UsageCapCache
  pub draft_row : Option (Option Bool)
  pub tuning_row : Option (TuningCache F)
  pub from_iso : String → Option ClockTime
  pub review_rows : Option (List Review)
  pub outcome : Outcome F
  pub others : Table → Table
  pub installation : Installation
  pub placeholder : Option (Option ℕ)
  pub cleared : Option (Option ℕ)
  pub notice : Option (Option ℕ)
  pub draw : F → F

-- `StepResult`, or an exception that leaves the step, or the end of the process.
pub data Ended : Type 0 where
  idle : Ended
  ran : ℕ → Ended
  put_off : ℕ → Ended
  gave_up : ℕ → Ended
  dropped : ℕ → Ended
  raised : ℕ → Ended
  exited : ℕ → Ended

-- The cache after a refresh: the row read, or the reset value where reading raised.
abbrev pub cached : {A : Type 0} → A → Option A → A
cached reset none = reset
cached reset (some row) = row

-- `value or ""`
abbrev pub provider_cache : Option (Option String) → String
provider_cache row = cached "" (cached none row)

-- `if config["model"]`: neither NULL nor empty.
abbrev pub has_model : SlotConfig → Bool
has_model c = elim c.model [ none ↦ false | some m ↦ not (str_eq m "") ]

abbrev pub is_vertex : SlotConfig → Bool
is_vertex c = str_eq c.provider "vertex"

-- The refreshes at the start of a step, in the source's order.
unfoldable pub refreshed : {F : Type 0} → Answers F → Service F → Service F
refreshed e s = record s {
  provider = provider_cache e.provider_row;
  cooldown = cached unset_cooldown e.cooldown_row;
  key_overrides = cached (λ _. none) e.key_rows;
  models = select has_model (cached [] e.slot_rows);
  vertex_slots = select is_vertex (cached [] e.slot_rows);
  caps = cached unset_caps e.caps_row;
  draft = cached none e.draft_row;
  tuning = cached unset_tuning e.tuning_row;
}

-- A missing or negative index is slot 0.
abbrev pub active_key_index : (String → Option ℤ) → String → ℕ
active_key_index overrides provider = elim (overrides provider) [
  | none ↦ 0
  | some (pos i) ↦ i
  | some (negsuc i) ↦ 0
]

-- The model of a slot, or none where nothing usable is configured.
unfoldable pub active_model : List SlotConfig → String → ℕ → Option String
active_model [] provider index = none
active_model (c ∷ cs) provider index =
    if str_eq c.provider provider && c.slot == index
    then c.model
    else active_model cs provider index

-- `project if project else None`
abbrev non_empty : Option String → Option String
non_empty none = none
non_empty (some text) = if str_eq text "" then none else some text

-- The project and the location of a Vertex slot.
unfoldable pub active_vertex_project : List SlotConfig → ℕ → Option String
active_vertex_project [] index = none
active_vertex_project (c ∷ cs) index =
    if c.slot == index then non_empty c.vertex_gcp_project else active_vertex_project cs index

unfoldable pub active_vertex_location : List SlotConfig → ℕ → Option String
active_vertex_location [] index = none
active_vertex_location (c ∷ cs) index =
    if c.slot == index then non_empty c.vertex_gcp_location else active_vertex_location cs index
