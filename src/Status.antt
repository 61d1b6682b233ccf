-- ===== src/Status.antt =====
-- The `status` column of the tickets table, the reasons of a wait, and the texts' vocabulary that
-- several parts share.
use pr_review_bot.Prelude.{Bool, true, false}

pub data Status : Type 0 where
  pending running deferred retrying done failed cancelled : Status

-- The `reason` of a placeholder or notice; the column `defer_reason` holds only `usage_cap`.
pub data Reason : Type 0 where
  provider usage_cap config : Reason

-- `status IN ('pending', 'deferred', 'retrying')`
abbrev pub is_queued : Status → Bool
is_queued pending = true
is_queued deferred = true
is_queued retrying = true
is_queued _ = false

-- `status IN ('deferred','retrying')`
abbrev pub is_waiting : Status → Bool
is_waiting deferred = true
is_waiting retrying = true
is_waiting _ = false

abbrev pub is_pending : Status → Bool
is_pending pending = true
is_pending _ = false

abbrev pub is_running : Status → Bool
is_running running = true
is_running _ = false

abbrev pub is_deferred : Status → Bool
is_deferred deferred = true
is_deferred _ = false
