-- ===== src/Cooldown.antt =====
-- review_queue/cooldown_config.py, and the cooldown helpers of review_queue/store.py
-- (effective_cooldown, next_cooldown_level, _due_after_cooldown).
-- A call that raises (a TypeError on None, or an OverflowError of the power) is `none`.
pub mod Laws
mod Tests
use pr_review_bot.Prelude.{
  ℕ, zero, ◌+◌, ◌<◌, min, Bool, true, false, Option, none, some, List, [], ◌∷◌, ◌++◌, if◌then◌else◌,
  ltb,
}
use pr_review_bot.Number.{Number}
use pr_review_bot.Problem.{Problem, check_bound, check_order}
use pr_review_bot.Status.{Status, pending, deferred}

-- The cached triple; a field is `none` when its column is NULL or nothing was refreshed yet.
pub record CooldownCache (F : Type 0) : Type 0 where
  pub base : Option F
  pub cap : Option F
  pub factor : Option F

abbrev pub unset_cooldown : {F : Type 0} → CooldownCache F
unset_cooldown = record { base = none; cap = none; factor = none }

abbrev pub max_cooldown_level : ℕ
max_cooldown_level = 30

-- Level for the next re-review after a churn re-review.
abbrev pub next_cooldown_level : ℕ → ℕ
next_cooldown_level level = min (level + 1) max_cooldown_level

module _ (N : Number) where
  open N use {F, le, zero_f, one_f, mul, pow, after}

  -- `max(a, b)` and `min(a, b)` of Python: the first argument unless the second is strictly
  -- larger, or smaller.
  abbrev pub max_f : F → F → F
  max_f a b = if le b a then a else b

  abbrev pub min_f : F → F → F
  min_f a b = if le a b then a else b

  -- `v > 0` is `not (v <= 0)`.
  abbrev pub positive : F → Bool
  positive v = if le v zero_f then false else true

  unfoldable pub cooldown_problems : CooldownCache F → List Problem
  cooldown_problems c =
      check_bound "cooldown_base_seconds" (le zero_f) c.base
      ++ (check_bound "cooldown_max_seconds" positive c.cap
          ++ (check_bound "cooldown_factor" (le one_f) c.factor ++ check_order le c.base c.cap))

  -- An unusable triple is discarded as a whole.
  unfoldable pub effective_config : CooldownCache F → CooldownCache F
  effective_config c = elim (cooldown_problems c) [ [] ↦ c | _ ∷ _ ↦ unset_cooldown ]

  -- The arithmetic on three present values; the power may overflow.
  unfoldable pub escalated : F → F → F → ℕ → Option F
  escalated base cap factor level = elim (pow factor (min level max_cooldown_level)) [
    | none ↦ none
    | some p ↦ some (max_f base (min_f (mul base p) cap))
  ]

  abbrev escalate : Option F → Option F → Option F → ℕ → Option F
  escalate (some base) (some cap) (some factor) level = escalated base cap factor level
  escalate _ _ _ level = none

  -- Arithmetic on None raises, so there is no result while the triple is not usable.
  unfoldable pub effective_cooldown : CooldownCache F → ℕ → Option F
  unfolding effective_config
  effective_cooldown c level = let e = effective_config c in escalate e.base e.cap e.factor level

  abbrev rearm_at : ℕ → ℕ → ℕ → Status × Option ℕ × ℕ
  rearm_at now level due =
      if ltb now due then (deferred, some due, next_cooldown_level level) else (pending, none, 0)

  -- Re-arm state, next `not_before` and next escalation level.
  unfoldable pub due_after_cooldown :
      CooldownCache F → Option ℕ → ℕ → ℕ → Option (Status × Option ℕ × ℕ)
  due_after_cooldown c none now level = some (pending, none, 0)
  due_after_cooldown c (some last_reviewed_at) now level = elim (effective_cooldown c level) [
    | none ↦ none
    | some wait ↦ some (rearm_at now level (after last_reviewed_at wait))
  ]
