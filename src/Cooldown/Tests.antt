-- ===== src/Cooldown/Tests.antt =====
-- The cooldown of a minute that doubles up to an hour, and the theorems at it.
use pr_review_bot.Prelude.{
  ℕ, ◌+◌, ◌*◌, ◌≤◌, ◌<◌, ◌≡◌, ◌≢◌, refl, ◌⊎◌, none, some, [], true, leb, arith,
}
use pr_review_bot.Number.Natural.{natural}
use pr_review_bot.Status.{pending, deferred}
use pr_review_bot.Cooldown.{
  CooldownCache, effective_cooldown, cooldown_problems, escalated, due_after_cooldown,
  next_cooldown_level,
}
use pr_review_bot.Cooldown.Laws.{
  IsUsable, IsWait, IsEscalated, effective_cooldown_lem, effective_cooldown_mono,
  due_after_cooldown_lem,
}

abbrev doubling : CooldownCache ℕ
doubling = record { base = some 60; cap = some 3600; factor = some 2 }

doubling_waits :
    (effective_cooldown natural doubling 0 ≡ some 60)
    × (effective_cooldown natural doubling 3 ≡ some 480)
    × (effective_cooldown natural doubling 40 ≡ some 3600)
unfolding effective_cooldown cooldown_problems escalated
doubling_waits = (refl, refl, refl)

inverted :
    effective_cooldown natural (record { base = some 60; cap = some 30; factor = some 2 }) 0 ≡ none
unfolding effective_cooldown cooldown_problems
inverted = refl

doubling-IsUsable : IsUsable natural doubling 60 3600 2
doubling-IsUsable = record {
  has_base = refl;
  has_cap = refl;
  has_factor = refl;
  base_nonneg = refl;
  cap_pos = refl;
  factor_ge_one = refl;
  ordered = refl;
}

effective_cooldown_lem_example :
    ((base : ℕ) × (cap : ℕ) × (factor : ℕ) × IsUsable natural doubling base cap factor
      × (effective_cooldown natural doubling 0 ≡ some base)
      × ((i : ℕ) → IsWait natural doubling base cap factor i))
    ⊎ ((cooldown_problems natural doubling ≢ [])
        × ((i : ℕ) → effective_cooldown natural doubling i ≡ none))
effective_cooldown_lem_example = effective_cooldown_lem natural doubling

effective_cooldown_mono_example : leb 480 3600 ≡ true
effective_cooldown_mono_example =
    effective_cooldown_mono natural doubling 3 40 (omega arith) (doubling_waits.1)
      (doubling_waits.2)

due_after_cooldown_lem_example :
    IsEscalated natural 60 3600 2 3 480
    × (((90 + 480 * 1000000 ≤ 300)
          × (due_after_cooldown natural doubling (some 90) 300 3 ≡ some (pending, none, 0)))
        ⊎ ((300 < 90 + 480 * 1000000)
            × (due_after_cooldown natural doubling (some 90) 300 3
                ≡ some (deferred, some (90 + 480 * 1000000), next_cooldown_level 3))
            × (90 + 60 * 1000000 ≤ 90 + 480 * 1000000)
            × (90 + 480 * 1000000 ≤ 90 + 3600 * 1000000)))
due_after_cooldown_lem_example =
    due_after_cooldown_lem natural doubling 90 300 3 480 doubling-IsUsable (doubling_waits.1)
