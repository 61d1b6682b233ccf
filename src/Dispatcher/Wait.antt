-- ===== src/Dispatcher/Wait.antt =====
-- The block map of the dispatcher over the steps of a run.
use pr_review_bot.Prelude.{List, [], ◌∷◌}
use pr_review_bot.Number.{Number}
use pr_review_bot.Tuning.{Tuning}
use pr_review_bot.Dispatcher.{Service, Answers}
use pr_review_bot.Dispatcher.Step.{process_next_due}

module _ (N : Number) where
  open N use {F, le, after}

  -- The steps of the dispatcher one after the other.
  abbrev pub run_steps : List (Answers F) → Service F → Service F
  run_steps [] s = s
  run_steps (e ∷ es) s = run_steps es (process_next_due N e s).1
