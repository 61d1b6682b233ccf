-- ===== src/Demo/Tests.antt =====
-- Runs of the demo's store, and the theorems at them.
use pr_review_bot.Prelude.{suc, ◌≡◌, refl, none, some, List, [], ◌∷◌, map, arith}
use pr_review_bot.Status.{done}
use pr_review_bot.Tickets.Rows.{Ticket}
use pr_review_bot.Demo.{
  Context, DemoStore, enqueue_demo, claim_demo, record_review_demo, new_review, dashboard_reviews,
  trim,
}
use pr_review_bot.Demo.Finish.{
  DemoCall, enqueues, claims, records, finalizes, history, empty_store, finalize_demo,
}
use pr_review_bot.Demo.Caps.{IsBounded, history-IsBounded}
use pr_review_bot.Demo.Sessions.{record_review_demo_lem}

abbrev visitor : Context
visitor = record { session = some "a"; provider_choice = "groq"; model_choice = none }

abbrev busy_visit : List DemoCall
busy_visit =
    enqueues visitor "o/r" 4 (some "c1") "groq" 1
    ∷ claims 2
    ∷ enqueues visitor "o/r" 4 (some "c2") "groq" 3
    ∷ records none "o/r" 4 "groq" "m" 4
    ∷ finalizes 1 5 none
    ∷ []

-- A push that lands while the review runs is lost: the end of the review marks the ticket as done.
lost_push : map (λ (t : Ticket). t.status) (history busy_visit empty_store).tickets ≡ done ∷ []
unfolding enqueue_demo claim_demo record_review_demo finalize_demo trim
lost_push = refl

history-IsBounded_example : IsBounded (history busy_visit empty_store)
history-IsBounded_example = history-IsBounded busy_visit

abbrev reviewing : DemoStore
reviewing = record empty_store { processing = some visitor }

record_review_demo_lem_example :
    (dashboard_reviews (some "a") (suc 9) (record_review_demo none "o/r" 4 "groq" "m" 4 reviewing)
      ≡ new_review none "o/r" 4 "groq" "m" 4 reviewing ∷ dashboard_reviews (some "a") 9 reviewing)
    × (dashboard_reviews (some "b") 9 (record_review_demo none "o/r" 4 "groq" "m" 4 reviewing)
        ≡ dashboard_reviews (some "b") 9 reviewing)
record_review_demo_lem_example =
    record_review_demo_lem reviewing visitor "a" "b" "o/r" "groq" "m" 4 4 9 none refl refl refl
      (omega arith)
