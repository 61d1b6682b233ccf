-- ===== src/Dispatcher/Tests.antt =====
-- Steps of the dispatcher on one ticket, and the theorems at them.
use pr_review_bot.Prelude.{inl, inr, ℕ, ◌≡◌, refl, true, false, Option, none, some, [], ◌∷◌, arith}
use pr_review_bot.Number.Natural.{natural}
use pr_review_bot.Status.{running, deferred}
use pr_review_bot.Cooldown.{unset_cooldown, effective_cooldown, cooldown_problems, escalated}
use pr_review_bot.Tuning.{unset_tuning, require_config, tuning_problems, read_tuning}
use pr_review_bot.Tuning.Tests.{sample_cache}
use pr_review_bot.UsageCap.{unset_caps, effective_caps}
use pr_review_bot.Tickets.Rows.{Ticket, find_where, update_where}
use pr_review_bot.Tickets.{Table, get_ticket}
use pr_review_bot.Tickets.Enqueue.{fresh_ticket}
use pr_review_bot.Tickets.Claim.{claim_next_due, notice_due}
use pr_review_bot.Tickets.Invariant.{IsValid}
use pr_review_bot.Dispatcher.{Service, completed, still_valid, Answers, ran, raised, refreshed}
use pr_review_bot.Dispatcher.Step.{process_next_due}
use pr_review_bot.Dispatcher.Rests.{still_running}
use pr_review_bot.Dispatcher.Keeps.{Good, process_next_due-Good}
use pr_review_bot.Dispatcher.Swept.{IsSettled, post_all_settles}
use pr_review_bot.Dispatcher.Notices.{post_all, post_notice, post_notice_once}

abbrev waiting : Ticket
waiting = fresh_ticket 1 "octo/app" 7 (some "aaa") "groq" 100

abbrev queue : Table
queue = record { rows = waiting ∷ []; next_id = 2 }

abbrev service : Service ℕ
service = record {
  table = queue;
  provider = "";
  cooldown = unset_cooldown;
  key_overrides = λ _. none;
  models = [];
  vertex_slots = [];
  caps = unset_caps;
  draft = none;
  tuning = unset_tuning;
  blocked_until = λ _. none;
  calls = [];
}

-- Every read succeeds, the review is posted as comment 55, and no one else writes.
abbrev answers : Answers ℕ
answers = record {
  now = 1000;
  locked = λ _. false;
  provider_row = some (some "groq");
  cooldown_row = some (record { base = some 60; cap = some 3600; factor = some 2 });
  key_rows = some (λ _. none);
  slot_rows = some [];
  caps_row = some unset_caps;
  draft_row = some none;
  tuning_row = some sample_cache;
  from_iso = λ _. none;
  review_rows = some [];
  outcome = completed (some 55);
  others = λ u. u;
  installation = still_valid;
  placeholder = some (some 44);
  cleared = none;
  notice = none;
  draw = λ m. m;
}

-- The ticket that a claim at 1000 returns, and the service then.
abbrev claimed_row : Ticket
claimed_row = record waiting { status = running; updated_at = 1000 }

abbrev claimed_service : Service ℕ
claimed_service = record service {
  table = record { rows = claimed_row ∷ []; next_id = 2 };
  provider = "groq";
}

-- A completed review ends the ticket; where the cooldown could not be read, the step raises after
-- the review was posted and the ticket keeps running.
completes : (process_next_due natural answers service).0 ≡ ran 1
unfolding process_next_due require_config tuning_problems read_tuning refreshed claim_next_due
    effective_caps effective_cooldown cooldown_problems escalated
completes = refl

without_cooldown :
    ((process_next_due natural (record answers { cooldown_row = none }) service).0 ≡ raised 1)
    × (still_running
          (process_next_due natural (record answers { cooldown_row = none }) service).1.table
          1
        ≡ true)
unfolding process_next_due require_config tuning_problems read_tuning refreshed claim_next_due
    effective_caps effective_cooldown cooldown_problems still_running get_ticket find_where
    update_where
without_cooldown = (refl, refl)

queue-IsValid : IsValid queue
unfolding find_where
queue-IsValid = record {
  fresh = omega arith;
  unique_id = (refl, tt);
  unique_key = (refl, tt);
  sound = (record { flag = omega arith; level = omega arith; dated = refl }, tt);
}

process_next_due-Good_example : Good natural (process_next_due natural answers service)
process_next_due-Good_example =
    process_next_due-Good natural answers service queue-IsValid (λ u v. v)

-- Two later steps, both before the provider is to be asked again.
abbrev later_answers : ℕ → Answers ℕ
later_answers n = record answers { now = n }

-- A reviewed ticket that waits for 5000, and the sweep that posts its notice as comment 9.
abbrev reviewed_row : Ticket
reviewed_row = record waiting {
  status = deferred;
  not_before = some 5000;
  last_reviewed_at = some 500;
}

abbrev reviewed_table : Table
reviewed_table = record { rows = reviewed_row ∷ []; next_id = 2 }

abbrev appended : ℕ → Option (Option ℕ)
appended _ = some (some 9)

reviewed_found : get_ticket reviewed_table 1 ≡ some reviewed_row
unfolding get_ticket find_where
reviewed_found = refl

reviewed_posted : (post_notice appended reviewed_row reviewed_table).0 ≡ true
unfolding post_notice
reviewed_posted = refl

post_notice_once_example :
    (u : Ticket) × (get_ticket (post_notice appended reviewed_row reviewed_table).1 1 ≡ some u)
    × ((now : ℕ) → notice_due now u ≡ false)
post_notice_once_example =
    post_notice_once appended reviewed_row reviewed_row reviewed_table reviewed_found refl
      reviewed_posted

reviewed_table-IsValid : IsValid reviewed_table
unfolding find_where
reviewed_table-IsValid = record {
  fresh = omega arith;
  unique_id = (refl, tt);
  unique_key = (refl, tt);
  sound = (record { flag = omega arith; level = omega arith; dated = refl }, tt);
}

-- A second ticket that waits, and a third that the sweep does not read.
abbrev second_row : Ticket
second_row = record reviewed_row { id = 2; pr_number = 8 }

abbrev swept_table : Table
swept_table = record {
  rows = reviewed_row ∷ second_row ∷ record waiting { id = 3; pr_number = 9 } ∷ [];
  next_id = 4;
}

second_found : get_ticket swept_table 2 ≡ some second_row
unfolding get_ticket find_where
second_found = refl

post_all_settles_example :
    IsSettled appended second_row second_row
      (post_all appended (reviewed_row ∷ second_row ∷ []) swept_table).1
    × (get_ticket (post_all appended (reviewed_row ∷ second_row ∷ []) swept_table).1 3
        ≡ get_ticket swept_table 3)
post_all_settles_example =
    post_all_settles appended (reviewed_row ∷ second_row ∷ []) second_row second_row swept_table 3
      ((refl, tt), (tt, tt)) (inr (inl refl)) second_found refl (refl, (refl, tt))
