-- ===== src/Tickets/Tests.antt =====
-- Runs of the tickets table on concrete rows, and the theorems at them.
use pr_review_bot.Prelude.{ℕ, ◌≡◌, refl, ◌≢◌, false, none, some, [], ◌∷◌, arith, ◌==◌, ◌++◌, ◌+◌}
use pr_review_bot.Number.Natural.{natural}
use pr_review_bot.Status.{failed, pending, deferred, done}
use pr_review_bot.Cooldown.{
  CooldownCache, effective_cooldown, cooldown_problems, escalated, due_after_cooldown,
}
use pr_review_bot.Tickets.Rows.{Ticket, find_where, update_where}
use pr_review_bot.Tickets.{Table, lookup, mark_failed}
use pr_review_bot.Tickets.Enqueue.{enqueue_or_update, fresh_ticket}
use pr_review_bot.Tickets.Claim.{claim_next_due, claimed, is_due}
use pr_review_bot.Tickets.Finish.{finalize_review, discard_skipped_ticket, migrate_tickets}
use pr_review_bot.Tickets.Invariant.{IsValid}
use pr_review_bot.Tickets.Invariant.Rename.{migrate_tickets-IsValid}
use pr_review_bot.Tickets.Push.{alone}
use pr_review_bot.Tickets.Push.Policy.{IsPushed, enqueue_or_update_lem}
use pr_review_bot.Prelude.{String, str_eq, ◌&&◌, ◌==◌, if◌then◌else◌}
use pr_review_bot.Tickets.Push.Running.{push_while_running, push_before_failure}
use pr_review_bot.Tickets.Queueing.{Claims, claim_next_due_lem, claim_next_due-exclusive}
use pr_review_bot.Tickets.Lifecycle.{here, next, claims, enqueues, empty_table, reachable-IsValid}

-- A minute, at most an hour, doubling.
abbrev cooldown : CooldownCache ℕ
cooldown = record { base = some 60; cap = some 3600; factor = some 2 }

abbrev first : Ticket
first = fresh_ticket 1 "octo/app" 7 (some "aaa") "groq" 100

abbrev second : Ticket
second = record (fresh_ticket 2 "octo/app" 8 none "groq" 50) {
  status = done;
  last_reviewed_at = some 90;
  cooldown_level = 3;
}

abbrev two : Table
two = record { rows = first ∷ second ∷ []; next_id = 3 }

abbrev run_first : Table
run_first = record { rows = claimed 200 first ∷ second ∷ []; next_id = 3 }

two-IsValid : IsValid two
unfolding find_where
two-IsValid = record {
  fresh = omega arith;
  unique_id = (refl, (refl, tt));
  unique_key = (refl, (refl, tt));
  sound = (
    record { flag = omega arith; level = omega arith; dated = refl },
    (record { flag = omega arith; level = omega arith; dated = refl }, tt),
  );
}

run_first-IsValid : IsValid run_first
unfolding find_where
run_first-IsValid = record {
  fresh = omega arith;
  unique_id = (refl, (refl, tt));
  unique_key = (refl, (refl, tt));
  sound = (
    record { flag = omega arith; level = omega arith; dated = refl },
    (record { flag = omega arith; level = omega arith; dated = refl }, tt),
  );
}

claim_first : claim_next_due (λ _. false) two 200 ≡ (some (claimed 200 first), run_first)
unfolding claim_next_due update_where
claim_first = refl

claim_locked : (claim_next_due (λ i. i == 1) two 200).0 ≡ none
unfolding claim_next_due
claim_locked = refl

-- A push to the finished pull request 8 within its cooldown schedules it; the other is untouched.
abbrev pushed_second : Ticket
pushed_second = record second {
  head_sha = some "bbb";
  status = deferred;
  not_before = some 480000090;
  attempts = 0;
  cooldown_level = 4;
  updated_at = 300;
}

push_second :
    enqueue_or_update natural cooldown alone two "octo/app" 8 (some "bbb") "groq" 300
    ≡ some (2, record { rows = first ∷ pushed_second ∷ []; next_id = 3 })
unfolding enqueue_or_update update_where due_after_cooldown find_where effective_cooldown
    cooldown_problems escalated
push_second = refl

push_unconfigured :
    enqueue_or_update natural
      (record { base = none; cap = none; factor = none })
      alone
      two
      "octo/app"
      8
      none
      "groq"
      300
    ≡ none
unfolding enqueue_or_update due_after_cooldown find_where effective_cooldown cooldown_problems
push_unconfigured = refl

enqueue_or_update_lem_example :
    (u : Ticket) × (u.id ≡ 2)
    × IsPushed natural cooldown (some "bbb") 300 "octo/app" 8 (lookup two "octo/app" 8) u
    × ((r : String) (p : ℕ)
        → lookup (record { rows = first ∷ pushed_second ∷ []; next_id = 3 }) r p
          ≡ (if str_eq "octo/app" r && 8 == p then some u else lookup two r p))
unfolding lookup find_where
enqueue_or_update_lem_example =
    enqueue_or_update_lem natural cooldown (some "bbb") 300 "groq" alone two "octo/app" 8
      two-IsValid two-IsValid push_second

abbrev flagged : Table
flagged = record {
  rows =
      record (claimed 200 first) { head_sha = some "ccc"; rereview_requested = 1; updated_at = 300 }
      ∷ second
      ∷ [];
  next_id = 3;
}

push_running :
    enqueue_or_update natural cooldown alone run_first "octo/app" 7 (some "ccc") "groq" 300
    ≡ some (1, flagged)
unfolding enqueue_or_update update_where find_where
push_running = refl

lookup_running : lookup run_first "octo/app" 7 ≡ some (claimed 200 first)
unfolding lookup find_where
lookup_running = refl

push_while_running_example :
    ((u : Ticket) × (lookup (finalize_review flagged 1 400 900 1 (some 5)) "octo/app" 7 ≡ some u)
      × (u.status ≡ deferred)
      × (u.not_before ≡ some 900)
      × (u.attempts ≡ 0)
      × (u.head_sha ≡ some "ccc"))
    × ((u : Ticket) × (lookup (discard_skipped_ticket flagged 1 400) "octo/app" 7 ≡ some u)
        × (u.status ≡ pending)
        × (u.attempts ≡ 0)
        × (u.head_sha ≡ some "ccc"))
push_while_running_example =
    push_while_running natural cooldown (some "ccc") "groq" 300 run_first "octo/app" 7
      (claimed 200 first) run_first-IsValid lookup_running refl push_running 400 900 1 (some 5)

push_before_failure_example :
    (u : Ticket) × (lookup (mark_failed flagged 1 400 (some "boom")) "octo/app" 7 ≡ some u)
    × (u.status ≡ failed)
    × (u.last_error ≡ some "boom")
    × (u.head_sha ≡ some "ccc")
    × (u.rereview_requested ≡ 1)
    × ((at : ℕ) → is_due at u ≡ false)
push_before_failure_example =
    push_before_failure natural cooldown (some "ccc") "groq" 300 run_first "octo/app" 7
      (claimed 200 first) run_first-IsValid lookup_running refl push_running 400 (some "boom")

claim_next_due_lem_example : Claims (λ _. false) 200 two (claim_next_due (λ _. false) two 200)
claim_next_due_lem_example = claim_next_due_lem (λ _. false) 200 two two-IsValid

-- Two rows due at once.
abbrev crowded : Table
crowded = record { rows = first ∷ record second { status = pending } ∷ []; next_id = 3 }

crowded-IsValid : IsValid crowded
unfolding find_where
crowded-IsValid = record {
  fresh = omega arith;
  unique_id = (refl, (refl, tt));
  unique_key = (refl, (refl, tt));
  sound = (
    record { flag = omega arith; level = omega arith; dated = refl },
    (record { flag = omega arith; level = omega arith; dated = refl }, tt),
  );
}

claim_older :
    (claim_next_due (λ _. false) crowded 200).0
    ≡ some (claimed 200 (record second { status = pending }))
unfolding claim_next_due
claim_older = refl

claim_other :
    (claim_next_due (λ _. false) (claim_next_due (λ _. false) crowded 200).1 300).0
    ≡ some (claimed 300 first)
unfolding claim_next_due update_where
claim_other = refl

claim_next_due-exclusive_example : ◌≢◌ {A = ℕ} 2 1
claim_next_due-exclusive_example =
    claim_next_due-exclusive (λ _. false) (λ _. false) crowded 200 300
      (claimed 200 (record second { status = pending })) (claimed 300 first) crowded-IsValid
      claim_older claim_other

migrate_tickets-IsValid_example : IsValid (migrate_tickets two "octo/app" "octo/renamed" 500)
migrate_tickets-IsValid_example =
    migrate_tickets-IsValid two "octo/app" "octo/renamed" 500 two-IsValid

-- Another transaction inserts the same pull request first.
between_insert : Table → Table
between_insert s = record {
  rows = s.rows ++ fresh_ticket s.next_id "octo/app" 9 none "groq" 299 ∷ [];
  next_id = s.next_id + 1;
}

abbrev raced : Table
raced = record {
  rows =
      record (fresh_ticket 1 "octo/app" 9 none "groq" 299) {
        head_sha = some "ddd";
        updated_at = 300;
      }
      ∷ [];
  next_id = 2;
}

enqueue_raced :
    enqueue_or_update natural cooldown between_insert empty_table "octo/app" 9
      (some "ddd")
      "groq"
      300
    ≡ some (1, raced)
unfolding enqueue_or_update update_where find_where between_insert
enqueue_raced = refl

enqueue_between :
    enqueue_or_update natural cooldown alone empty_table "octo/app" 9 none "groq" 299
    ≡ some (1, between_insert empty_table)
unfolding enqueue_or_update find_where between_insert
enqueue_between = refl

-- The race, and a claim after it.
reachable-IsValid_example : IsValid (claim_next_due (λ _. false) raced 400).1
reachable-IsValid_example = reachable-IsValid natural (claim_next_due (λ _. false) raced 400).1 (
    next raced
      (next empty_table (here refl) (
        enqueues cooldown between_insert "octo/app" 9 (some "ddd") "groq" 300 1
          (next empty_table (here refl)
            (enqueues cooldown alone "octo/app" 9 none "groq" 299 1 (here refl) enqueue_between))
          enqueue_raced))
      (claims (λ _. false) 400 refl))
