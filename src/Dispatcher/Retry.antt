-- ===== src/Dispatcher/Retry.antt =====
-- What a hard failure of a review does to its ticket.
use pr_review_bot.Prelude.{
  ℕ, ◌+◌, ◌-◌, ◌≤◌, ◌<◌, ◌≡◌, refl, ◌⊎◌, Bool, true, false, Option, none, some, arith, String,
}
use pr_review_bot.Number.{Number}
use pr_review_bot.Status.{retrying, failed}
use pr_review_bot.Tuning.{Tuning}
use pr_review_bot.Tickets.Rows.{Ticket, has_id}
use pr_review_bot.Tickets.{Table, update, get_ticket, set_comment_id, clear_visible_review}
use pr_review_bot.Tickets.Search.{get_ticket-update, get_ticket-id}
use pr_review_bot.Dispatcher.{Service, Answers, Ended, put_off, gave_up}
use pr_review_bot.Dispatcher.Step.{noted, retry_at}

-- An UPDATE by id, read back.
pub updated_row :
    (f : Ticket → Ticket) (s : Table) (i : ℕ) (row : Ticket)
    → ((t : Ticket) → (f t).id ≡ t.id)
    → get_ticket s i ≡ some row
    → get_ticket (update (has_id i) f s) i ≡ some (f row)
updated_row f s i row h e =
    rw (get_ticket-update (has_id i) f s i h, e) (ground (arith, get_ticket-id s i row e))

-- A comment that is noted leaves the date of a ticket.
pub noted_row :
    (i : ℕ) (c : Option ℕ) (lost : Bool) (s : Table) (row : Ticket)
    → get_ticket s i ≡ some row
    → (u : Ticket) × (get_ticket (noted i c lost s) i ≡ some u) × (u.not_before ≡ row.not_before)
unfolding set_comment_id clear_visible_review
noted_row i none true s row e = (_, updated_row _ s i row (λ _. refl) e, refl)
noted_row i (some c) true s row e =
    (_, updated_row _ _ i _ (λ _. refl) (updated_row _ s i row (λ _. refl) e), refl)
noted_row i none false s row e = (row, e, refl)
noted_row i (some c) false s row e = (_, updated_row _ s i row (λ _. refl) e, refl)

module _ (N : Number) where
  open N use {F, le, after}

  -- The ends of a hard failure. The ticket is put off: it retries after the backoff, one attempt
  -- is counted, and the count is below the threshold plus the attempts to post the notice, less
  -- one. Or the ticket is failed with the error of the run, at the threshold or above.
  abbrev pub FailureEnds :
      Answers F → Ticket → Tuning F → String → Ticket → Ended × Service F → Type 0
  FailureEnds e t tuning error row r =
      ((r.0 ≡ put_off t.id)
        × (u : Ticket) × (get_ticket r.1.table t.id ≡ some u)
        × (u.status ≡ retrying)
        × (u.attempts ≡ row.attempts + 1)
        × (u.not_before ≡ some (retry_at N e tuning (t.attempts + 1)))
        × (t.attempts + 1 < tuning.max_failure_attempts + tuning.max_notice_post_attempts - 1))
      ⊎ ((r.0 ≡ gave_up t.id)
          × (u : Ticket) × (get_ticket r.1.table t.id ≡ some u)
          × (u.status ≡ failed)
          × (u.last_error ≡ some error)
          × (tuning.max_failure_attempts ≤ t.attempts + 1))
