-- ===== src/Dispatcher/Notices.antt =====
-- `post_pending_notices` of review_queue/dispatcher.py: the sweep that writes the schedule footnote
-- of deferred tickets.
use pr_review_bot.Prelude.{
  ℕ, ◌+◌, ◌-◌, ◌≤◌, ◌≡◌, refl, Bool, true, false, Option, none, some, List, [], ◌∷◌, arith, leb,
  if◌then◌else◌, Option-cases, option_cases, inl, inr, length, ◌∙◌,
}
use pr_review_bot.Number.{Number}
use pr_review_bot.Tuning.{TuningCache, ready, unavailable, unset_tuning, require_config}
use pr_review_bot.Tickets.Rows.{Ticket}
use pr_review_bot.Tickets.{Table, get_ticket, mark_notice_posted}
use pr_review_bot.Tickets.Claim.{tickets_needing_notice, notice_due}
use pr_review_bot.Tickets.Invariant.{IsValid, mark_notice_posted-IsValid}
use pr_review_bot.Dispatcher.{cached}
use pr_review_bot.Dispatcher.Step.{noted, comment_was_recreated}
use pr_review_bot.Dispatcher.Keeps.{noted-IsValid}
use pr_review_bot.Dispatcher.Retry.{noted_row, updated_row}

-- Half a minute of the monotonic clock, in microseconds.
abbrev pub refresh_interval : ℕ
refresh_interval = 30000000

-- What the sweep reads and writes: the table, the tuning cache, and when it refreshed that last.
pub record Sweep (F : Type 0) : Type 0 where
  pub table : Table
  pub tuning : TuningCache F
  pub last_refresh : ℕ

-- The clock, the tuning row read or none, and for each ticket the comment that
-- `append_schedule_notice` returns, or none where it raises.
pub record Sweeping (F : Type 0) : Type 0 where
  pub now : ℕ
  pub monotonic : ℕ
  pub tuning_row : Option (TuningCache F)
  pub appended : ℕ → Option (Option ℕ)

-- One ticket of the sweep, and whether its notice was posted.
unfoldable pub post_notice : (ℕ → Option (Option ℕ)) → Ticket → Table → Bool × Table
post_notice appended t u = elim (appended t.id) [
  | none ↦ (false, u)
  | some c ↦
      (true, mark_notice_posted (noted t.id c (comment_was_recreated t c) u) t.id t.not_before)
]

unfoldable pub post_all : (ℕ → Option (Option ℕ)) → List Ticket → Table → ℕ × Table
unfolding post_notice
post_all appended [] u = (0, u)
post_all appended (t ∷ ts) u =
    let (posted, u') = post_notice appended t u in
    let (count, u'') = post_all appended ts u' in ((if posted then 1 else 0) + count, u'')

module _ (N : Number) where
  open N use {F}

  unfoldable pub sweep_refreshed : Sweeping F → Sweep F → Sweep F
  sweep_refreshed e s =
      if leb refresh_interval (e.monotonic - s.last_refresh)
      then record s { tuning = cached unset_tuning e.tuning_row; last_refresh = e.monotonic }
      else s

  -- Without a usable tuning dict the sweep is skipped.
  unfoldable pub post_pending_notices : Sweeping F → Sweep F → ℕ × Sweep F
  unfolding sweep_refreshed post_all
  post_pending_notices e s =
      let s' = sweep_refreshed e s in
      elim (require_config N s'.tuning) [
        | unavailable ps ↦ (0, s')
        | ready tuning ↦
            let (count, table) =
              post_all e.appended (tickets_needing_notice s'.table e.now tuning.batch_size)
                s'.table in
            (count, record s' { table = table })
      ]

post_notice-IsValid :
    (appended : ℕ → Option (Option ℕ)) (t : Ticket) (u : Table)
    → IsValid u
    → IsValid (post_notice appended t u).1
unfolding post_notice
post_notice-IsValid appended t u v =
    option_cases (λ (r : Bool × Table). IsValid r.1) (appended t.id) _ _ (λ _. v)
      (λ c _.
        mark_notice_posted-IsValid _ t.id t.not_before
          (noted-IsValid t.id c (comment_was_recreated t c) u v))

-- A sweep over any tickets keeps the table well formed and posts one notice at most for each.
pub post_all_lem :
    (appended : ℕ → Option (Option ℕ)) (ts : List Ticket) (u : Table)
    → IsValid u
    → IsValid (post_all appended ts u).1 × ((post_all appended ts u).0 ≤ length ts)
unfolding post_all
post_all_lem appended [] u v = (v, omega arith)
post_all_lem appended (t ∷ ts) u v =
    let rest =
      post_all_lem appended ts (post_notice appended t u).1 (post_notice-IsValid appended t u v) in
    (rest.0, ground (arith, rest.1))

-- A ticket whose notice names its date needs no notice.
noticed_row :
    (now : ℕ) (u : Ticket) (nb : Option ℕ)
    → u.not_before ≡ nb
    → u.notice_not_before ≡ nb
    → notice_due now u ≡ false
noticed_row now u none e h = ground arith
noticed_row now u (some nb) e h = ground arith

-- A ticket whose notice was posted needs none for the same date: where the row has the date that
-- the sweep read, the row after a successful post is selected at no time.
pub post_notice_once :
    (appended : ℕ → Option (Option ℕ)) (t row : Ticket) (s : Table)
    → get_ticket s t.id ≡ some row
    → row.not_before ≡ t.not_before
    → (post_notice appended t s).0 ≡ true
    → (u : Ticket) × (get_ticket (post_notice appended t s).1 t.id ≡ some u)
      × ((now : ℕ) → notice_due now u ≡ false)
unfolding post_notice mark_notice_posted
post_notice_once appended t row s e h p = elim (Option-cases (appended t.id)) [
  | inl k ↦ absurd (ground (arith, k, p))
  | inr (c, k) ↦
      let (u, g, d) = noted_row t.id c (comment_was_recreated t c) s row e in
      rw (k, post_notice)
        (
          record u { notice_not_before = t.not_before },
          updated_row _ _ t.id u (λ _. refl) g,
          λ now.
              noticed_row now (record u { notice_not_before = t.not_before }) t.not_before (d ∙ h)
                refl,
        )
]
