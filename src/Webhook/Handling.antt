-- ===== src/Webhook/Handling.antt =====
-- What the handling of one payload keeps.
use pr_review_bot.Prelude.{
  ◌≡◌, refl, ◌⊎◌, inl, inr, Bool, true, false, Option, none, some, if_cases, option_cases, is_some,
}
use pr_review_bot.Number.{Number}
use pr_review_bot.Tickets.Rows.{Ticket}
use pr_review_bot.Tickets.Enqueue.{enqueue_or_update}
use pr_review_bot.Tickets.Invariant.{IsValid, cancel_ticket-IsValid, clear_notice-IsValid}
use pr_review_bot.Tickets.Invariant.Enqueues.{enqueue_or_update-IsValid}
use pr_review_bot.Webhook.{
  Payload, Settings, Hook, Wish, review, cancel, nothing, wish, Moment, after_cancel,
  handle_payload,
}

after_cancel-IsValid :
    (clears : Bool) (t : Option Ticket) (h : Hook)
    → IsValid h.table
    → IsValid (after_cancel clears t h).table
unfolding after_cancel
after_cancel-IsValid clears none h v = v
after_cancel-IsValid true (some t) h v =
    if_cases (λ (x : Hook). IsValid x.table) (is_some t.notice_not_before) _ _
      (λ _. clear_notice-IsValid h.table t.id v) (λ _. v)
after_cancel-IsValid false (some t) h v =
    if_cases (λ (x : Hook). IsValid x.table) (is_some t.notice_not_before) _ _ (λ _. v) (λ _. v)

after_cancel_seen :
    (clears : Bool) (t : Option Ticket) (h : Hook) → (after_cancel clears t h).seen ≡ h.seen
unfolding after_cancel
after_cancel_seen clears none h = refl
after_cancel_seen true (some t) h =
    if_cases (λ (x : Hook). x.seen ≡ h.seen) (is_some t.notice_not_before) _ _ (λ _. refl)
      (λ _. refl)
after_cancel_seen false (some t) h =
    if_cases (λ (x : Hook). x.seen ≡ h.seen) (is_some t.notice_not_before) _ _ (λ _. refl)
      (λ _. refl)

module _ (N : Number) (c : Settings) where
  -- What handling a payload may do: the ids stay, the table stays well formed, and it stays as it
  -- was where the handling raises.
  pub record Sound (h : Hook) (r : Bool × Hook) : Type 0 where
    pub ids : r.1.seen ≡ h.seen
    pub valid : IsValid r.1.table
    pub rolled_back : (r.0 ≡ true) ⊎ (r.1.table ≡ h.table)

  pub handle_payload-Sound :
      (m : Moment N.F) (p : Payload) (h : Hook)
      → IsValid h.table
      → IsValid (m.between h.table)
      → Sound h (handle_payload N c m p h)
  unfolding handle_payload
  handle_payload-Sound m p h v w = by_wish (wish c p) refl
    where
      by_wish : (x : Wish) → wish c p ≡ x → Sound h (handle_payload N c m p h)
      by_wish nothing k =
          rw (k, handle_payload) (record { ids = refl; valid = v; rolled_back = inl refl })
      by_wish (cancel repo pr) k =
          rw (k, handle_payload)
            (record {
              ids = after_cancel_seen m.clears _ _;
              valid =
                  after_cancel-IsValid m.clears _ _ (cancel_ticket-IsValid h.table repo pr m.now v);
              rolled_back = inl refl;
            })
      by_wish (review repo pr) k =
          rw (k, handle_payload)
            (option_cases (Sound h)
              (enqueue_or_update N m.cooldown m.between h.table repo pr p.head_sha m.provider m.now)
              _ _ (λ _. record { ids = refl; valid = v; rolled_back = inr refl })
              (λ r e. record {
                ids = refl;
                valid =
                    enqueue_or_update-IsValid N m.cooldown m.between h.table repo pr p.head_sha
                      m.provider m.now v w e;
                rolled_back = inl refl;
              }))
