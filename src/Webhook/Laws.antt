-- ===== src/Webhook/Laws.antt =====
-- What a delivery of the webhook and its redelivery do.
use pr_review_bot.Prelude.{
  ◌≡◌, refl, ◌⊎◌, inl, inr, String, Bool, true, false, Option, none, some, arith, if◌then◌else◌,
  if_cases, option_cases, sym, ap, ◌∙◌,
}
use mathlib.Core.Path.{subst}
use pr_review_bot.Number.{Number}
use pr_review_bot.Tickets.Invariant.{IsValid}
use pr_review_bot.Webhook.{
  Request, Settings, Hook, Reply, unauthorized, already_processed, accepted, raised, contains,
  verify_signature, Moment, handle_payload, marked, known, touched, process, webhook,
}
use pr_review_bot.Webhook.Cache.{
  IsCache, is_duplicate_delivery-IsCache, mark_delivery_processed-IsCache,
}
use pr_review_bot.Webhook.Handling.{Sound, handle_payload-Sound}

module _ (N : Number) (c : Settings) where
  -- How a delivery that is handled ends.
  abbrev pub Handled : Request → Hook → Reply × Hook → Type 0
  Handled r h x =
      ((x.0 ≡ raised) × (x.1.table ≡ h.table) × (x.1.seen ≡ h.seen))
      ⊎ ((x.0 ≡ accepted) × (x.1.seen ≡ (marked N c r.delivery h).seen))

  -- How a delivery ends, by its signature and its id: unsigned, and nothing changes; known, and only
  -- its id moves to the end; or handled, and then either it raises and is rolled back, or it is
  -- accepted and its id noted.
  abbrev pub Delivered : Request → Hook → Reply × Hook → Type 0
  Delivered r h x =
      ((verify_signature c r.raw_body r.signature ≡ false) × (x ≡ (unauthorized, h)))
      ⊎ (((verify_signature c r.raw_body r.signature ≡ true)
            × (known N c r.delivery h ≡ true)
            × (x.0 ≡ already_processed)
            × (x.1.table ≡ h.table)
            × (x.1.sent ≡ h.sent)
            × (x.1.seen ≡ (touched N c r.delivery h).seen))
          ⊎ ((verify_signature c r.raw_body r.signature ≡ true)
              × (known N c r.delivery h ≡ false)
              × Handled r h x))

  pub record Safe (r : Request) (h : Hook) (x : Reply × Hook) : Type 0 where
    pub valid : IsValid x.1.table
    pub cache : IsCache x.1.seen
    pub ends : Delivered r h x

  -- What the handling of a delivery that is signed and not known leaves.
  record SafelyHandled (r : Request) (h : Hook) (x : Reply × Hook) : Type 0 where
    pub valid : IsValid x.1.table
    pub cache : IsCache x.1.seen
    pub ends : Handled r h x

  touched_sent : (d : Option String) (h : Hook) → (touched N c d h).sent ≡ h.sent
  touched_sent none h = refl
  touched_sent (some d) h = refl

  marked_table : (d : Option String) (h : Hook) → (marked N c d h).table ≡ h.table
  marked_table none h = refl
  marked_table (some d) h = refl

  marked_seen :
      (d : Option String) (h h' : Hook)
      → h'.seen ≡ h.seen
      → (marked N c d h').seen ≡ (marked N c d h).seen
  marked_seen none h h' e = e
  marked_seen (some d) h h' e = rw e refl

  marked-IsCache : (d : Option String) (h : Hook) → IsCache h.seen → IsCache (marked N c d h).seen
  marked-IsCache none h k = k
  marked-IsCache (some d) h k = mark_delivery_processed-IsCache h.seen d k

  touched-IsCache : (d : Option String) (h : Hook) → IsCache h.seen → IsCache (touched N c d h).seen
  touched-IsCache none h k = k
  touched-IsCache (some d) h k = is_duplicate_delivery-IsCache h.seen d k

  touched_table : (d : Option String) (h : Hook) → (touched N c d h).table ≡ h.table
  touched_table none h = refl
  touched_table (some d) h = refl

  ended-SafelyHandled :
      (r : Request) (h : Hook) (x : Bool × Hook)
      → IsCache h.seen
      → Sound N c h x
      → SafelyHandled r h (if x.0 then (accepted, marked N c r.delivery x.1) else (raised, x.1))
  ended-SafelyHandled r h (true, h') k s = record {
    valid = subst IsValid (sym (marked_table r.delivery h')) s.valid;
    cache = marked-IsCache r.delivery h' (subst IsCache (sym s.ids) k);
    ends = inr (refl, marked_seen r.delivery h h' s.ids);
  }
  ended-SafelyHandled r h (false, h') k s = record {
    valid = s.valid;
    cache = subst IsCache (sym s.ids) k;
    ends = inl (refl, unchanged s.rolled_back, s.ids);
  }
    where
      unchanged : (false ≡ true) ⊎ (h'.table ≡ h.table) → h'.table ≡ h.table
      unchanged (inl e) = cc
      unchanged (inr e) = e

  process-SafelyHandled :
      (m : Moment N.F) (r : Request) (h : Hook)
      → IsValid h.table
      → IsValid (m.between h.table)
      → IsCache h.seen
      → SafelyHandled r h (process N c m r h)
  unfolding process
  process-SafelyHandled m r h v w k =
      option_cases (SafelyHandled r h) (c.loads r.raw_body) _ _
        (λ _. record { valid = v; cache = k; ends = inl (refl, refl, refl) })
        (λ p _.
          ended-SafelyHandled r h (handle_payload N c m p h) k (handle_payload-Sound N c m p h v w))

  -- From a well-formed table and cache, and where the other transactions inside an enqueue keep the
  -- table well formed, a delivery leaves both well formed. Without a valid signature it changes
  -- nothing. With one and a known id, the table and the calls are as before. Otherwise it raises, and
  -- the table and the ids are as before, or it is accepted, and its id is noted.
  pub webhook-Safe :
      (m : Moment N.F) (r : Request) (h : Hook)
      → IsValid h.table
      → IsValid (m.between h.table)
      → IsCache h.seen
      → Safe r h (webhook N c m r h)
  unfolding webhook
  webhook-Safe m r h v w k =
      if_cases (Safe r h) (verify_signature c r.raw_body r.signature) _ _
        (λ a.
          if_cases (Safe r h) (known N c r.delivery h) _ _
            (λ b. record {
              valid = subst IsValid (sym (touched_table r.delivery h)) v;
              cache = touched-IsCache r.delivery h k;
              ends =
                  inr
                    (inl (a, b, refl, touched_table r.delivery h, touched_sent r.delivery h, refl));
            })
            (λ b.
              let p = process-SafelyHandled m r h v w k in
              record { valid = p.valid; cache = p.cache; ends = inr (inr (a, b, p.ends)) }))
        (λ a. record { valid = v; cache = k; ends = inl (a, refl) })

  -- Reads of the three ends.
  pub accepted-seen :
      (r : Request) (h : Hook) (x : Reply × Hook)
      → Delivered r h x
      → x.0 ≡ accepted
      → (verify_signature c r.raw_body r.signature ≡ true)
        × (known N c r.delivery h ≡ false)
        × (x.1.seen ≡ (marked N c r.delivery h).seen)
  accepted-seen r h x (inl (a, b)) e = absurd (cc (b, e))
  accepted-seen r h x (inr (inl (a, _, b, _, _, _))) e = absurd (cc)
  accepted-seen r h x (inr (inr (a, n, inl (b, _, _)))) e = absurd (cc)
  accepted-seen r h x (inr (inr (a, n, inr (b, d)))) e = (a, n, d)

  raised_kept :
      (r : Request) (h : Hook) (x : Reply × Hook)
      → Delivered r h x
      → x.0 ≡ raised
      → (x.1.table ≡ h.table) × (x.1.seen ≡ h.seen) × (known N c r.delivery h ≡ false)
  raised_kept r h x (inl (a, b)) e = absurd (cc (b, e))
  raised_kept r h x (inr (inl (a, _, b, _, _, _))) e = absurd (cc)
  raised_kept r h x (inr (inr (a, n, inl (b, t, s)))) e = (t, s, n)
  raised_kept r h x (inr (inr (a, _, inr (b, d)))) e = absurd (cc)

  pub known_again :
      (m : Moment N.F) (r : Request) (h : Hook) (d : String)
      → verify_signature c r.raw_body r.signature ≡ true
      → r.delivery ≡ some d
      → contains h.seen d ≡ true
      → ((webhook N c m r h).0 ≡ already_processed) × ((webhook N c m r h).1.table ≡ h.table)
  unfolding webhook
  known_again m r h d e f g = (ground arith, ground (arith, touched_table r.delivery h))

  -- A delivery with an id that raises can be delivered again: the tickets table is as before, and
  -- its id is not in the cache.
  pub webhook-raised :
      (m : Moment N.F) (r : Request) (h : Hook) (d : String)
      → IsValid h.table
      → IsValid (m.between h.table)
      → IsCache h.seen
      → r.delivery ≡ some d
      → (webhook N c m r h).0 ≡ raised
      → ((webhook N c m r h).1.table ≡ h.table) × (contains (webhook N c m r h).1.seen d ≡ false)
  webhook-raised m r h d v w k e f =
      let (t, s, n) = raised_kept r h (webhook N c m r h) (webhook-Safe m r h v w k).ends f in
      (t, rw s (ap (λ o. known N c o h) (sym e) ∙ n))
