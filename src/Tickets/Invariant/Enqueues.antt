-- ===== src/Tickets/Invariant/Enqueues.antt =====
-- The well-formedness of the tickets table under an enqueue.
use mathlib.Core.Option
use pr_review_bot.Prelude.{
  ℕ, ◌+◌, ◌≤◌, ◌<◌, String, ◌≡◌, refl, true, Option, none, some, List, [], ◌∷◌, ◌++◌, arith, All,
  Option-cases, inl, inr,
}
use pr_review_bot.Number.{Number}
use pr_review_bot.Status.{Status, pending, running, deferred, retrying, done, failed, cancelled}
use pr_review_bot.Cooldown.{CooldownCache, due_after_cooldown, max_cooldown_level}
use pr_review_bot.Tickets.Rows.{
  Ticket, find_where, has_id, same_id, same_key, same_key_symm, All-append, All-weaken,
  Unique-append,
}
use pr_review_bot.Tickets.{Table, update, lookup}
use pr_review_bot.Tickets.Enqueue.{enqueue_or_update, update_existing, touch, rearm, fresh_ticket}
use pr_review_bot.Tickets.Invariant.{IsSound, IsValid, update-IsValid, has_date}

-- A re-arm date is written whenever the re-armed ticket waits, and the level stays in range.
due_after_cooldown_sound :
    (N : Number) (c : CooldownCache N.F) (last : Option ℕ) (now level : ℕ)
    {r : Status × Option ℕ × ℕ}
    → due_after_cooldown N c last now level ≡ some r
    → (r.2 ≤ max_cooldown_level) × (has_date r.0 r.1 ≡ true)
unfolding due_after_cooldown
due_after_cooldown_sound N c none now level h = ground arith
due_after_cooldown_sound N c (some last) now level h = ground arith

-- What an UPDATE may do to a row.
pub record KeepsRow (f : Ticket → Ticket) : Type 0 where
  pub same :
      (t : Ticket)
      → ((f t).id ≡ t.id)
        × ((f t).repo_full_name ≡ t.repo_full_name)
        × ((f t).pr_number ≡ t.pr_number)
  pub sound : (t : Ticket) → IsSound t → IsSound (f t)

abbrev pub IfSome : {A : Type 0} → (A → Type 0) → Option A → Type 0
IfSome P none = Unit
IfSome P (some a) = P a

find_id_fresh :
    (n : ℕ) (ts : List Ticket) → All (λ t. t.id < n) ts → find_where (has_id n) ts ≡ none
unfolding find_where
find_id_fresh n [] a = refl
find_id_fresh n (t ∷ ts) a = ground (arith, find_id_fresh n ts a.1)

module _ (N : Number) (c : CooldownCache N.F) where
  rearm-KeepsRow :
      (head_sha : Option String) (now : ℕ) (t : Ticket) → IfSome KeepsRow (rearm N c head_sha now t)
  rearm-KeepsRow head_sha now t =
      elim (Option-cases (due_after_cooldown N c t.last_reviewed_at now t.cooldown_level)) [
        | inl e ↦ rw (e, rearm, IfSome) tt
        | inr (r, e) ↦
            let ok = due_after_cooldown_sound N c t.last_reviewed_at now t.cooldown_level e in
            rw (e, rearm, IfSome)
              (record {
                same = λ u. (refl, refl, refl);
                sound = λ u h. record { flag = omega arith; level = ok.0; dated = ok.1 };
              })
      ]

  pub touch-KeepsRow :
      (st : Status) (head_sha : Option String) (now : ℕ) (t : Ticket)
      → IfSome KeepsRow (touch N c st head_sha now t)
  unfolding touch
  touch-KeepsRow running head_sha now t = record {
    same = λ u. (refl, refl, refl);
    sound = λ u h. record { flag = omega arith; level = h.level; dated = h.dated };
  }
  touch-KeepsRow pending head_sha now t = record {
    same = λ u. (refl, refl, refl);
    sound = λ u h. record { flag = h.flag; level = h.level; dated = h.dated };
  }
  touch-KeepsRow deferred head_sha now t = record {
    same = λ u. (refl, refl, refl);
    sound = λ u h. record { flag = h.flag; level = h.level; dated = h.dated };
  }
  touch-KeepsRow retrying head_sha now t = record {
    same = λ u. (refl, refl, refl);
    sound = λ u h. record { flag = h.flag; level = h.level; dated = h.dated };
  }
  touch-KeepsRow done head_sha now t = rearm-KeepsRow head_sha now t
  touch-KeepsRow failed head_sha now t = rearm-KeepsRow head_sha now t
  touch-KeepsRow cancelled head_sha now t = rearm-KeepsRow head_sha now t

  abbrev ValidAfter : Option (ℕ × Table) → Type 0
  ValidAfter = IfSome (λ r. IsValid r.1)

  update_existing-IsValid :
      (s : Table) (t : Ticket) (head_sha : Option String) (now : ℕ)
      → IsValid s
      → ValidAfter (update_existing N c s t head_sha now)
  unfolding update_existing
  update_existing-IsValid s t head_sha now v =
      go (touch N c t.status head_sha now t) (touch-KeepsRow t.status head_sha now t)
    where
      go :
          (o : Option (Ticket → Ticket))
          → IfSome KeepsRow o
          → ValidAfter (Option.map (λ f. (t.id, update (has_id t.id) f s)) o)
      go none k = tt
      go (some f) k =
          update-IsValid (has_id t.id) f s (λ u. (k.same u).0) (λ u. (k.same u).1)
            (λ u. (k.same u).2) (λ u _ h. k.sound u h) v

  insert-IsValid :
      (s : Table) (repo : String) (pr : ℕ) (head_sha : Option String) (provider : String) (now : ℕ)
      → lookup s repo pr ≡ none
      → IsValid s
      → IsValid (record {
        rows = s.rows ++ fresh_ticket s.next_id repo pr head_sha provider now ∷ [];
        next_id = s.next_id + 1;
      })
  unfolding lookup
  insert-IsValid s repo pr head_sha provider now e v = record {
    fresh =
        All-append (λ t. t.id < s.next_id + 1) s.rows _
          (All-weaken _ _ s.rows (λ t h. omega arith) v.fresh) (omega arith, tt);
    unique_id =
        Unique-append same_id s.rows _ (λ t u. ground arith)
          (find_id_fresh s.next_id s.rows v.fresh) v.unique_id;
    unique_key = Unique-append same_key s.rows _ same_key_symm e v.unique_key;
    sound =
        All-append IsSound s.rows _ v.sound
          (record { flag = omega arith; level = omega arith; dated = refl }, tt);
  }

  enqueue_or_update-ValidAfter :
      (between : Table → Table) (s : Table) (repo : String) (pr : ℕ) (head_sha : Option String)
      (provider : String) (now : ℕ)
      → IsValid s
      → IsValid (between s)
      → ValidAfter (enqueue_or_update N c between s repo pr head_sha provider now)
  unfolding enqueue_or_update
  enqueue_or_update-ValidAfter between s repo pr head_sha provider now v w =
      elim (Option-cases (lookup s repo pr)) [
        | inr (t, e) ↦
            rw (e, enqueue_or_update, IfSome) (update_existing-IsValid s t head_sha now v)
        | inl e ↦ elim (Option-cases (lookup (between s) repo pr)) [
          | inr (t, e') ↦
              rw (e, e', enqueue_or_update, IfSome)
                (update_existing-IsValid (between s) t head_sha now w)
          | inl e' ↦
              rw (e, e', enqueue_or_update, IfSome)
                (insert-IsValid (between s) repo pr head_sha provider now e' w)
        ]
      ]

  -- Whatever other transactions do between the SELECT and the INSERT, as long as they keep the
  -- table valid.
  pub enqueue_or_update-IsValid :
      (between : Table → Table) (s : Table) (repo : String) (pr : ℕ) (head_sha : Option String)
      (provider : String) (now : ℕ) {r : ℕ × Table}
      → IsValid s
      → IsValid (between s)
      → enqueue_or_update N c between s repo pr head_sha provider now ≡ some r
      → IsValid r.1
  unfolding enqueue_or_update
  enqueue_or_update-IsValid between s repo pr head_sha provider now {r} v w e =
      rw (e, IfSome) at (enqueue_or_update-ValidAfter between s repo pr head_sha provider now v w)
