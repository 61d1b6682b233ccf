-- ===== src/Tickets/Invariant/Rename.antt =====
-- `migrate_repo_rename` and the UNIQUE constraint.
use pr_review_bot.Prelude.{
  ℕ, ◌<◌, String, ◌≡◌, refl, Bool, false, none, List, [], ◌∷◌, arith, All, eq_iff, if◌then◌else◌,
}
use pr_review_bot.Tickets.Rows.{
  Ticket, update_where, find_where, has_key, Unique, same_id, same_key, All-weaken,
  All-update_where, Unique-update_where,
}
use pr_review_bot.Tickets.{Table, update}
use pr_review_bot.Tickets.Finish.{migrate_tickets, movable, moved, left_over, cancelled_at}
use pr_review_bot.Tickets.Invariant.{IsValid, IsSound, update-IsValid}

-- No search that comes back empty passes over `t`.
record Occurs (ts : List Ticket) (t : Ticket) : Type 0 where
  seen : (q : Ticket → Bool) → find_where q ts ≡ none → q t ≡ false

Occurs-All : (ts : List Ticket) → All (Occurs ts) ts
unfolding find_where
Occurs-All [] = tt
Occurs-All (t ∷ ts) = (
  record { seen = λ q e. ground arith },
  All-weaken (Occurs ts) (Occurs (t ∷ ts)) ts
      (λ u o. record { seen = λ q e. o.seen q (ground arith) }) (Occurs-All ts),
)

module _ (same : Ticket → Ticket → Bool) (p : Ticket → Bool) (f : Ticket → Ticket)
    (P : Ticket → Type 0)
    (apart : (t u : Ticket)
      → P t
      → P u
      → same t u ≡ false
      → same (if p t then f t else t) (if p u then f u else u) ≡ false) where
  find_where-apart :
      (t : Ticket) (ts : List Ticket)
      → P t
      → All P ts
      → find_where (same t) ts ≡ none
      → find_where (same (if p t then f t else t)) (update_where p f ts) ≡ none
  unfolding find_where update_where
  find_where-apart t [] h a e = refl
  find_where-apart t (u ∷ ts) h a e = ground (arith, apart t u h a.0, find_where-apart t ts h a.1)

  -- An UPDATE under which different keys stay different.
  Unique-apart : (ts : List Ticket) → All P ts → Unique same ts → Unique same (update_where p f ts)
  unfolding update_where
  Unique-apart [] a u = tt
  Unique-apart (t ∷ ts) a u = (find_where-apart t ts a.0 a.1 u.0, Unique-apart ts a.1 u.1)

module _ (s : Table) (old new : String) (now : ℕ) where
  movable_apart :
      (t u : Ticket)
      → Occurs s.rows t
      → Occurs s.rows u
      → same_key t u ≡ false
      → same_key
          (if movable s old new t then moved new now t else t)
          (if movable s old new u then moved new now u else u)
        ≡ false
  movable_apart t u ot ou h = ground (
    arith,
    ot.seen (has_key new u.pr_number),
    ou.seen (has_key new t.pr_number),
    eq_iff t.repo_full_name old,
    eq_iff u.repo_full_name old,
    eq_iff t.repo_full_name u.repo_full_name,
    eq_iff u.repo_full_name t.repo_full_name,
    eq_iff t.repo_full_name new,
    eq_iff u.repo_full_name new,
    eq_iff new t.repo_full_name,
    eq_iff new u.repo_full_name,
    eq_iff new new,
  )

  renamed-IsValid : IsValid s → IsValid (update (movable s old new) (moved new now) s)
  renamed-IsValid v = record {
    fresh =
        All-update_where (λ t. t.id < s.next_id) (movable s old new) (moved new now) s.rows
          (λ t _ a. a) v.fresh;
    unique_id =
        Unique-update_where same_id (movable s old new) (moved new now) s.rows (λ t u. refl)
          (λ t u. refl) v.unique_id;
    unique_key =
        Unique-apart same_key (movable s old new) (moved new now) (Occurs s.rows) movable_apart
          s.rows (Occurs-All s.rows) v.unique_key;
    sound =
        All-update_where IsSound (movable s old new) (moved new now) s.rows
          (λ t _ h. record { flag = h.flag; level = h.level; dated = h.dated }) v.sound;
  }

  pub migrate_tickets-IsValid : IsValid s → IsValid (migrate_tickets s old new now)
  unfolding migrate_tickets
  migrate_tickets-IsValid v =
      update-IsValid (left_over old) (cancelled_at now) _ (λ _. refl) (λ _. refl) (λ _. refl)
        (λ t _ h. record { flag = h.flag; level = h.level; dated = refl }) (renamed-IsValid v)
