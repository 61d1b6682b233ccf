-- ===== src/Orchestrator/Waits.antt =====
-- A review that meets a rate limit.
use mathlib.Core.Path.{subst}
use mathlib.Core.List.{append-nil}
use pr_review_bot.Prelude.{
  some, ℕ, ◌≡◌, refl, sym, ap, Bool-cases, ◌∙◌, true, false, Option, none, List, [], ◌∷◌, arith,
  ◌⊎◌, inl, inr, Text, if_cases,
}
use pr_review_bot.Number.{Number}
use pr_review_bot.Cooldown.{max_f}
use pr_review_bot.Formatting.{
  Specialist, security, performance, code_quality, SpecialistResult, strip,
}
use pr_review_bot.Orchestrator.{rate_limit, other_error, Result, returned, raised}
use pr_review_bot.Orchestrator.Attempt.{
  drafts_checked, PrDiff, AnnotatedDiff, review_rate_limited, Inputs, max_wait, rate_limits,
  publish, raw_results, merged_results, gathered, diff_reviewed, migrated, after_fetch,
  attempt_review, AttemptEnd,
}

module _ (N : Number) where
  max_f-left : (a b : N.F) → N.le a (max_f N a b) ≡ true
  max_f-left a b =
      if_cases (λ x. N.le a x ≡ true) (N.le b a) a b (λ e. N.le_refl a)
        (λ e. elim (N.le_total b a) [ inl h ↦ ground arith | inr h ↦ h ])

  max_f-right : (a b : N.F) → N.le b (max_f N a b) ≡ true
  max_f-right a b = if_cases (λ x. N.le b x ≡ true) (N.le b a) a b (λ e. e) (λ e. N.le_refl b)

  max_wait_head : (a : N.F) (bs : List N.F) → N.le a (max_wait N a bs) ≡ true
  unfolding max_wait
  max_wait_head a [] = N.le_refl a
  max_wait_head a (b ∷ bs) =
      N.le_trans a (max_f N a b) (max_wait N (max_f N a b) bs) (max_f-left a b)
        (max_wait_head (max_f N a b) bs)

  -- A wait among the others.
  abbrev IsAmong : N.F → List N.F → Type 0
  IsAmong r [] = ⊥
  IsAmong r (a ∷ rest) = (r ≡ a) ⊎ IsAmong r rest

  max_wait_all : (r a : N.F) (bs : List N.F) → IsAmong r (a ∷ bs) → N.le r (max_wait N a bs) ≡ true
  unfolding max_wait
  max_wait_all r a bs (inl e) =
      subst (λ x. N.le x (max_wait N a bs) ≡ true) (sym e) (max_wait_head a bs)
  max_wait_all r a [] (inr h) = absurd h
  max_wait_all r a (b ∷ bs) (inr (inl e)) =
      subst (λ x. N.le x (max_wait N (max_f N a b) bs) ≡ true) (sym e)
        (N.le_trans b (max_f N a b) _ (max_f-right a b) (max_wait_head (max_f N a b) bs))
  max_wait_all r a (b ∷ bs) (inr (inr h)) = max_wait_all r (max_f N a b) bs (inr h)

  -- A rate limit among the outcomes is among the waits.
  abbrev IsRun : N.F → List (Result N.F SpecialistResult) → Type 0
  IsRun r [] = ⊥
  IsRun r (x ∷ xs) = (x ≡ raised (rate_limit r)) ⊎ IsRun r xs

  rate_limits-IsAmong :
      (r : N.F) (xs : List (Result N.F SpecialistResult)) → IsRun r xs → IsAmong r (rate_limits xs)
  rate_limits-IsAmong r [] h = h
  rate_limits-IsAmong r (x ∷ xs) (inl e) = rw e (inl refl)
  rate_limits-IsAmong r (raised (rate_limit q) ∷ xs) (inr h) = inr (rate_limits-IsAmong r xs h)
  rate_limits-IsAmong r (raised (other_error t) ∷ xs) (inr h) = rate_limits-IsAmong r xs h
  rate_limits-IsAmong r (returned v ∷ xs) (inr h) = rate_limits-IsAmong r xs h

module _ (N : Number) {Price : Type 0} (e : Inputs N.F Price) (shown : N.F → Text) where
  run_IsRun :
      (name : Specialist) (text : Text) (r : N.F)
      → e.run name text ≡ raised (rate_limit r)
      → IsRun N r (raw_results N e shown text)
  run_IsRun security text r h = inl h
  run_IsRun performance text r h = inr (inl h)
  run_IsRun code_quality text r h = inr (inr (inl h))

  -- The wait that is returned is no shorter than the one asked.
  abbrev IsPutOff : N.F → AttemptEnd N e shown → Type 0
  IsPutOff r x = (w : N.F) × (x ≡ ([], returned (review_rate_limited w))) × (N.le r w ≡ true)

  gathered_limited :
      (name : Specialist) (r : N.F) (pr : ℕ) (annotated : AnnotatedDiff) (comment_id : Option ℕ)
      → e.run name annotated.text ≡ raised (rate_limit r)
      → IsPutOff r (gathered N e shown pr annotated comment_id)
  unfolding gathered
  gathered_limited name r pr annotated comment_id h =
      by_waits (rate_limits (raw_results N e shown annotated.text)) (
        rate_limits-IsAmong N r (raw_results N e shown annotated.text)
          (run_IsRun name annotated.text r h))
    where
      by_waits :
          (ws : List N.F)
          → IsAmong N r ws
          → IsPutOff r (elim ws [
            | a ∷ rest ↦ ([], returned (review_rate_limited (max_wait N a rest)))
            | [] ↦
                publish N e shown pr annotated.truncated
                  (merged_results N e shown annotated.text)
                  comment_id
          ])
      by_waits [] h = absurd h
      by_waits (a ∷ rest) h = (max_wait N a rest, refl, max_wait_all N r a rest h)

  -- A diff that is no draft, or one where drafts are reviewed.
  abbrev pub IsReviewed : PrDiff → Type 0
  IsReviewed diff = (diff.draft ≡ false) ⊎ (e.review_drafts ≡ some true)

  drafts_checked_reviewed :
      (pr : ℕ) (diff : PrDiff) (comment_id : Option ℕ)
      → IsReviewed diff
      → drafts_checked N e shown pr diff comment_id
        ≡ diff_reviewed N e shown pr (e.annotate diff.text) comment_id
  unfolding diff_reviewed
  drafts_checked_reviewed pr diff comment_id (inl h) = rw h refl
  drafts_checked_reviewed pr diff comment_id (inr h) = elim (Bool-cases diff.draft) [
    | inl d ↦ rw (d, h) refl
    | inr d ↦ rw d refl
  ]

  attempt_put_off :
      (repo : Text) (pr : ℕ) (comment_id : Option ℕ) (diff : PrDiff) (c : ℕ) (cs : Text) (w : N.F)
      → e.fetched ≡ returned diff
      → IsReviewed diff
      → strip (e.annotate diff.text).text ≡ c ∷ cs
      → e.tuning_error ≡ none
      → gathered N e shown pr (e.annotate diff.text) comment_id
        ≡ ([], returned (review_rate_limited w))
      → attempt_review N e shown repo pr comment_id
        ≡ (migrated N e shown repo diff, returned (review_rate_limited w))
  unfolding attempt_review diff_reviewed
  attempt_put_off repo pr comment_id diff c cs w fetched draft solid usable put_off =
      ap (after_fetch N e shown repo pr comment_id) fetched
      ∙ rw (drafts_checked_reviewed pr diff comment_id draft, diff_reviewed, solid, usable, put_off)
          (ap (λ l. (l, returned (review_rate_limited w)))
            (append-nil (migrated N e shown repo diff)))

  -- Where one specialist meets a rate limit the review is put off as a whole: no comment is posted
  -- and nothing recorded, and the wait that is returned is no shorter than the one that specialist
  -- was asked for, if the diff is fetched, is no draft unless drafts are reviewed, is not blank and the
  -- tuning is usable.
  pub attempt_review_limited :
      (repo : Text) (pr : ℕ) (comment_id : Option ℕ) (diff : PrDiff) (c : ℕ) (cs : Text)
      (name : Specialist) (r : N.F)
      → e.fetched ≡ returned diff
      → IsReviewed diff
      → strip (e.annotate diff.text).text ≡ c ∷ cs
      → e.tuning_error ≡ none
      → e.run name (e.annotate diff.text).text ≡ raised (rate_limit r)
      → (w : N.F) × (attempt_review N e shown repo pr comment_id
          ≡ (migrated N e shown repo diff, returned (review_rate_limited w)))
        × (N.le r w ≡ true)
  attempt_review_limited repo pr comment_id diff c cs name r fetched draft solid usable limited =
      let (w, put_off, long) =
        gathered_limited name r pr (e.annotate diff.text) comment_id limited in
      (w, attempt_put_off repo pr comment_id diff c cs w fetched draft solid usable put_off, long)
