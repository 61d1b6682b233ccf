-- ===== src/Orchestrator/Attempt.antt =====
-- `attempt_review` and `run_review` of orchestrator.py. What the functions that it calls return or
-- raise is an `Inputs`; an exception is shown by what `str` gives of it.
use pr_review_bot.Prelude.{
  ℕ, ◌+◌, Bool, true, false, Option, none, some, List, [], ◌∷◌, ◌++◌, if◌then◌else◌, Text, codes,
  text_eq, map,
}
use pr_review_bot.Number.{Number}
use pr_review_bot.Cooldown.{max_f}
use pr_review_bot.Formatting.{
  Specialist, security, performance, code_quality, SpecialistResult, ok, failed, strip, join,
  specialist_name,
}
use pr_review_bot.Formatting.Bodies.{ReviewResult, format_comment}
use pr_review_bot.Orchestrator.{rate_limit, other_error, Result, returned, raised, failed_result}

-- `PrDiff`
pub record PrDiff : Type 0 where
  pub text : Text
  pub repo_full_name : Text
  pub draft : Bool

-- `AnnotatedDiff`
pub record AnnotatedDiff : Type 0 where
  pub text : Text
  pub truncated : Bool

-- The calls that change something: a renamed repository in the store, the comment, the dashboard's row.
pub data Effect (Price : Type 0) : Type 0 where
  migrates : Text → Text → Effect Price
  posts : Text → Option ℕ → Effect Price
  records : ReviewResult Price → ℕ → Effect Price

pub data Attempt (F Price : Type 0) : Type 0 where
  review_completed : ReviewResult Price → ℕ → Attempt F Price
  review_rate_limited : F → Attempt F Price
  review_skipped : Attempt F Price

-- `model` is the model of the active provider and slot; `upserted` is the id of the posted comment.
-- A tuning that is not usable raises with a message.
pub record Inputs (F Price : Type 0) : Type 0 where
  pub fetched : Result F PrDiff
  pub review_drafts : Option Bool
  pub annotate : Text → AnnotatedDiff
  pub tuning_error : Option Text
  pub run : Specialist → Text → Result F SpecialistResult
  pub active : Text
  pub model : Option Text
  pub cost : Text → Text → ℕ → ℕ → Option Price
  pub elapsed_ms : ℕ
  pub upserted : Result F ℕ
  pub seconds : ℕ → Text
  pub dollars : Price → Text

-- `max(rate_limits)`: the first of the greatest.
module _ (N : Number) where
  unfoldable pub max_wait : N.F → List N.F → N.F
  max_wait a [] = a
  max_wait a (b ∷ bs) = max_wait (max_f N a b) bs

module _ {F : Type 0} where
  abbrev pub rate_limits : List (Result F SpecialistResult) → List F
  rate_limits [] = []
  rate_limits (raised (rate_limit r) ∷ rs) = r ∷ rate_limits rs
  rate_limits (raised (other_error t) ∷ rs) = rate_limits rs
  rate_limits (returned v ∷ rs) = rate_limits rs

  -- One entry of `results`: what the specialist returned, or a failed result with the exception.
  abbrev pub merged : (shown : F → Text) → Specialist → Result F SpecialistResult → SpecialistResult
  merged shown name (returned v) = v
  merged shown name (raised (rate_limit r)) = failed_result name (shown r) 0 0 0
  merged shown name (raised (other_error t)) = failed_result name t 0 0 0

abbrev pub is_failed : SpecialistResult → Bool
is_failed v = elim v.status [ ok ↦ false | failed ↦ true ]

abbrev pub all_failed : List SpecialistResult → Bool
all_failed [] = true
all_failed (v ∷ vs) = if is_failed v then all_failed vs else false

abbrev pub total : (SpecialistResult → ℕ) → List SpecialistResult → ℕ
total count [] = 0
total count (v ∷ vs) = count v + total count vs

abbrev shown_error : Option Text → Text
shown_error none = codes "None"
shown_error (some t) = t

abbrev pub all_failed_message : List SpecialistResult → Text
all_failed_message results =
    codes "all specialists failed: "
    ++ join (codes "; ")
        (map (λ v. specialist_name v.name ++ (codes ": " ++ shown_error v.error)) results)

module _ (N : Number) {Price : Type 0} (e : Inputs N.F Price) (shown : N.F → Text) where
  abbrev pub AttemptEnd : Type 0
  AttemptEnd = List (Effect Price) × Result N.F (Attempt N.F Price)

  -- After the comment: a failure of the dashboard's row is only logged.
  abbrev pub posted : ReviewResult Price → Option ℕ → Result N.F ℕ → AttemptEnd
  posted review comment_id (raised x) =
      (posts (format_comment e.seconds e.dollars review) comment_id ∷ [], raised x)
  posted review comment_id (returned i) = (
    posts (format_comment e.seconds e.dollars review) comment_id ∷ records review i ∷ [],
    returned (review_completed review i),
  )

  abbrev pub review_of : ℕ → Bool → List SpecialistResult → Text → ReviewResult Price
  review_of pr truncated results model = record {
    pr_number = pr;
    provider_name = e.active;
    model = model;
    results = results;
    total_elapsed_ms = e.elapsed_ms;
    total_tokens_in = total (λ v. v.tokens_in) results;
    total_tokens_out = total (λ v. v.tokens_out) results;
    est_cost_usd =
        e.cost e.active model (total (λ v. v.tokens_in) results)
          (total (λ v. v.tokens_out) results);
    diff_truncated = truncated;
  }

  unfoldable pub publish : ℕ → Bool → List SpecialistResult → Option ℕ → AttemptEnd
  publish pr truncated results comment_id =
      if all_failed results
      then ([], raised (other_error (all_failed_message results)))
      else elim e.model [
        | none ↦ ([], raised (other_error (codes "no model configured")))
        | some model ↦ posted (review_of pr truncated results model) comment_id e.upserted
      ]

  -- The outcomes of the three specialists.
  abbrev pub raw_results : Text → List (Result N.F SpecialistResult)
  raw_results text = e.run security text ∷ e.run performance text ∷ e.run code_quality text ∷ []

  abbrev pub merged_results : Text → List SpecialistResult
  merged_results text =
      merged shown security (e.run security text)
      ∷ merged shown performance (e.run performance text)
      ∷ merged shown code_quality (e.run code_quality text)
      ∷ []

  unfoldable pub gathered : ℕ → AnnotatedDiff → Option ℕ → AttemptEnd
  unfolding publish max_wait
  gathered pr annotated comment_id = elim (rate_limits (raw_results annotated.text)) [
    | r ∷ rs ↦ ([], returned (review_rate_limited (max_wait N r rs)))
    | [] ↦ publish pr annotated.truncated (merged_results annotated.text) comment_id
  ]

  unfoldable pub diff_reviewed : ℕ → AnnotatedDiff → Option ℕ → AttemptEnd
  unfolding gathered
  diff_reviewed pr annotated comment_id = elim (strip annotated.text) [
    | [] ↦ ([], returned review_skipped)
    | c ∷ cs ↦ elim e.tuning_error [
      | some t ↦ ([], raised (other_error t))
      | none ↦ gathered pr annotated comment_id
    ]
  ]

  abbrev pub drafts_checked : ℕ → PrDiff → Option ℕ → AttemptEnd
  drafts_checked pr diff comment_id =
      let go = diff_reviewed pr (e.annotate diff.text) comment_id in
      if diff.draft
      then elim e.review_drafts [
        | none ↦ (
          [],
          raised (
              other_error
                (codes "review-draft-PRs config not available (not yet refreshed from the DB)")),
        )
        | some drafts ↦ if drafts then go else ([], returned review_skipped)
      ]
      else go

  -- A rename that GitHub reports is written first; its failure is only logged.
  abbrev pub migrated : Text → PrDiff → List (Effect Price)
  migrated repo diff =
      if text_eq diff.repo_full_name repo then [] else migrates repo diff.repo_full_name ∷ []

  abbrev pub after_fetch : Text → ℕ → Option ℕ → Result N.F PrDiff → AttemptEnd
  after_fetch repo pr comment_id (raised x) = ([], raised x)
  after_fetch repo pr comment_id (returned diff) =
      let (effects, r) = drafts_checked pr diff comment_id in (migrated repo diff ++ effects, r)

  unfoldable pub attempt_review : Text → ℕ → Option ℕ → AttemptEnd
  unfolding diff_reviewed
  attempt_review repo pr comment_id = after_fetch repo pr comment_id e.fetched

  -- `run_review`
  abbrev reply : Result N.F (Attempt N.F Price) → Result N.F (ReviewResult Price)
  reply (raised x) = raised x
  reply (returned (review_rate_limited r)) = raised (rate_limit r)
  reply (returned review_skipped) =
      raised (other_error (codes "review skipped: PR diff has no substantive content"))
  reply (returned (review_completed review i)) = returned review

  unfoldable pub run_review : Text → ℕ → Result N.F (ReviewResult Price)
  unfolding attempt_review
  run_review repo pr = reply (attempt_review repo pr none).1
