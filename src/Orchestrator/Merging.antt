-- ===== src/Orchestrator/Merging.antt =====
-- What a review posts.
use pr_review_bot.Prelude.{
  ℕ, suc, ◌≡◌, refl, ap, ◌∙◌, false, Option, none, some, List, [], ◌∷◌, ◌++◌, ◌⊎◌, inl, inr, Text,
  if_cases, option_cases, text_eq,
}
use pr_review_bot.Number.{Number}
use pr_review_bot.Formatting.{strip}
use pr_review_bot.Formatting.Bodies.{ReviewResult, format_comment}
use pr_review_bot.Orchestrator.{other_error, Result, returned, raised}
use pr_review_bot.Orchestrator.Attempt.{
  PrDiff, AnnotatedDiff, Effect, migrates, posts, records, review_completed, review_rate_limited,
  review_skipped, Inputs, max_wait, rate_limits, all_failed, review_of, publish, raw_results,
  merged_results, gathered, diff_reviewed, drafts_checked, migrated, after_fetch, attempt_review,
  AttemptEnd,
}

module _ (N : Number) {Price : Type 0} (e : Inputs N.F Price) (shown : N.F → Text) where
  -- The comments among the effects.
  abbrev pub comments : List (Effect Price) → ℕ
  comments [] = 0
  comments (migrates a b ∷ es) = comments es
  comments (posts t i ∷ es) = suc (comments es)
  comments (records v i ∷ es) = comments es

  -- A completed review: its comment and its row are those of the merged results, and some specialist
  -- did not fail.
  pub record IsComplete (pr : ℕ) (annotated : AnnotatedDiff) (comment_id : Option ℕ)
      (x : AttemptEnd N e shown) : Type 0 where
    pub review : ReviewResult Price
    pub id : ℕ
    pub is_result : x ≡ (
      posts (format_comment e.seconds e.dollars review) comment_id ∷ records review id ∷ [],
      returned (review_completed review id),
    )
    pub all_visible : review.results ≡ merged_results N e shown annotated.text
    pub some_ok : all_failed review.results ≡ false
    pub none_limited : rate_limits (raw_results N e shown annotated.text) ≡ []

  abbrev IsAllOrNothing : ℕ → AnnotatedDiff → Option ℕ → AttemptEnd N e shown → Type 0
  IsAllOrNothing pr annotated comment_id x = (x.0 ≡ []) ⊎ IsComplete pr annotated comment_id x

  publish-IsAllOrNothing :
      (pr : ℕ) (annotated : AnnotatedDiff) (comment_id : Option ℕ) (i : ℕ)
      → e.upserted ≡ returned i
      → rate_limits (raw_results N e shown annotated.text) ≡ []
      → IsAllOrNothing pr annotated comment_id (
          publish N e shown pr annotated.truncated
            (merged_results N e shown annotated.text)
            comment_id)
  unfolding publish
  publish-IsAllOrNothing pr annotated comment_id i h l =
      if_cases (IsAllOrNothing pr annotated comment_id)
        (all_failed (merged_results N e shown annotated.text)) _ _ (λ f. inl refl)
        (λ f.
          option_cases (IsAllOrNothing pr annotated comment_id) e.model _ _ (λ g. inl refl)
            (λ model g. inr (record {
              review =
                  review_of N e shown pr annotated.truncated
                    (merged_results N e shown annotated.text) model;
              id = i;
              is_result = rw h refl;
              all_visible = refl;
              some_ok = f;
              none_limited = l;
            })))

  gathered-IsAllOrNothing :
      (pr : ℕ) (annotated : AnnotatedDiff) (comment_id : Option ℕ) (i : ℕ)
      → e.upserted ≡ returned i
      → IsAllOrNothing pr annotated comment_id (gathered N e shown pr annotated comment_id)
  unfolding gathered
  gathered-IsAllOrNothing pr annotated comment_id i h =
      by_waits (rate_limits (raw_results N e shown annotated.text)) refl
    where
      by_waits :
          (ws : List N.F)
          → rate_limits (raw_results N e shown annotated.text) ≡ ws
          → IsAllOrNothing pr annotated comment_id (elim ws [
            | a ∷ rest ↦ ([], returned (review_rate_limited (max_wait N a rest)))
            | [] ↦
                publish N e shown pr annotated.truncated
                  (merged_results N e shown annotated.text)
                  comment_id
          ])
      by_waits [] l = publish-IsAllOrNothing pr annotated comment_id i h l
      by_waits (a ∷ rest) l = inl refl

  diff_reviewed-IsAllOrNothing :
      (pr : ℕ) (annotated : AnnotatedDiff) (comment_id : Option ℕ) (i : ℕ)
      → e.upserted ≡ returned i
      → IsAllOrNothing pr annotated comment_id (diff_reviewed N e shown pr annotated comment_id)
  unfolding diff_reviewed
  diff_reviewed-IsAllOrNothing pr annotated comment_id i h = by_text (strip annotated.text)
    where
      by_text :
          (t : Text)
          → IsAllOrNothing pr annotated comment_id (elim t [
            | [] ↦ ([], returned review_skipped)
            | c ∷ cs ↦ elim e.tuning_error [
              | some m ↦ ([], raised (other_error m))
              | none ↦ gathered N e shown pr annotated comment_id
            ]
          ])
      by_text [] = inl refl
      by_text (c ∷ cs) =
          option_cases (IsAllOrNothing pr annotated comment_id) e.tuning_error _ _
            (λ g. gathered-IsAllOrNothing pr annotated comment_id i h) (λ m g. inl refl)

  drafts_checked-IsAllOrNothing :
      (pr : ℕ) (diff : PrDiff) (comment_id : Option ℕ) (i : ℕ)
      → e.upserted ≡ returned i
      → IsAllOrNothing pr
          (e.annotate diff.text)
          comment_id
          (drafts_checked N e shown pr diff comment_id)
  drafts_checked-IsAllOrNothing pr diff comment_id i h =
      let reached = diff_reviewed-IsAllOrNothing pr (e.annotate diff.text) comment_id i h in
      let P = IsAllOrNothing pr (e.annotate diff.text) comment_id in
      if_cases P diff.draft _ _
        (λ d.
          option_cases P e.review_drafts _ _ (λ g. inl refl)
            (λ drafts g. if_cases P drafts _ _ (λ t. reached) (λ t. inl refl)))
        (λ d. reached)

  migrated-comments :
      (repo : Text) (diff : PrDiff) → comments (migrated N e shown repo diff ++ []) ≡ 0
  migrated-comments repo diff =
      if_cases (λ l. comments (l ++ []) ≡ 0) (text_eq diff.repo_full_name repo) _ _ (λ h. refl)
        (λ h. refl)

  -- A review posts all or nothing, whatever its calls return or raise, if the comment can be written:
  -- either no comment is posted, or one comment and one row are written for the result of all three
  -- specialists, those that raised as failed ones, where one of them did not fail and none met a
  -- rate limit.
  pub attempt_review_atomic :
      (repo : Text) (pr : ℕ) (comment_id : Option ℕ) (i : ℕ)
      → e.upserted ≡ returned i
      → (comments (attempt_review N e shown repo pr comment_id).0 ≡ 0)
        ⊎ ((diff : PrDiff) × (x : AttemptEnd N e shown) × (e.fetched ≡ returned diff)
            × IsComplete pr (e.annotate diff.text) comment_id x
            × (attempt_review N e shown repo pr comment_id
                ≡ (migrated N e shown repo diff ++ x.0, x.1)))
  unfolding attempt_review
  attempt_review_atomic repo pr comment_id i h = by_fetch e.fetched refl
    where
      by_fetch :
          (f : Result N.F PrDiff)
          → e.fetched ≡ f
          → (comments (after_fetch N e shown repo pr comment_id f).0 ≡ 0)
            ⊎ ((diff : PrDiff) × (x : AttemptEnd N e shown) × (e.fetched ≡ returned diff)
                × IsComplete pr (e.annotate diff.text) comment_id x
                × (after_fetch N e shown repo pr comment_id f
                    ≡ (migrated N e shown repo diff ++ x.0, x.1)))
      by_fetch (raised x) g = inl refl
      by_fetch (returned diff) g = elim (drafts_checked-IsAllOrNothing pr diff comment_id i h) [
        | inl n ↦
            inl (
              ap (λ l. comments (migrated N e shown repo diff ++ l)) n
              ∙ migrated-comments repo diff)
        | inr c ↦ inr (diff, drafts_checked N e shown pr diff comment_id, g, c, refl)
      ]
