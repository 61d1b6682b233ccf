-- ===== src/Formatting/Marked.antt =====
-- The marker in the comments that formatting.py writes.
use pr_review_bot.Prelude.{ℕ, ◌≡◌, refl, true, [], ◌∷◌, ◌++◌, arith, Text, has_prefix, occurs}
use pr_review_bot.Number.{Number}
use pr_review_bot.Comments.{comment_marker, marked_body}
use pr_review_bot.Formatting.Bodies.{
  ReviewResult, format_comment, format_placeholder, format_failure, PlaceholderReason,
}

has_prefix-append : (p xs : Text) → has_prefix (p ++ xs) p ≡ true
has_prefix-append [] xs = refl
has_prefix-append (x ∷ p) xs = ground (arith, has_prefix-append p xs)

occurs-prefix : (p xs : Text) → has_prefix xs p ≡ true → occurs p xs ≡ true
unfolding occurs
occurs-prefix p [] h = h
occurs-prefix p (x ∷ xs) h = rw h refl

marked_body-marked : (xs : Text) → marked_body (comment_marker ++ xs) ≡ comment_marker ++ xs
marked_body-marked xs =
    rw (occurs-prefix comment_marker (comment_marker ++ xs) (has_prefix-append comment_marker xs))
      refl

-- A review, a placeholder and a failure are posted as they are written: each has the marker by which
-- the next run finds the comment, so writing adds no second one.
pub marked_body-formatted :
    {Price : Type 0} (seconds : ℕ → Text) (dollars : Price → Text) (r : ReviewResult Price)
    (N : Number) (retry_after : N.F) (now : ℕ) (reason : PlaceholderReason) (attempts : ℕ)
    → (marked_body (format_comment seconds dollars r) ≡ format_comment seconds dollars r)
      × (marked_body (format_placeholder N retry_after now reason)
          ≡ format_placeholder N retry_after now reason)
      × (marked_body (format_failure attempts) ≡ format_failure attempts)
unfolding format_comment format_placeholder format_failure
marked_body-formatted seconds dollars r N retry_after now reason attempts =
    (marked_body-marked _, marked_body-marked _, marked_body-marked _)
