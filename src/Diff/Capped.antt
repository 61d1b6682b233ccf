-- ===== src/Diff/Capped.antt =====
-- `annotate_and_cap` of diff_utils.py: the text of the annotated lines, and the budget.
use pr_review_bot.Prelude.{
  ℕ, zero, suc, ◌+◌, ◌*◌, ◌≤◌, ◌<◌, ◌≡◌, refl, ap, ◌∙◌, String, true, false, ◌⊎◌, inl, inr, Option,
  List, [], ◌∷◌, ◌++◌, arith, map, if◌then◌else◌, if_cases, leb, Text, codes, decimal, length,
  length-append, take,
}
use pr_review_bot.Formatting.{join}
use pr_review_bot.Orchestrator.Attempt.{AnnotatedDiff}
use pr_review_bot.Diff.{Shown, plain, numbered, annotate, at_start}

abbrev pub chars_per_token : ℕ
chars_per_token = 4

abbrev pub default_max_tokens : ℕ
default_max_tokens = 6000

abbrev pub truncation_marker : Text
truncation_marker = codes "\n[... diff truncated: exceeded token budget ...]\n"

-- A line of the output.
abbrev pub shown_line : Shown → Text
shown_line (plain line) = codes line
shown_line (numbered file n line) =
    codes file ++ (codes ":" ++ (decimal n ++ (codes ": " ++ codes line)))

module _ (file_header : String → Option String) (hunk_header : String → Option ℕ) where
  -- `_annotate` of the lines of a diff, joined.
  abbrev pub annotated_text : List String → Text
  annotated_text lines =
      join (codes "\n") (map shown_line (annotate file_header hunk_header at_start lines))

  abbrev pub capped : Text → ℕ → AnnotatedDiff
  capped text budget =
      if leb (length text) budget
      then record { text = text; truncated = false }
      else record { text = take budget text ++ truncation_marker; truncated = true }

  unfoldable pub annotate_and_cap : List String → (max_tokens : ℕ) → AnnotatedDiff
  annotate_and_cap lines max_tokens = capped (annotated_text lines) (max_tokens * chars_per_token)

  length-take : (n : ℕ) (xs : Text) → n < length xs → length (take n xs) ≡ n
  length-take zero xs h = refl
  length-take (suc n) [] h = absurd (omega arith)
  length-take (suc n) (x ∷ xs) h = omega (arith, length-take n xs (omega arith))

  -- A text within the budget, or exactly the budget and the marker.
  abbrev pub IsWithin : Text → ℕ → AnnotatedDiff → Type 0
  IsWithin text budget d =
      ((length text ≤ budget) × (d ≡ record { text = text; truncated = false }))
      ⊎ ((budget < length text)
          × (d.truncated ≡ true)
          × (d.text ≡ take budget text ++ truncation_marker)
          × (length d.text ≡ budget + 49))

  -- The diff that the specialists see is the whole annotated diff and is not marked as truncated where
  -- that has at most four characters for each token of the budget; otherwise it is marked, and is that
  -- many first characters of it followed by the truncation marker.
  pub annotate_and_cap_lem :
      (lines : List String) (max_tokens : ℕ)
      → IsWithin (annotated_text lines) (max_tokens * 4) (annotate_and_cap lines max_tokens)
  unfolding annotate_and_cap
  annotate_and_cap_lem lines max_tokens = within (annotated_text lines) (max_tokens * 4)
    where
      within : (text : Text) (budget : ℕ) → IsWithin text budget (capped text budget)
      within text budget =
          if_cases (IsWithin text budget) (leb (length text) budget)
            (record { text = text; truncated = false })
            (record { text = take budget text ++ truncation_marker; truncated = true })
            (λ h. inl (grind arith, refl))
            (λ h.
              let longer : budget < length text = grind arith in
              inr (
                longer,
                refl,
                refl,
                length-append (take budget text) truncation_marker
                    ∙ ap (λ n. n + 49) (length-take budget text longer),
              ))
