-- ===== src/Formatting/Notes.antt =====
-- The two footnotes as blocks for the stripping of github_app.py.
use mathlib.Core.Path.{subst}
use mathlib.Core.Option.{some-injective}
use mathlib.Core.List.{append_assoc}
use pr_review_bot.Prelude.{
  ℕ, zero, suc, ◌+◌, ◌/◌, ◌%◌, ◌≡◌, ◌≢◌, refl, sym, Bool, true, not, ◌&&◌, none, some, [], ◌∷◌,
  ◌++◌, arith, ◌==◌, ltb, if_cases, Text, codes, has_prefix, rfind, decimal, All,
}
use pr_review_bot.Prelude.Texts.{rfind-lacks, digits_fuel}
use pr_review_bot.Comments.{
  fail_note_start, fail_note_end, schedule_note_start, schedule_note_end, strip_existing_footnote,
  with_footnote,
}
use pr_review_bot.Comments.Footnotes.{IsBlock, strip-fail_note, strip-schedule_note}
use pr_review_bot.Formatting.Bodies.{
  format_failure_footnote, format_schedule_notice, failure_text, schedule_text, NoticeReason,
  of_provider, of_usage_cap, hour_minute, two_digits, attempts_text, warning,
}

-- No character of the text opens a marker.
unfoldable Unopened : Text → Type 0
Unopened = All (λ c. c ≢ 60)

abbrev has_no_open : Text → Bool
has_no_open [] = true
has_no_open (c ∷ cs) = not (c == 60) && has_no_open cs

has_no_open-Unopened : (xs : Text) → has_no_open xs ≡ true → Unopened xs
unfolding Unopened
has_no_open-Unopened [] h = tt
has_no_open-Unopened (x ∷ xs) h = ground (arith, has_no_open-Unopened xs)

Unopened-append : (xs ys : Text) → Unopened xs → Unopened ys → Unopened (xs ++ ys)
unfolding Unopened
Unopened-append [] ys a b = b
Unopened-append (x ∷ xs) ys a b = (a.0, Unopened-append xs ys a.1 b)

decimal-Unopened : (n : ℕ) → Unopened (decimal n)
unfolding decimal Unopened
decimal-Unopened n = by_fuel n n
  where
    by_fuel : (f n : ℕ) → Unopened (digits_fuel f n)
    by_fuel zero n = (omega arith, tt)
    by_fuel (suc f) n =
        if_cases Unopened (ltb n 10) ((48 + n % 10) ∷ [])
          (digits_fuel f (n / 10) ++ ((48 + n % 10) ∷ [])) (λ h. (omega arith, tt))
          (λ h. Unopened-append (digits_fuel f (n / 10)) _ (by_fuel f (n / 10)) (omega arith, tt))

after_literal :
    (xs : Text) → has_no_open xs ≡ true → (ys : Text) → Unopened ys → Unopened (xs ++ ys)
after_literal xs h ys b = Unopened-append xs ys (has_no_open-Unopened xs h) b

two_digits-Unopened : (n : ℕ) (ys : Text) → Unopened ys → Unopened (two_digits n ++ ys)
unfolding Unopened
two_digits-Unopened n ys b = (omega arith, (omega arith, b))

hour_minute-Unopened : (t : ℕ) → Unopened (hour_minute t)
unfolding hour_minute
hour_minute-Unopened t = two_digits-Unopened (t / 60000000 / 60 % 24) _ (
    after_literal (codes ":") refl _
      (two_digits-Unopened (t / 60000000 % 60) _ (has_no_open-Unopened (codes " UTC") refl)))

attempts_text-Unopened : (n : ℕ) → Unopened (attempts_text n)
attempts_text-Unopened n =
    if_cases Unopened (n == 1) (codes "attempt") (codes "attempts")
      (λ h. has_no_open-Unopened (codes "attempt") refl)
      (λ h. has_no_open-Unopened (codes "attempts") refl)

abbrev failure_end : Text
failure_end =
    codes
      " (service error). The review above may be behind the latest commit; it will retry on the next push.\n"

failure_text-Unopened : (n : ℕ) → Unopened (failure_text n)
failure_text-Unopened n = after_literal (codes "\n> ") refl _ (
    after_literal warning refl _ (
      after_literal (codes " A later automated re-review could not be completed after ") refl _ (
        Unopened-append (decimal n) _ (decimal-Unopened n) (
          after_literal (codes " ") refl _ (
            Unopened-append (attempts_text n) failure_end (attempts_text-Unopened n)
              (has_no_open-Unopened failure_end refl))))))

schedule_text-Unopened : (t : ℕ) (reason : NoticeReason) → Unopened (schedule_text t reason)
schedule_text-Unopened t of_provider = after_literal (codes "\n🔄 Re-review scheduled ~") refl _ (
    Unopened-append (hour_minute t) _ (hour_minute-Unopened t)
      (has_no_open-Unopened (codes "\n") refl))
schedule_text-Unopened t of_usage_cap = after_literal (codes "\n🔄 Re-review scheduled ~") refl _ (
    Unopened-append (hour_minute t)
      (codes " (usage limit reached — resets automatically, not a provider quota issue)\n")
      (hour_minute-Unopened t)
      (has_no_open-Unopened
        (codes " (usage limit reached — resets automatically, not a provider quota issue)\n") refl))

-- A marker, a text that opens none, and another marker.
module _ (start_rest text end : Text) where
  opens_once :
      Unopened text
      → has_no_open start_rest ≡ true
      → has_prefix (60 ∷ (start_rest ++ (text ++ end))) (60 ∷ start_rest) ≡ true
      → rfind end (60 ∷ start_rest) ≡ none
      → rfind (60 ∷ (start_rest ++ (text ++ end))) (60 ∷ start_rest) ≡ some 0
  unfolding rfind Unopened
  opens_once a b p e =
      rw
        (
          p,
          rfind-lacks start_rest (text ++ end) start_rest 60 (has_no_open-Unopened start_rest b)
              (rfind-lacks text end start_rest 60 a e),
        )
        refl

pub failure_IsBlock : (n : ℕ) → IsBlock fail_note_start fail_note_end (format_failure_footnote n)
unfolding format_failure_footnote rfind
failure_IsBlock n = record {
  inner = fail_note_start ++ failure_text n;
  shape = sym (append_assoc fail_note_start (failure_text n) fail_note_end);
  opens =
      opens_once (codes "!-- ai-review-fail-note -->") (failure_text n) fail_note_end
        (failure_text-Unopened n) refl refl refl;
}

pub schedule_IsBlock :
    (t : ℕ) (reason : NoticeReason) (note : Text)
    → format_schedule_notice true t reason ≡ some note
    → IsBlock schedule_note_start schedule_note_end note
unfolding format_schedule_notice rfind
schedule_IsBlock t reason note h =
    subst (IsBlock schedule_note_start schedule_note_end) (some-injective _ _ h) (record {
      inner = schedule_note_start ++ schedule_text t reason;
      shape = sym (append_assoc schedule_note_start (schedule_text t reason) schedule_note_end);
      opens =
          opens_once (codes "!-- ai-review-schedule-note -->") (schedule_text t reason)
            schedule_note_end (schedule_text-Unopened t reason) refl refl refl;
    })

-- Appending a footnote below any comment, a failure footnote or a schedule notice, and stripping it
-- again gives what stripping the comment itself gives: the review above is kept, and a footnote of
-- either kind replaces the one before it.
pub strip-with_footnote :
    (body : Text) (attempts t : ℕ) (reason : NoticeReason) (notice : Text)
    → format_schedule_notice true t reason ≡ some notice
    → (strip_existing_footnote (with_footnote body (format_failure_footnote attempts))
        ≡ strip_existing_footnote body)
      × (strip_existing_footnote (with_footnote body notice) ≡ strip_existing_footnote body)
strip-with_footnote body attempts t reason notice h = (
  strip-fail_note body (format_failure_footnote attempts) (failure_IsBlock attempts),
  strip-schedule_note body notice (schedule_IsBlock t reason notice h),
)
