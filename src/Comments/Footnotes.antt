-- ===== src/Comments/Footnotes.antt =====
-- Writing a footnote below a body and stripping it again.
use mathlib.Core.Path.{subst}
use mathlib.Core.List.{append_assoc}
use pr_review_bot.Prelude.{
  ℕ, ◌≤◌, ◌≡◌, refl, sym, ap, ◌∙◌, true, false, Option, none, some, [], ◌∷◌, ◌++◌, arith, Text,
  codes, ends_with, rfind, rstrip, is_space, take, length, if◌then◌else◌, option_cases, if_cases,
  ◌⊎◌, inl, inr,
}
use pr_review_bot.Prelude.Texts.{
  ends_with-append, ends_with-longer, rfind-append, take-append, rstrip_idem, rstrip_solid,
  rstrip_blank,
}
use pr_review_bot.Comments.{
  fail_note_start, fail_note_end, schedule_note_start, schedule_note_end, cut_block, otherwise,
  first_of, strip_existing_footnote, with_footnote,
}

-- A block that begins with the last occurrence of its start marker, and ends with its end marker.
pub record IsBlock (start end note : Text) : Type 0 where
  pub inner : Text
  pub shape : note ≡ inner ++ end
  pub opens : rfind note start ≡ some 0

cut_known :
    (start end w : Text) (i : ℕ)
    → rfind w start ≡ some i
    → ends_with w end ≡ true
    → cut_block start end w ≡ some (rstrip (take i w))
unfolding cut_block
cut_known start end w i h e = rw (h, e, cut_block) refl

cut_none : (start end w : Text) → ends_with w end ≡ false → cut_block start end w ≡ none
unfolding cut_block
cut_none start end w e =
    option_cases (λ o. o ≡ none) (rfind w start) none
      (λ i. if ends_with w end then some (rstrip (take i w)) else none) (λ h. refl)
      (λ i h. rw e refl)

-- Appending a well-formed block to a text and cutting it again.
module _ (start end0 note body : Text) (last : ℕ) (solid : is_space last ≡ false)
    (b : IsBlock start (end0 ++ last ∷ []) note) where
  ends_with_last :
      body ++ (codes "\n\n" ++ note) ≡ (body ++ (codes "\n\n" ++ (b.inner ++ end0))) ++ last ∷ []
  ends_with_last = rw b.shape (simp append_assoc)

  ends_with_end :
      body ++ (codes "\n\n" ++ note) ≡ (body ++ (codes "\n\n" ++ b.inner)) ++ (end0 ++ last ∷ [])
  ends_with_end = rw b.shape (simp append_assoc)

  pub rstrip-block : rstrip (body ++ (codes "\n\n" ++ note)) ≡ body ++ (codes "\n\n" ++ note)
  rstrip-block =
      subst (λ w. rstrip w ≡ w) (sym ends_with_last)
        (rstrip_solid (body ++ (codes "\n\n" ++ (b.inner ++ end0))) last solid)

  rstrip_gap : rstrip (body ++ codes "\n\n") ≡ rstrip body
  unfolding is_space
  rstrip_gap =
      ap rstrip (sym (append_assoc body (10 ∷ []) (10 ∷ [])))
      ∙ rstrip_blank (body ++ 10 ∷ []) 10 refl
      ∙ rstrip_blank body 10 refl

  -- A block that was appended is cut again.
  pub cut_block-append :
      cut_block start (end0 ++ last ∷ []) (body ++ (codes "\n\n" ++ note)) ≡ some (rstrip body)
  cut_block-append =
      cut_known start (end0 ++ last ∷ []) (body ++ (codes "\n\n" ++ note))
        (length (body ++ codes "\n\n"))
        (subst (λ w. rfind w start ≡ some (length (body ++ codes "\n\n")))
          (append_assoc body (codes "\n\n") note)
          (rfind-append (body ++ codes "\n\n") note start 0 b.opens ∙ ap some (omega arith)))
        (subst (λ w. ends_with w (end0 ++ last ∷ []) ≡ true) (sym ends_with_end)
          (ends_with-append (body ++ (codes "\n\n" ++ b.inner)) (end0 ++ last ∷ [])))
      ∙ ap (λ t. some (rstrip t))
          (ap (take (length (body ++ codes "\n\n"))) (sym (append_assoc body (codes "\n\n") note))
            ∙ take-append (body ++ codes "\n\n") note)
      ∙ ap some rstrip_gap

-- A text that ends with another marker has no block of this kind.
pub cut_block-other :
    (start end0 end1 note body : Text) (b : IsBlock start end1 note) (start0 : Text)
    → length end0 ≤ length end1
    → ends_with end1 end0 ≡ false
    → cut_block start0 end0 (body ++ (codes "\n\n" ++ note)) ≡ none
cut_block-other start end0 end1 note body b start0 h e =
    cut_none start0 end0 (body ++ (codes "\n\n" ++ note)) (
      subst (λ w. ends_with w end0 ≡ false)
        (append_assoc body (codes "\n\n" ++ b.inner) end1 ∙ rw b.shape (simp append_assoc))
        (ends_with-longer (body ++ (codes "\n\n" ++ b.inner)) end1 end0 h ∙ e))

abbrev IsCut : Option Text → Type 0
IsCut o = (o ≡ none) ⊎ ((t : Text) × (o ≡ some (rstrip t)))

cut_block-IsCut : (start end w : Text) → IsCut (cut_block start end w)
unfolding cut_block
cut_block-IsCut start end w =
    option_cases IsCut (rfind w start) none
      (λ i. if ends_with w end then some (rstrip (take i w)) else none) (λ h. inl refl)
      (λ i h.
        if_cases IsCut (ends_with w end) (some (rstrip (take i w))) none (λ e. inr (take i w, refl))
          (λ e. inl refl))

solid_choice :
    (a b : Option Text) (d : Text)
    → IsCut a
    → IsCut b
    → rstrip (otherwise (first_of a b) (rstrip d)) ≡ otherwise (first_of a b) (rstrip d)
solid_choice a b d (inr (t, e)) hb = rw e (rstrip_idem t)
solid_choice a b d (inl e) (inr (t, f)) = rw (e, f) (rstrip_idem t)
solid_choice a b d (inl e) (inl f) = rw (e, f) (rstrip_idem d)

-- What is left of a text has no blank end.
strip-solid : (body : Text) → rstrip (strip_existing_footnote body) ≡ strip_existing_footnote body
unfolding strip_existing_footnote
strip-solid body =
    solid_choice (cut_block fail_note_start fail_note_end (rstrip body))
      (cut_block schedule_note_start schedule_note_end (rstrip body)) body
      (cut_block-IsCut fail_note_start fail_note_end (rstrip body))
      (cut_block-IsCut schedule_note_start schedule_note_end (rstrip body))

module _ (w t : Text) (solid : rstrip w ≡ w) where
  strip_first : cut_block fail_note_start fail_note_end w ≡ some t → strip_existing_footnote w ≡ t
  unfolding strip_existing_footnote
  strip_first h = rw (solid, h) refl

  strip_second :
      cut_block fail_note_start fail_note_end w ≡ none
      → cut_block schedule_note_start schedule_note_end w ≡ some t
      → strip_existing_footnote w ≡ t
  unfolding strip_existing_footnote
  strip_second g h = rw (solid, g, h) refl

-- A block that was appended is stripped again.
pub strip-fail_note :
    (body note : Text)
    → IsBlock fail_note_start fail_note_end note
    → strip_existing_footnote (with_footnote body note) ≡ strip_existing_footnote body
unfolding is_space
strip-fail_note body note b =
    let left = strip_existing_footnote body in
    strip_first (with_footnote body note) (rstrip left)
      (rstrip-block fail_note_start (codes "<!-- /ai-review-fail-note --") note left 62 refl b)
      (cut_block-append fail_note_start (codes "<!-- /ai-review-fail-note --") note left 62 refl b)
    ∙ strip-solid body

pub strip-schedule_note :
    (body note : Text)
    → IsBlock schedule_note_start schedule_note_end note
    → strip_existing_footnote (with_footnote body note) ≡ strip_existing_footnote body
unfolding is_space
strip-schedule_note body note b =
    let left = strip_existing_footnote body in
    strip_second (with_footnote body note) (rstrip left)
      (rstrip-block schedule_note_start (codes "<!-- /ai-review-schedule-note --") note left 62 refl
        b)
      (cut_block-other schedule_note_start fail_note_end schedule_note_end note left b
        fail_note_start (omega arith) refl)
      (cut_block-append schedule_note_start (codes "<!-- /ai-review-schedule-note --") note left 62
        refl b)
    ∙ strip-solid body
