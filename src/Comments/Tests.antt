-- ===== src/Comments/Tests.antt =====
-- Runs of the comment code, and the theorems at concrete comments.
use pr_review_bot.Prelude.{
  ℕ, ◌≡◌, refl, Bool, true, false, none, some, List, [], ◌∷◌, ◌++◌, arith, Text, codes, rfind,
  occurs, is_space, rstrip,
}
use pr_review_bot.Comments.{
  Comment, comment_marker, fail_note_start, by_id, scan, find_bot_comment, edit, marked_body,
  upsert_comment, strip_existing_footnote, clear_schedule_notice, cut_block,
}
use pr_review_bot.Comments.Upsert.{upsert_comment-again, IsCarried, upsert_comment_lem}

abbrev comment : ℕ → Bool → Text → Comment
comment i bot t = record { id = i; is_bot = bot; body = t }

-- A human who quotes the marker, the bot's comment, and a remark.
abbrev thread : List Comment
thread =
    comment 1 false comment_marker
    ∷ comment 2 true (comment_marker ++ codes "\nold")
    ∷ comment 3 false (codes "hi")
    ∷ []

quoted_marker :
    find_bot_comment true thread none ≡ some (comment 2 true (comment_marker ++ codes "\nold"))
unfolding find_bot_comment scan occurs
quoted_marker = refl

-- An id that GitHub does not know falls back to the scan.
unknown_id :
    find_bot_comment true thread (some 9) ≡ some (comment 2 true (comment_marker ++ codes "\nold"))
unfolding find_bot_comment scan occurs by_id
unknown_id = refl

-- A start marker inside the review is not the footnote's.
stray_marker :
    strip_existing_footnote (fail_note_start ++ codes " is quoted here.  ")
    ≡ fail_note_start ++ codes " is quoted here."
unfolding strip_existing_footnote cut_block rfind rstrip is_space
stray_marker = refl

nothing_to_clear : clear_schedule_notice true thread none ≡ (some 2, thread)
unfolding clear_schedule_notice find_bot_comment scan occurs strip_existing_footnote cut_block rfind
    rstrip is_space
nothing_to_clear = refl

upsert_comment_lem_example :
    IsCarried (marked_body (codes "new")) (upsert_comment true 7 thread (codes "new") none)
    × (by_id 3 (upsert_comment true 7 thread (codes "new") none).1 ≡ by_id 3 thread)
unfolding upsert_comment find_bot_comment scan occurs by_id edit
upsert_comment_lem_example =
    upsert_comment_lem true 7 thread (codes "new") none 3 (refl, (refl, (refl, tt))) refl
      (omega arith)

upsert_comment-again_example :
    upsert_comment true 8
      (upsert_comment true 7 thread (codes "new") none).1
      (codes "newer")
      (some (upsert_comment true 7 thread (codes "new") none).0)
    ≡ (
      (upsert_comment true 7 thread (codes "new") none).0,
      edit
          (upsert_comment true 7 thread (codes "new") none).0
          (marked_body (codes "newer"))
          (upsert_comment true 7 thread (codes "new") none).1,
    )
unfolding by_id
upsert_comment-again_example =
    upsert_comment-again true 7 thread (codes "new") none (codes "newer") 8
      (refl, (refl, (refl, tt))) refl
