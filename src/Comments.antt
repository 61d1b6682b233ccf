-- ===== src/Comments.antt =====
-- The comments of github_app.py: finding the bot's comment on a pull request, writing it, and the
-- footnotes below a review. GitHub's side is the list of the comments of the pull request; a call
-- by id finds the comment of that id or raises.
pub mod Footnotes
pub mod Upsert
mod Tests
use pr_review_bot.Prelude.{
  ℕ, zero, suc, ◌+◌, ◌-◌, Bool, true, false, ◌&&◌, Option, none, some, List, [], ◌∷◌, ◌++◌,
  if◌then◌else◌, ◌==◌, Text, codes, text_eq, ends_with, rfind, occurs, rstrip, take, not,
}

abbrev pub comment_marker : Text
comment_marker = codes "<!-- ai-code-review-bot -->"

abbrev pub fail_note_start : Text
fail_note_start = codes "<!-- ai-review-fail-note -->"

abbrev pub fail_note_end : Text
fail_note_end = codes "<!-- /ai-review-fail-note -->"

abbrev pub schedule_note_start : Text
schedule_note_start = codes "<!-- ai-review-schedule-note -->"

abbrev pub schedule_note_end : Text
schedule_note_end = codes "<!-- /ai-review-schedule-note -->"

-- One round of the loop over `_FOOTNOTE_MARKERS`: the text without the block, where it ends one.
unfoldable pub cut_block : Text → Text → Text → Option Text
cut_block start end stripped = elim (rfind stripped start) [
  | none ↦ none
  | some i ↦ if ends_with stripped end then some (rstrip (take i stripped)) else none
]

abbrev pub otherwise : Option Text → Text → Text
otherwise none d = d
otherwise (some a) d = a

abbrev pub first_of : Option Text → Option Text → Option Text
first_of none b = b
first_of (some a) b = some a

-- `_strip_existing_footnote`
unfoldable pub strip_existing_footnote : Text → Text
unfolding cut_block
strip_existing_footnote body =
    let stripped = rstrip body in
    otherwise
      (first_of (cut_block fail_note_start fail_note_end stripped)
        (cut_block schedule_note_start schedule_note_end stripped))
      stripped

pub record Comment : Type 0 where
  pub id : ℕ
  pub is_bot : Bool
  pub body : Text

-- A request for a comment by its id.
unfoldable pub by_id : ℕ → List Comment → Option Comment
by_id i [] = none
by_id i (c ∷ cs) = if c.id == i then some c else by_id i cs

-- `_is_bot_comment(comment) and COMMENT_MARKER in comment.body`
abbrev pub is_marked : Comment → Bool
is_marked c = c.is_bot && occurs comment_marker c.body

unfoldable pub scan : List Comment → Option Comment
scan [] = none
scan (c ∷ cs) = if is_marked c then some c else scan cs

-- `answers` says whether the request by id succeeds where the comment is there.
unfoldable pub find_bot_comment :
    (answers : Bool) → List Comment → (comment_id : Option ℕ) → Option Comment
unfolding by_id scan
find_bot_comment answers cs none = scan cs
find_bot_comment false cs (some i) = scan cs
find_bot_comment true cs (some i) = elim (by_id i cs) [ none ↦ scan cs | some c ↦ some c ]

-- `edit`
unfoldable pub edit : ℕ → Text → List Comment → List Comment
edit i body [] = []
edit i body (c ∷ cs) = (if c.id == i then record c { body = body } else c) ∷ edit i body cs

-- `create_issue_comment`: the next comment is the bot's, with an id that is new.
abbrev pub created : ℕ → Text → Comment
created i body = record { id = i; is_bot = true; body = body }

-- The id of the comment that a function returns, and the comments after it. `fresh` is the id that
-- GitHub gives to a comment that is created.
abbrev pub Written : Type 0
Written = ℕ × List Comment

abbrev pub marked_body : Text → Text
marked_body body =
    if occurs comment_marker body then body else comment_marker ++ (codes "\n" ++ body)

unfoldable pub upsert_comment :
    (answers : Bool) (fresh : ℕ) → List Comment → Text → Option ℕ → Written
unfolding find_bot_comment edit
upsert_comment answers fresh cs body comment_id =
    let text = marked_body body in
    elim (find_bot_comment answers cs comment_id) [
      | some c ↦ (c.id, edit c.id text cs)
      | none ↦ (fresh, cs ++ created fresh text ∷ [])
    ]

abbrev pub with_footnote : Text → Text → Text
with_footnote body footnote = strip_existing_footnote body ++ (codes "\n\n" ++ footnote)

-- `append_review_footnote` and `append_schedule_notice`, which are the same code.
unfoldable pub append_footnote :
    (answers : Bool) (fresh : ℕ) → List Comment → Text → Option ℕ → Written
unfolding find_bot_comment edit
append_footnote answers fresh cs footnote comment_id =
    elim (find_bot_comment answers cs comment_id) [
      | some c ↦ (c.id, edit c.id (with_footnote c.body footnote) cs)
      | none ↦ (fresh, cs ++ created fresh (comment_marker ++ (codes "\n" ++ footnote)) ∷ [])
    ]

unfoldable pub clear_schedule_notice :
    (answers : Bool) → List Comment → Option ℕ → Option ℕ × List Comment
unfolding find_bot_comment edit strip_existing_footnote
clear_schedule_notice answers cs comment_id = elim (find_bot_comment answers cs comment_id) [
  | none ↦ (none, cs)
  | some c ↦
      let stripped = strip_existing_footnote c.body in
      (some c.id, if text_eq stripped (rstrip c.body) then cs else edit c.id stripped cs)
]
