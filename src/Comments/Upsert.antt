-- ===== src/Comments/Upsert.antt =====
-- Writing the bot's comment: which comment is written, and what stays.
use mathlib.Core.Path.{subst}
use mathlib.Core.List.{map}
use mathlib.Core.Option.{some-injective}
use pr_review_bot.Prelude.{
  ℕ, ◌≡◌, ◌≢◌, refl, sym, ap, ◌∙◌, Bool, true, false, Option, none, some, List, [], ◌∷◌, ◌++◌,
  arith, ◌==◌, Text, codes, Option-cases, inl, inr, Bool-cases, if_cases,
}
use pr_review_bot.Comments.{
  Comment, by_id, is_marked, scan, find_bot_comment, edit, created, Written, marked_body,
  upsert_comment, append_footnote, with_footnote, comment_marker,
}

abbrev pub ids : List Comment → List ℕ
ids = map (λ c. c.id)

-- No two comments have one id.
abbrev pub IsDistinct : List Comment → Type 0
IsDistinct [] = Unit
IsDistinct (c ∷ cs) = (by_id c.id cs ≡ none) × IsDistinct cs

by_id-id : (i : ℕ) (cs : List Comment) (c : Comment) → by_id i cs ≡ some c → c.id ≡ i
unfolding by_id
by_id-id i [] c h = ground arith
by_id-id i (x ∷ cs) c h = ground (arith, by_id-id i cs c)

pub edit-ids : (i : ℕ) (t : Text) (cs : List Comment) → ids (edit i t cs) ≡ ids cs
unfolding edit
edit-ids i t [] = refl
edit-ids i t (c ∷ cs) = ground (arith, edit-ids i t cs)

by_id-edit_other :
    (i j : ℕ) (t : Text) (cs : List Comment) → j ≢ i → by_id j (edit i t cs) ≡ by_id j cs
unfolding edit by_id
by_id-edit_other i j t [] n = refl
by_id-edit_other i j t (c ∷ cs) n = ground (arith, by_id-edit_other i j t cs n)

by_id-edit :
    (i : ℕ) (t : Text) (cs : List Comment) (c : Comment)
    → by_id i cs ≡ some c
    → by_id i (edit i t cs) ≡ some (record c { body = t })
unfolding edit by_id
by_id-edit i t [] c h = ground arith
by_id-edit i t (x ∷ cs) c h = ground (arith, by_id-edit i t cs c)

by_id-append_other :
    (j : ℕ) (cs : List Comment) (c : Comment) → j ≢ c.id → by_id j (cs ++ c ∷ []) ≡ by_id j cs
unfolding by_id
by_id-append_other j [] c n = ground arith
by_id-append_other j (x ∷ cs) c n = ground (arith, by_id-append_other j cs c n)

by_id-append :
    (cs : List Comment) (c : Comment) → by_id c.id cs ≡ none → by_id c.id (cs ++ c ∷ []) ≡ some c
unfolding by_id
by_id-append [] c h = ground arith
by_id-append (x ∷ cs) c h = ground (arith, by_id-append cs c)

by_id_self : (c : Comment) (cs : List Comment) → by_id c.id (c ∷ cs) ≡ some c
unfolding by_id
by_id_self c cs = ground arith

by_id-later :
    (x : Comment) (cs : List Comment) (c : Comment)
    → by_id x.id cs ≡ none
    → by_id c.id cs ≡ some c
    → by_id c.id (x ∷ cs) ≡ some c
unfolding by_id
by_id-later x cs c n h =
    if_cases (λ o. o ≡ some c) (x.id == c.id) (some x) (by_id c.id cs)
      (λ e. ground (arith, clash (ground arith))) (λ e. h)
  where
    clash : x.id ≡ c.id → some c ≡ none
    clash e = sym h ∙ subst (λ i. by_id i cs ≡ none) e n

scan-by_id :
    (cs : List Comment) (c : Comment) → IsDistinct cs → scan cs ≡ some c → by_id c.id cs ≡ some c
unfolding by_id scan
scan-by_id [] c d h = ground arith
scan-by_id (x ∷ cs) c d h = elim (Bool-cases (is_marked x)) [
  | inl m ↦
      let e : x ≡ c = some-injective x c (sym (rw (m, scan) refl) ∙ h) in
      subst (λ y. by_id y.id (x ∷ cs) ≡ some y) e (by_id_self x cs)
  | inr m ↦
      let later : by_id c.id cs ≡ some c = scan-by_id cs c d.1 (sym (rw (m, scan) refl) ∙ h) in
      by_id-later x cs c d.0 later
]

pub find-by_id :
    (answers : Bool) (cs : List Comment) (o : Option ℕ) (c : Comment)
    → IsDistinct cs
    → find_bot_comment answers cs o ≡ some c
    → by_id c.id cs ≡ some c
unfolding find_bot_comment
find-by_id answers cs none c d h = scan-by_id cs c d h
find-by_id false cs (some i) c d h = scan-by_id cs c d h
find-by_id true cs (some i) c d h = elim (Option-cases (by_id i cs)) [
  | inl e ↦ scan-by_id cs c d (sym (rw (e, find_bot_comment) refl) ∙ h)
  | inr (x, e) ↦
      let same : some x ≡ some c = sym (rw (e, find_bot_comment) refl) ∙ h in
      ground (arith, by_id-id i cs x e)
]

-- The comment whose id was returned has this text.
abbrev pub IsCarried : Text → Written → Type 0
IsCarried text (i, cs) = (c : Comment) × (by_id i cs ≡ some c) × (c.body ≡ text)

-- What both ways to write do with the comment that was found.
module _ (fresh : ℕ) (cs : List Comment) (edited : Comment → Text) (fallback : Text) where
  abbrev put : Option Comment → Written
  put (some c) = (c.id, edit c.id (edited c) cs)
  put none = (fresh, cs ++ created fresh fallback ∷ [])

  abbrev text_of : Option Comment → Text
  text_of (some c) = edited c
  text_of none = fallback

  put_others : (o : Option Comment) (j : ℕ) → j ≢ (put o).0 → by_id j (put o).1 ≡ by_id j cs
  put_others none j n = by_id-append_other j cs (created fresh fallback) n
  put_others (some c) j n = by_id-edit_other c.id j (edited c) cs n

  put-IsCarried :
      (o : Option Comment)
      → ((c : Comment) → o ≡ some c → by_id c.id cs ≡ some c)
      → by_id fresh cs ≡ none
      → IsCarried (text_of o) (put o)
  put-IsCarried none h f =
      (created fresh fallback, by_id-append cs (created fresh fallback) f, refl)
  put-IsCarried (some c) h f =
      (record c { body = edited c }, by_id-edit c.id (edited c) cs c (h c refl), refl)

  put_again :
      (o : Option Comment)
      → ((c : Comment) → o ≡ some c → by_id c.id cs ≡ some c)
      → by_id fresh cs ≡ none
      → (text : Text) (fresh2 : ℕ)
      → upsert_comment true fresh2 (put o).1 text (some (put o).0)
        ≡ ((put o).0, edit (put o).0 (marked_body text) (put o).1)
  unfolding upsert_comment find_bot_comment
  put_again o h f text fresh2 =
      let (c, found, shown) = put-IsCarried o h f in
      rw (found, find_bot_comment, upsert_comment)
        (ap (λ i. (i, edit i (marked_body text) (put o).1)) (by_id-id (put o).0 (put o).1 c found))

module _ (answers : Bool) (fresh : ℕ) (cs : List Comment) (body : Text)
    (comment_id : Option ℕ) where
  abbrev found : Option Comment
  found = find_bot_comment answers cs comment_id

  upsert_comment-put :
      upsert_comment answers fresh cs body comment_id
      ≡ put fresh cs (λ c. marked_body body) (marked_body body) found
  unfolding upsert_comment
  upsert_comment-put = by_found found refl
    where
      by_found :
          (o : Option Comment)
          → found ≡ o
          → upsert_comment answers fresh cs body comment_id
            ≡ put fresh cs (λ c. marked_body body) (marked_body body) o
      by_found none e = rw (e, upsert_comment) refl
      by_found (some c) e = rw (e, upsert_comment) refl

  append_footnote-put :
      append_footnote answers fresh cs body comment_id
      ≡ put fresh cs (λ c. with_footnote c.body body) (comment_marker ++ (codes "\n" ++ body)) found
  unfolding append_footnote
  append_footnote-put = by_found found refl
    where
      by_found :
          (o : Option Comment)
          → found ≡ o
          → append_footnote answers fresh cs body comment_id
            ≡ put fresh cs
                (λ c. with_footnote c.body body)
                (comment_marker ++ (codes "\n" ++ body))
                o
      by_found none e = rw (e, append_footnote) refl
      by_found (some c) e = rw (e, append_footnote) refl

  upsert_comment-IsCarried :
      IsDistinct cs
      → by_id fresh cs ≡ none
      → IsCarried (marked_body body) (upsert_comment answers fresh cs body comment_id)
  upsert_comment-IsCarried d f = subst (IsCarried (marked_body body)) (sym upsert_comment-put) (
      subst (λ t. IsCarried t (put fresh cs (λ c. marked_body body) (marked_body body) found))
        (same found)
        (put-IsCarried fresh cs (λ c. marked_body body) (marked_body body) found
          (λ c. find-by_id answers cs comment_id c d) f))
    where
      same :
          (o : Option Comment)
          → text_of fresh cs (λ c. marked_body body) (marked_body body) o ≡ marked_body body
      same none = refl
      same (some c) = refl

  upsert_comment-others :
      (j : ℕ)
      → j ≢ (upsert_comment answers fresh cs body comment_id).0
      → by_id j (upsert_comment answers fresh cs body comment_id).1 ≡ by_id j cs
  upsert_comment-others j =
      subst (λ (w : Written). (j ≢ w.0 → by_id j w.1 ≡ by_id j cs)) (sym upsert_comment-put)
        (put_others fresh cs (λ c. marked_body body) (marked_body body) found j)

  pub append_footnote-others :
      (j : ℕ)
      → j ≢ (append_footnote answers fresh cs body comment_id).0
      → by_id j (append_footnote answers fresh cs body comment_id).1 ≡ by_id j cs
  append_footnote-others j =
      subst (λ (w : Written). (j ≢ w.0 → by_id j w.1 ≡ by_id j cs)) (sym append_footnote-put)
        (put_others fresh cs (λ c. with_footnote c.body body)
          (comment_marker ++ (codes "\n" ++ body)) found j)

  -- A review that is written stands, with the marker before it where it has none, in the comment
  -- whose id is returned, and the comment with any other id is what it was, if the ids are distinct
  -- and a created comment's id is new.
  pub upsert_comment_lem :
      (j : ℕ)
      → IsDistinct cs
      → by_id fresh cs ≡ none
      → j ≢ (upsert_comment answers fresh cs body comment_id).0
      → IsCarried (marked_body body) (upsert_comment answers fresh cs body comment_id)
        × (by_id j (upsert_comment answers fresh cs body comment_id).1 ≡ by_id j cs)
  upsert_comment_lem j d f n = (upsert_comment-IsCarried d f, upsert_comment-others j n)

  -- A second review that is written with the id that the first call returned, and whose request by
  -- id succeeds, edits that same comment and creates none, if the ids are distinct and a created
  -- comment's id is new.
  pub upsert_comment-again :
      (text : Text) (fresh2 : ℕ)
      → IsDistinct cs
      → by_id fresh cs ≡ none
      → let w = upsert_comment answers fresh cs body comment_id in
        upsert_comment true fresh2 w.1 text (some w.0) ≡ (w.0, edit w.0 (marked_body text) w.1)
  upsert_comment-again text fresh2 d f =
      subst
        (λ (w : Written).
          upsert_comment true fresh2 w.1 text (some w.0) ≡ (w.0, edit w.0 (marked_body text) w.1))
        (sym upsert_comment-put)
        (put_again fresh cs (λ c. marked_body body) (marked_body body) found
          (λ c. find-by_id answers cs comment_id c d) f text fresh2)
