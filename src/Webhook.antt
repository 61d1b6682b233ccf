-- ===== src/Webhook.antt =====
-- webhook.py and hmac_verify.py: the signature, the cache of delivery ids, and what a delivery does
-- to the tickets table. Parsing JSON, the digest, case folding and the clock are parameters, the
-- first two as the functions that the code calls. Each delivery is handled as one step.
pub mod Cache
pub mod Handling
pub mod Laws
pub mod Redelivery
mod Tests
use pr_review_bot.Prelude.{
  ℕ, String, Bool, true, false, not, ◌&&◌, ◌||◌, Option, none, some, List, [], ◌∷◌, ◌++◌,
  if◌then◌else◌, ltb, str_eq, is_some, length, starts_with, slice, len,
}
use pr_review_bot.Number.{Number}
use pr_review_bot.Cooldown.{CooldownCache}
use pr_review_bot.Tickets.Rows.{Ticket}
use pr_review_bot.Tickets.{Table, clear_notice}
use pr_review_bot.Tickets.Enqueue.{enqueue_or_update}
use pr_review_bot.Tickets.Finish.{cancel_ticket}

-- The fields of a payload that are read; a missing object is as its missing fields.
pub record Payload : Type 0 where
  pub action : Option String
  pub changes_base : Bool
  pub repo_full_name : Option String
  pub pr_number : Option ℕ
  pub head_sha : Option String

pub record Request : Type 0 where
  pub raw_body : String
  pub signature : Option String
  pub delivery : Option String

-- The settings and the library functions that a delivery is handled with. `digest` is the
-- hexadecimal HMAC-SHA256 of a secret and a body; `loads` is `json.loads`, none where it raises.
pub record Settings : Type 0 where
  pub secret : String
  pub target_repos : List String
  pub digest : String → String → String
  pub loads : String → Option Payload
  pub casefold : String → String

-- The calls of GitHub.
pub data Sent : Type 0 where
  reacts_eyes : String → ℕ → Sent
  clears_footnote : String → ℕ → Sent

-- The tickets table, the delivery ids from the oldest to the latest, and the calls made.
pub record Hook : Type 0 where
  pub table : Table
  pub seen : List String
  pub sent : List Sent

-- The response, or an exception, which the framework answers with status 500.
pub data Reply : Type 0 where
  unauthorized already_processed accepted raised : Reply

abbrev pub dedup_capacity : ℕ
dedup_capacity = 1000

abbrev pub contains : List String → String → Bool
contains [] d = false
contains (x ∷ xs) d = str_eq x d || contains xs d

abbrev pub without : List String → String → List String
without [] d = []
without (x ∷ xs) d = if str_eq x d then xs else x ∷ without xs d

-- `move_to_end`
abbrev pub moved_to_end : List String → String → List String
moved_to_end seen d = without seen d ++ (d ∷ [])

-- The test, and the ids after it.
unfoldable pub is_duplicate_delivery : List String → String → Bool × List String
is_duplicate_delivery seen d =
    if contains seen d then (true, moved_to_end seen d) else (false, seen)

-- Assigning to a key that is present leaves its place; `popitem(last=False)` drops the oldest.
abbrev pub drop_oldest : List String → List String
drop_oldest [] = []
drop_oldest (x ∷ xs) = xs

abbrev pub bounded : List String → List String
bounded seen = if ltb dedup_capacity (length seen) then drop_oldest seen else seen

unfoldable pub mark_delivery_processed : List String → String → List String
mark_delivery_processed seen d = bounded (if contains seen d then seen else seen ++ (d ∷ []))

-- `verify_signature`
unfoldable pub verify_signature : Settings → String → Option String → Bool
verify_signature c body none = false
verify_signature c body (some header) =
    starts_with header "sha256=" && str_eq (c.digest c.secret body) (slice header 7 (len header))

abbrev pub is_trigger : String → Bool
is_trigger a =
    str_eq a "opened"
    || (str_eq a "reopened" || (str_eq a "synchronize" || str_eq a "ready_for_review"))

abbrev pub is_cancel : String → Bool
is_cancel a = str_eq a "closed"

abbrev pub folds_to : Settings → String → List String → Bool
folds_to c repo [] = false
folds_to c repo (t ∷ ts) = str_eq (c.casefold t) (c.casefold repo) || folds_to c repo ts

-- An empty list of repositories allows all.
abbrev pub is_target : Settings → String → Bool
is_target c repo = elim c.target_repos [ [] ↦ true | t ∷ ts ↦ folds_to c repo (t ∷ ts) ]

-- What a payload asks for.
pub data Wish : Type 0 where
  review cancel : String → ℕ → Wish
  nothing : Wish

-- The guards of `_handle_pull_request_payload`, in order.
unfoldable pub wish : Settings → Payload → Wish
wish c p = for_action p.action p.repo_full_name p.pr_number
  where
    for_pull : String → String → ℕ → Wish
    for_pull action repo pr =
        if str_eq repo ""
        then nothing
        else if not (is_target c repo)
        then nothing
        else if is_cancel action
        then cancel repo pr
        else review repo pr

    for_action : Option String → Option String → Option ℕ → Wish
    for_action (some action) (some repo) (some pr) =
        if is_trigger action || (is_cancel action || (str_eq action "edited" && p.changes_base))
        then for_pull action repo pr
        else nothing
    for_action _ _ _ = nothing

-- What one delivery is handled with: the clock, the dispatcher's caches, whether clearing the
-- footnote succeeds, and what other transactions commit inside the enqueue.
pub record Moment (F : Type 0) : Type 0 where
  pub now : ℕ
  pub provider : String
  pub cooldown : CooldownCache F
  pub clears : Bool
  pub between : Table → Table

abbrev pub sending : Hook → Sent → Hook
sending h x = record h { sent = h.sent ++ (x ∷ []) }

-- A cancelled ticket loses its footnote; a failure to clear it is only logged.
unfoldable pub after_cancel : Bool → Option Ticket → Hook → Hook
after_cancel clears none h = h
after_cancel clears (some t) h =
    let called = sending h (clears_footnote t.repo_full_name t.pr_number) in
    if is_some t.notice_not_before
    then (if clears then record called { table = clear_notice called.table t.id } else called)
    else h

module _ (N : Number) (c : Settings) where
  -- With whether it returns: an enqueue that raises leaves the table alone, after the reaction; what
  -- others commit inside it then counts as committed after this step.
  unfoldable pub handle_payload : Moment N.F → Payload → Hook → Bool × Hook
  unfolding wish after_cancel
  handle_payload m p h = elim (wish c p) [
    | nothing ↦ (true, h)
    | cancel repo pr ↦
        let (t, table) = cancel_ticket h.table repo pr m.now in
        (true, after_cancel m.clears t (record h { table = table }))
    | review repo pr ↦
        let reacted = sending h (reacts_eyes repo pr) in
        elim (enqueue_or_update N m.cooldown m.between h.table repo pr p.head_sha m.provider
          m.now) [
            | none ↦ (false, reacted)
            | some (i, table) ↦ (true, record reacted { table = table })
          ]
  ]

  abbrev pub marked : Option String → Hook → Hook
  marked none h = h
  marked (some d) h = record h { seen = mark_delivery_processed h.seen d }

  -- After the signature and the duplicate test.
  unfoldable pub process : Moment N.F → Request → Hook → Reply × Hook
  unfolding handle_payload
  process m r h = elim (c.loads r.raw_body) [
    | none ↦ (raised, h)
    | some p ↦
        let (returns, h') = handle_payload m p h in
        if returns then (accepted, marked r.delivery h') else (raised, h')
  ]

  abbrev pub known : Option String → Hook → Bool
  known none h = false
  known (some d) h = contains h.seen d

  abbrev pub touched : Option String → Hook → Hook
  touched none h = h
  touched (some d) h = record h { seen = (is_duplicate_delivery h.seen d).1 }

  unfoldable pub webhook : Moment N.F → Request → Hook → Reply × Hook
  unfolding process is_duplicate_delivery
  webhook m r h =
      if verify_signature c r.raw_body r.signature
      then (if known r.delivery h then (already_processed, touched r.delivery h) else process m r h)
      else (unauthorized, h)
