-- ===== src/Demo.antt =====
-- demo/store.py: the in-memory stand-in for the store. A dict is the list of its values, oldest
-- first. What the ContextVars of demo/session.py hold is an argument of the calls that read them.
pub mod Caps
pub mod Finish
pub mod Sessions
mod Tests
use pr_review_bot.Prelude.{
  ℕ, zero, suc, ◌+◌, ◌-◌, String, Bool, true, false, not, ◌&&◌, ◌||◌, Option, none, some, List, [],
  ◌∷◌, ◌++◌, map, if◌then◌else◌, ltb, ◌==◌, str_eq, length, take, select, is_none, or_else,
}
use pr_review_bot.Status.{
  Status, pending, running, deferred, retrying, done, failed, cancelled, Reason, usage_cap,
  is_queued, is_pending,
}
use pr_review_bot.Tickets.Rows.{Ticket, has_id, has_key}

-- The (session, provider, model) of a request.
pub record Context : Type 0 where
  pub session : Option String
  pub provider_choice : String
  pub model_choice : Option String

-- A row of `_reviews`; the price and the results are left out.
pub record DemoReview : Type 0 where
  pub repo : String
  pub pr_number : ℕ
  pub provider_name : String
  pub model : String
  pub created_at : ℕ
  pub session : Option String

pub record DemoStore : Type 0 where
  pub active_provider : String
  pub next_id : ℕ
  pub tickets : List Ticket
  pub contexts : List (ℕ × Context)
  pub reviews : List DemoReview
  pub processing : Option Context

abbrev pub max_tickets : ℕ
max_tickets = 200

abbrev pub max_reviews : ℕ
max_reviews = 200

abbrev pub drop {ℓ} : {A : Type ℓ} → ℕ → List A → List A
drop zero xs = xs
drop (suc n) [] = []
drop (suc n) (x ∷ xs) = drop n xs

-- `d.pop(key, None)` of the contexts.
abbrev pub contexts_without : ℕ → List (ℕ × Context) → List (ℕ × Context)
contexts_without i cs = select (λ (c : ℕ × Context). not (c.0 == i)) cs

abbrev pub context_of : ℕ → List (ℕ × Context) → Option Context
context_of i [] = none
context_of i ((j, c) ∷ cs) = let later = context_of i cs in if j == i then some c else later

abbrev pub with_context : ℕ → Context → List (ℕ × Context) → List (ℕ × Context)
with_context i c cs = contexts_without i cs ++ (i, c) ∷ []

-- The loop of `_trim`: the oldest tickets go, each with its context. The count of rounds is the
-- number of tickets past the cap.
abbrev pub evict_oldest : ℕ → List Ticket → List (ℕ × Context) → List Ticket × List (ℕ × Context)
evict_oldest zero ts cs = (ts, cs)
evict_oldest (suc n) [] cs = ([], cs)
evict_oldest (suc n) (t ∷ ts) cs = evict_oldest n ts (contexts_without t.id cs)

unfoldable pub trim : DemoStore → DemoStore
trim s =
    let (ts, cs) = evict_oldest (length s.tickets - max_tickets) s.tickets s.contexts in
    record s {
      tickets = ts;
      contexts = cs;
      reviews = drop (length s.reviews - max_reviews) s.reviews;
    }

abbrev pub find : (Ticket → Bool) → List Ticket → Option Ticket
find p [] = none
find p (t ∷ ts) = let later = find p ts in if p t then some t else later

-- The first ticket that passes is changed in place.
abbrev pub change : (Ticket → Bool) → (Ticket → Ticket) → List Ticket → List Ticket
change p f [] = []
change p f (t ∷ ts) = let later = t ∷ change p f ts in if p t then f t ∷ ts else later

abbrev pub changed_by_id : ℕ → (Ticket → Ticket) → DemoStore → DemoStore
changed_by_id i f s = record s { tickets = change (has_id i) f s.tickets }

-- The values of a new ticket.
abbrev pub new_ticket : ℕ → String → ℕ → Option String → String → ℕ → Ticket
new_ticket i repo pr sha provider_name now = record {
  id = i;
  repo_full_name = repo;
  pr_number = pr;
  head_sha = sha;
  status = pending;
  provider = provider_name;
  not_before = none;
  attempts = 0;
  comment_id = none;
  enqueued_at = now;
  updated_at = now;
  rereview_requested = 0;
  last_reviewed_at = none;
  cooldown_level = 0;
  notice_not_before = none;
  last_error = none;
  defer_reason = none;
}

-- The store with a new ticket and its context.
abbrev pub with_new_ticket :
    Context → String → ℕ → Option String → String → ℕ → DemoStore → DemoStore
with_new_ticket c repo pr sha provider_name now s = record s {
  next_id = s.next_id + 1;
  tickets = s.tickets ++ new_ticket s.next_id repo pr sha provider_name now ∷ [];
  contexts = with_context s.next_id c s.contexts;
}

unfoldable pub enqueue_demo :
    Context → String → ℕ → Option String → String → ℕ → DemoStore → ℕ × DemoStore
unfolding trim
enqueue_demo c repo pr sha provider_name now s = elim (find (has_key repo pr) s.tickets) [
  | some t ↦ (
    t.id,
    record s {
      tickets =
          change (has_key repo pr)
            (λ u. record u { head_sha = sha; status = pending; updated_at = now }) s.tickets;
      contexts = with_context t.id c s.contexts;
    },
  )
  | none ↦ (s.next_id, trim (with_new_ticket c repo pr sha provider_name now s))
]

abbrev pub awaits : Ticket → Bool
awaits t = is_pending t.status

abbrev pub claimed_demo : ℕ → Ticket → Ticket
claimed_demo now t = record t { status = running; attempts = t.attempts + 1; updated_at = now }

unfoldable pub claim_demo : ℕ → DemoStore → Option Ticket × DemoStore
claim_demo now s = elim (find awaits s.tickets) [
  | none ↦ (none, record s { processing = none })
  | some t ↦ (
    some (claimed_demo now t),
    record s {
      tickets = change awaits (claimed_demo now) s.tickets;
      processing = context_of t.id s.contexts;
    },
  )
]

-- `current` is the session of the request that calls, if it is one.
abbrev pub tag : Option Context → Option String → Option String
tag none current = current
tag (some c) current = c.session

-- The row that is appended.
abbrev pub new_review :
    (current : Option String)
    → String
    → ℕ
    → (provider_name model : String) → ℕ
    → DemoStore
    → DemoReview
new_review current repo pr provider_name model now s = record {
  repo = repo;
  pr_number = pr;
  provider_name = provider_name;
  model = model;
  created_at = now;
  session = tag s.processing current;
}

abbrev pub with_review : DemoReview → DemoStore → DemoStore
with_review r s = record s { reviews = s.reviews ++ r ∷ [] }

unfoldable pub record_review_demo :
    (current : Option String)
    → String
    → ℕ
    → (provider_name model : String) → ℕ
    → DemoStore
    → DemoStore
unfolding trim
record_review_demo current repo pr provider_name model now s =
    trim (with_review (new_review current repo pr provider_name model now s) s)

abbrev pub same_session : Option String → Option String → Bool
same_session none none = true
same_session (some a) (some b) = str_eq a b
same_session none (some b) = false
same_session (some a) none = false

-- `review.get("_session") in (session, None)`
abbrev pub is_visible : Option String → DemoReview → Bool
is_visible current r = same_session r.session current || is_none r.session

abbrev pub reversed {ℓ} : {A : Type ℓ} → List A → List A
reversed [] = []
reversed (x ∷ xs) = reversed xs ++ x ∷ []

unfoldable pub dashboard_reviews : (current : Option String) → ℕ → DemoStore → List DemoReview
dashboard_reviews current limit s = take limit (select (is_visible current) (reversed s.reviews))
