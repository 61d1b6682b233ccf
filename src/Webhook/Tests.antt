-- ===== src/Webhook/Tests.antt =====
-- Deliveries on concrete values, and the theorems at them.
use pr_review_bot.Prelude.{
  ℕ, ◌≡◌, refl, String, true, false, Option, none, some, [], ◌∷◌, arith, str_eq,
}
use pr_review_bot.Number.Natural.{natural}
use pr_review_bot.Cooldown.{unset_cooldown}
use pr_review_bot.Tickets.Lifecycle.{empty_table}
use pr_review_bot.Tickets.Enqueue.{enqueue_or_update}
use pr_review_bot.Tickets.Rows.{find_where}
use pr_review_bot.Tickets.Invariant.{IsValid}
use pr_review_bot.Webhook.{
  Payload, Request, Settings, Hook, unauthorized, already_processed, accepted, raised, contains,
  Moment, wish, verify_signature, webhook,
}
use pr_review_bot.Webhook.Cache.{IsCache}
use pr_review_bot.Webhook.Redelivery.{run_all, webhook-redelivery}
use pr_review_bot.Webhook.Laws.{Safe, webhook-Safe, webhook-raised}

abbrev opened : Payload
opened = record {
  action = some "opened";
  changes_base = false;
  repo_full_name = some "octo/app";
  pr_number = some 7;
  head_sha = some "aaa";
}

-- The body "open" parses, and the digest of every body is "ab".
abbrev loads : String → Option Payload
loads body = elim (str_eq body "open") [ true ↦ some opened | false ↦ none ]

abbrev settings : Settings
settings = record {
  secret = "s";
  target_repos = [];
  digest = λ _ _. "ab";
  loads = loads;
  casefold = λ s. s;
}

abbrev moment : Moment ℕ
moment = record {
  now = 100;
  provider = "groq";
  cooldown = unset_cooldown;
  clears = true;
  between = λ s. s;
}

abbrev start : Hook
start = record { table = empty_table; seen = "d0" ∷ []; sent = [] }

abbrev signed : Request
signed = record { raw_body = "open"; signature = some "sha256=ab"; delivery = some "d1" }

abbrev garbled : Request
garbled = record { raw_body = "{"; signature = some "sha256=ab"; delivery = some "d1" }

accepts : (webhook natural settings moment signed start).0 ≡ accepted
unfolding webhook wish verify_signature enqueue_or_update find_where
accepts = refl

raises : (webhook natural settings moment garbled start).0 ≡ raised
unfolding webhook wish verify_signature
raises = refl

unsigned :
    (webhook natural settings moment (record signed { signature = some "sha256=ac" }) start).0
    ≡ unauthorized
unfolding webhook wish verify_signature
unsigned = refl

start-IsValid : IsValid start.table
start-IsValid = record { fresh = tt; unique_id = tt; unique_key = tt; sound = tt }

start-IsCache : IsCache start.seen
start-IsCache = record { distinct = (refl, tt); small = omega arith }

webhook-Safe_example :
    Safe natural settings signed start (webhook natural settings moment signed start)
webhook-Safe_example =
    webhook-Safe natural settings moment signed start start-IsValid start-IsValid start-IsCache

-- Another delivery in between.
abbrev other_delivery : Request
other_delivery = record signed { delivery = some "d2" }

webhook-redelivery_example :
    ((webhook natural settings moment signed (
        run_all natural settings
          ((moment, other_delivery) ∷ [])
          (webhook natural settings moment signed start).1)).0
      ≡ already_processed)
    × ((webhook natural settings moment signed (
          run_all natural settings
            ((moment, other_delivery) ∷ [])
            (webhook natural settings moment signed start).1)).1.table
        ≡ (run_all natural settings
            ((moment, other_delivery) ∷ [])
            (webhook natural settings moment signed start).1).table)
webhook-redelivery_example =
    webhook-redelivery natural settings moment moment signed ((moment, other_delivery) ∷ []) start
      "d1" start-IsValid start-IsCache ((λ u v. v), ((λ u v. v), tt)) (omega arith) refl accepts

webhook-raised_example :
    ((webhook natural settings moment garbled start).1.table ≡ start.table)
    × (contains (webhook natural settings moment garbled start).1.seen "d1" ≡ false)
webhook-raised_example =
    webhook-raised natural settings moment garbled start "d1" start-IsValid start-IsValid
      start-IsCache refl raises
