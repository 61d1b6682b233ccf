-- ===== src/UsageCap/Laws.antt =====
-- The usage window and the accounting.
use pr_review_bot.Prelude.{ℕ, ◌+◌, ◌%◌, ◌≤◌, ◌<◌, ◌≡◌, String, Option, some, List, [], ◌∷◌, arith}
use pr_review_bot.UsageCap.{
  ClockTime, UsageCapCache, effective_caps, day, usage_bucket_start, Review, record_review,
  get_key_usage,
}

-- From the second day on, the window of an instant starts at the reset time of a day, at most at
-- the instant and less than a day before it.
pub usage_bucket_start_lem :
    (now reset : ℕ)
    → day ≤ now
    → reset < day
    → (usage_bucket_start now reset ≤ now)
      × (now < usage_bucket_start now reset + day)
      × (usage_bucket_start now reset % day ≡ reset)
unfolding usage_bucket_start
usage_bucket_start_lem now reset h k = (ground arith, ground arith, ground arith)

-- A review counts in full for its own provider and slot in every window that began by then, and
-- in no other account.
pub get_key_usage-record_review :
    (rows : List Review) (provider p : String) (tin tout now i k since : ℕ)
    → get_key_usage (record_review rows provider tin tout now i) p k since
      ≡ get_key_usage rows p k since
        + get_key_usage (record_review [] provider tin tout now i) p k since
unfolding get_key_usage
get_key_usage-record_review [] provider p tin tout now i k since = omega arith
get_key_usage-record_review (r ∷ rs) provider p tin tout now i k since =
    ground (arith, get_key_usage-record_review rs provider p tin tout now i k since)

-- A later window never holds more.
pub get_key_usage-anti :
    (rows : List Review) (p : String) (k since later : ℕ)
    → since ≤ later
    → get_key_usage rows p k later ≤ get_key_usage rows p k since
unfolding get_key_usage
get_key_usage-anti [] p k since later h = omega arith
get_key_usage-anti (r ∷ rs) p k since later h =
    ground (arith, get_key_usage-anti rs p k since later h)

-- A cap in force is positive.
pub effective_caps-positive :
    (from_iso : String → Option ClockTime) (c : UsageCapCache) (cap : ℕ) (reset : Option ClockTime)
    → effective_caps from_iso c ≡ (some cap, reset)
    → 0 < cap
unfolding effective_caps
effective_caps-positive from_iso c cap reset h = ground arith
