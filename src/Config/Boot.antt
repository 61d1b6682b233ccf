-- ===== src/Config/Boot.antt =====
-- What a started bot can rely on.
use mathlib.Core.Path.{subst}
use mathlib.Core.Option.{none-ne-some}
use pr_review_bot.Prelude.{
  ℕ, ◌≡◌, refl, ap, String, true, Option, none, some, List, [], ◌∷◌, ◌++◌, arith, option_cases, ℤ,
  is_some,
}
use pr_review_bot.Number.{Number}
use pr_review_bot.Problem.{Problem, append-eq-nil}
use pr_review_bot.Cooldown.{cooldown_problems}
use pr_review_bot.Cooldown.Laws.{IsUsable, cooldown_problems-eq-nil}
use pr_review_bot.Tuning.{Tuning, tuning_problems, require_config, ready}
use pr_review_bot.Tuning.Laws.{tuning_problems-eq-nil}
use pr_review_bot.UsageCap.{
  ClockTime, cap_problems, cap_problem, reset_problem, parsed, UsageCapCache,
}
use pr_review_bot.Tickets.Finish.{recover_on_startup}
use pr_review_bot.Config.{
  get_provider_override, get_key_index_override, get_dispatcher_tuning_config,
  get_cooldown_overrides, get_usage_cap_overrides,
}
use pr_review_bot.Config.Slots.{SlotValues, get_slot_config}
use pr_review_bot.Config.Gates.{
  BootSettings, Database, Refusal, Started, refused, running, settings_refusal, or_zero,
  config_problems, problems_gate, slot_gate, index_gate, provider_gate, database_refusal, filled,
  after_pool, lifespan,
}

module _ (N : Number) (from_iso : String → Option ClockTime) where
  -- The configuration that the dispatcher needs.
  pub record IsReady (db : Database N.F) : Type 0 where
    pub provider : String
    pub index : Option ℤ
    pub slot : SlotValues
    pub tuning : Tuning N.F
    pub base : N.F
    pub cap : N.F
    pub factor : N.F
    pub has_provider : get_provider_override db.config ≡ some provider
    pub has_index : get_key_index_override provider db.config ≡ some index
    pub has_slot : get_slot_config provider (or_zero index) db.slots ≡ some slot
    pub has_tuning : require_config N (get_dispatcher_tuning_config db.config).0 ≡ ready tuning
    pub has_cooldown : IsUsable N (get_cooldown_overrides db.config) base cap factor
    pub has_reset : is_some (parsed from_iso (get_usage_cap_overrides db.config).reset) ≡ true

  problems_gate-nil :
      (db : Database N.F) (ps : List Problem) → problems_gate N from_iso db ps ≡ none → ps ≡ []
  problems_gate-nil db [] h = refl
  problems_gate-nil db (p ∷ ps) h = absurd (ground arith)

  reset_of :
      (c : UsageCapCache) → cap_problems from_iso c ≡ [] → is_some (parsed from_iso c.reset) ≡ true
  unfolding cap_problems
  reset_of c h =
      passes c.reset (append-eq-nil (cap_problem c.tokens) (reset_problem from_iso c.reset) h).1
    where
      passes :
          (o : Option String) → reset_problem from_iso o ≡ [] → is_some (parsed from_iso o) ≡ true
      passes none e = absurd (ground arith)
      passes (some text) e = ground arith

  require_ready :
      (db : Database N.F)
      → tuning_problems N (get_dispatcher_tuning_config db.config).0 ≡ []
      → (t : Tuning N.F) × (require_config N (get_dispatcher_tuning_config db.config).0 ≡ ready t)
  unfolding require_config
  require_ready db h =
      let (t, p) = tuning_problems-eq-nil N (get_dispatcher_tuning_config db.config).0 h in
      (t, rw (h, p.reads) refl)

  -- The gates that passed.
  gates_passed :
      (db : Database N.F) (p : String) (i : Option ℤ) (v : SlotValues)
      → get_provider_override db.config ≡ some p
      → get_key_index_override p db.config ≡ some i
      → get_slot_config p (or_zero i) db.slots ≡ some v
      → config_problems N from_iso db.config ≡ []
      → IsReady db
  unfolding config_problems
  gates_passed db p i v hp hi hv h =
      let (h1, rest) =
        append-eq-nil (tuning_problems N (get_dispatcher_tuning_config db.config).0)
          (cooldown_problems N (get_cooldown_overrides db.config)
            ++ cap_problems from_iso (get_usage_cap_overrides db.config))
          h in
      let (h2, h3) =
        append-eq-nil (cooldown_problems N (get_cooldown_overrides db.config))
          (cap_problems from_iso (get_usage_cap_overrides db.config)) rest in
      let (t, ht) = require_ready db h1 in
      let (b, m, f, u) = cooldown_problems-eq-nil N (get_cooldown_overrides db.config) h2 in
      record {
        provider = p;
        index = i;
        slot = v;
        tuning = t;
        base = b;
        cap = m;
        factor = f;
        has_provider = hp;
        has_index = hi;
        has_slot = hv;
        has_tuning = ht;
        has_cooldown = u;
        has_reset = reset_of (get_usage_cap_overrides db.config) h3;
      }

  pub database_refusal-IsReady :
      (db : Database N.F) → database_refusal N from_iso db ≡ none → IsReady db
  unfolding database_refusal
  database_refusal-IsReady db h = by_provider (get_provider_override db.config) refl h
    where
      by_slot :
          (p : String) (i : Option ℤ) (o : Option SlotValues)
          → get_provider_override db.config ≡ some p
          → get_key_index_override p db.config ≡ some i
          → get_slot_config p (or_zero i) db.slots ≡ o
          → slot_gate N from_iso db o ≡ none
          → IsReady db
      by_slot p i none hp hi hv e = absurd (ground arith)
      by_slot p i (some v) hp hi hv e =
          gates_passed db p i v hp hi hv
            (problems_gate-nil db (config_problems N from_iso db.config) e)

      by_index :
          (p : String) (o : Option (Option ℤ))
          → get_provider_override db.config ≡ some p
          → get_key_index_override p db.config ≡ o
          → index_gate N from_iso db p o ≡ none
          → IsReady db
      by_index p none hp hi e = absurd (ground arith)
      by_index p (some i) hp hi e =
          by_slot p i (get_slot_config p (or_zero i) db.slots) hp hi refl e

      by_provider :
          (o : Option String)
          → get_provider_override db.config ≡ o
          → provider_gate N from_iso db o ≡ none
          → IsReady db
      by_provider none hp e = absurd (ground arith)
      by_provider (some p) hp e = by_index p (get_key_index_override p db.config) hp refl e

  abbrev database_of : Started N.F → Database N.F
  database_of (refused r db) = db
  database_of (running id db) = db

  abbrev id_of : Started N.F → Option String
  id_of (refused r db) = none
  id_of (running id db) = some id

  -- A lifespan that was not refused.
  abbrev IsRunningOf : Database N.F → ℕ → Option String → String → Database N.F → Type 0
  IsRunningOf before now verified id db =
      IsReady db × (verified ≡ some id) × (db.tickets ≡ recover_on_startup before.tickets now)

  after_pool_ready :
      (before : Database N.F) (now : ℕ) (text id got : String) (db : Database N.F)
      (o : Option Refusal)
      → database_refusal N from_iso (filled N from_iso text before) ≡ o
      → after_pool N from_iso got now (filled N from_iso text before) o ≡ running id db
      → IsRunningOf before now (some got) id db
  after_pool_ready before now text id got db (some r) h e = absurd (none-ne-some id (ap id_of e))
  after_pool_ready before now text id got db none h e =
      subst
        (λ x.
          IsReady x × (some got ≡ some id) × (x.tickets ≡ recover_on_startup before.tickets now))
        (ap database_of e)
        (
          with_tickets (database_refusal-IsReady (filled N from_iso text before) h),
          ap id_of e,
          refl,
        )
    where
      with_tickets :
          IsReady (filled N from_iso text before)
          → IsReady (record (filled N from_iso text before) {
            tickets = recover_on_startup before.tickets now;
          })
      with_tickets r = record {
        provider = r.provider;
        index = r.index;
        slot = r.slot;
        tuning = r.tuning;
        base = r.base;
        cap = r.cap;
        factor = r.factor;
        has_provider = r.has_provider;
        has_index = r.has_index;
        has_slot = r.has_slot;
        has_tuning = r.has_tuning;
        has_cooldown = r.has_cooldown;
        has_reset = r.has_reset;
      }

  -- A bot that starts has a supported provider whose active slot is
  -- configured, a tuning that require_config returns, a usable cooldown and a reset time that parses, with or
  -- without a UTC offset.
  -- Its installation was verified and the tickets were recovered.
  pub lifespan-IsReady :
      (s : BootSettings) (verified : Option String) (text : String) (now : ℕ)
      (before : Database N.F) (id : String) (db : Database N.F)
      → lifespan N from_iso s verified text now before ≡ running id db
      → IsReady db × (verified ≡ some id) × (db.tickets ≡ recover_on_startup before.tickets now)
  unfolding lifespan
  lifespan-IsReady s none text now before id db e =
      option_cases (λ (x : Started N.F). (x ≡ running id db → IsRunningOf before now none id db))
        (settings_refusal s) _ _ (λ h e. absurd (none-ne-some id (ap id_of e)))
        (λ r h e. absurd (none-ne-some id (ap id_of e))) e
  lifespan-IsReady s (some got) text now before id db e =
      option_cases
        (λ (x : Started N.F). (x ≡ running id db → IsRunningOf before now (some got) id db))
        (settings_refusal s) _ _
        (λ h.
          after_pool_ready before now text id got db
            (database_refusal N from_iso (filled N from_iso text before)) refl)
        (λ r h e. absurd (none-ne-some id (ap id_of e))) e
