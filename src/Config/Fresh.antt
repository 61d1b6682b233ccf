-- ===== src/Config/Fresh.antt =====
-- The start on a database that was given only a provider and a slot.
use pr_review_bot.Prelude.{
  ℕ, ◌≤◌, ◌≡◌, refl, sym, ap, ◌∙◌, String, true, false, inl, inr, Option, none, some, [], ◌++◌,
  arith, str_eq, ℤ, Bool-cases,
}
use mathlib.Core.Bool.{true≢false}
use pr_review_bot.Number.{Number}
use pr_review_bot.Cooldown.{cooldown_problems}
use pr_review_bot.Tuning.{tuning_problems}
use pr_review_bot.UsageCap.{ClockTime, cap_problems}
use pr_review_bot.Tickets.Finish.{recover_on_startup}
use pr_review_bot.Config.{
  RuntimeConfig, KeyColumn, gemini_column, groq_column, vertex_column, key_column, blank,
  with_index, nonempty, index_of, get_provider_override, get_key_index_override,
  get_dispatcher_tuning_config, get_cooldown_overrides, get_usage_cap_overrides,
}
use pr_review_bot.Config.Slots.{SlotValues, get_slot_config}
use pr_review_bot.Config.Backfill.{declared_defaults, coalesced, backfill}
use pr_review_bot.Config.Gates.{
  BootSettings, Database, running, settings_refusal, or_zero, config_problems, provider_gate,
  index_gate, problems_gate, slot_gate, database_refusal, lifespan,
}

module _ (N : Number) (from_iso : String → Option ClockTime)
    (one_positive : N.le N.one_f N.zero_f ≡ false) where
  one_le : (n : ℕ) → 1 ≤ n → N.le N.one_f (N.of_nat n) ≡ true
  one_le n h = ap (λ x. N.le x (N.of_nat n)) (sym N.of_nat_one) ∙ N.of_nat_mono 1 n h

  of_nat_positive : (n : ℕ) → 1 ≤ n → N.le (N.of_nat n) N.zero_f ≡ false
  of_nat_positive n h = elim (Bool-cases (N.le (N.of_nat n) N.zero_f)) [
    | inl e ↦
        absurd (
          true≢false (sym (N.le_trans N.one_f (N.of_nat n) N.zero_f (one_le n h) e) ∙ one_positive))
    | inr e ↦ e
  ]

  zero_le : (n : ℕ) → 1 ≤ n → N.le N.zero_f (N.of_nat n) ≡ true
  zero_le n h = elim (N.le_total N.zero_f (N.of_nat n)) [
    | inl e ↦ e
    | inr e ↦ absurd (true≢false (sym e ∙ of_nat_positive n h))
  ]

  zero_le_one : N.le N.zero_f N.one_f ≡ true
  zero_le_one = ap (N.le N.zero_f) (sym N.of_nat_one) ∙ zero_le 1 (omega arith)

  default_tuning : (now : String) → tuning_problems N (declared_defaults N now).tuning ≡ []
  unfolding tuning_problems
  default_tuning now =
      rw
        (
          of_nat_positive 45 (omega arith),
          zero_le 60 (omega arith),
          zero_le 2 (omega arith),
          of_nat_positive 300 (omega arith),
          zero_le_one,
          N.le_refl N.zero_f,
          N.of_nat_mono 2 300 (omega arith),
        )
        refl

  default_cooldown : (now : String) → cooldown_problems N (declared_defaults N now).cooldown ≡ []
  unfolding cooldown_problems
  default_cooldown now =
      rw
        (
          zero_le 300 (omega arith),
          of_nat_positive 3600 (omega arith),
          one_le 2 (omega arith),
          N.of_nat_mono 300 3600 (omega arith),
        )
        refl

  default_caps :
      (now : String) (m : ClockTime)
      → from_iso "04:00:00" ≡ some m
      → cap_problems from_iso (declared_defaults N now).caps ≡ []
  unfolding cap_problems
  default_caps now m h = rw h refl

  -- A row in which a provider and the index of one provider were written.
  abbrev pub provisioned : String → KeyColumn → Option ℤ → String → RuntimeConfig N.F
  provisioned p c i written_at =
      with_index c i (record (blank written_at) { provider_column = some p })

  module _ (p : String) (c : KeyColumn) (i : Option ℤ) (written_at now : String) where
    abbrev filled_row : RuntimeConfig N.F
    filled_row = coalesced (provisioned p c i written_at) (declared_defaults N now)

    filled_row-config :
        (m : ClockTime)
        → from_iso "04:00:00" ≡ some m
        → config_problems N from_iso (some filled_row) ≡ []
    unfolding config_problems get_dispatcher_tuning_config get_cooldown_overrides
        get_usage_cap_overrides
    filled_row-config m h = by_column c
      where
        by_column :
            (c : KeyColumn)
            → tuning_problems N
                  (coalesced (provisioned p c i written_at) (declared_defaults N now)).tuning
                ++ (cooldown_problems N
                      (coalesced (provisioned p c i written_at) (declared_defaults N now)).cooldown
                    ++ cap_problems from_iso
                        (coalesced (provisioned p c i written_at) (declared_defaults N now)).caps)
              ≡ []
        by_column gemini_column =
            rw (default_tuning now, default_cooldown now, default_caps now m h) refl
        by_column groq_column =
            rw (default_tuning now, default_cooldown now, default_caps now m h) refl
        by_column vertex_column =
            rw (default_tuning now, default_cooldown now, default_caps now m h) refl

    filled_row-provider : str_eq p "" ≡ false → get_provider_override (some filled_row) ≡ some p
    unfolding get_provider_override
    filled_row-provider h = by_column c
      where
        by_column :
            (c : KeyColumn)
            → nonempty
                (coalesced (provisioned p c i written_at) (declared_defaults N now)).provider_column
              ≡ some p
        by_column gemini_column = rw h refl
        by_column groq_column = rw h refl
        by_column vertex_column = rw h refl

    filled_row-index : key_column p ≡ some c → get_key_index_override p (some filled_row) ≡ some i
    unfolding get_key_index_override
    filled_row-index h = rw (h, get_key_index_override) (ap some (by_column c))
      where
        by_column :
            (c : KeyColumn)
            → index_of c (coalesced (provisioned p c i written_at) (declared_defaults N now)) ≡ i
        by_column gemini_column = refl
        by_column groq_column = refl
        by_column vertex_column = refl

    gates_pass :
        (before : Database N.F) (v : SlotValues) (m : ClockTime)
        → from_iso "04:00:00" ≡ some m
        → key_column p ≡ some c
        → str_eq p "" ≡ false
        → get_slot_config p (or_zero i) before.slots ≡ some v
        → database_refusal N from_iso (record before { config = some filled_row }) ≡ none
    unfolding database_refusal
    gates_pass before v m hm hc hp hv =
        ap (provider_gate N from_iso (record before { config = some filled_row }))
          (filled_row-provider hp)
        ∙ ap (index_gate N from_iso (record before { config = some filled_row }) p)
            (filled_row-index hc)
        ∙ ap (slot_gate N from_iso (record before { config = some filled_row })) hv
        ∙ ap (problems_gate N from_iso (record before { config = some filled_row }))
            (filled_row-config m hm)

  -- A database that was given a supported provider, its index and the slot it names, and nothing else,
  -- starts: the defaults pass every check. The settings are complete, the installation is verified,
  -- and the default reset time parses.
  pub lifespan-provisioned :
      (s : BootSettings) (id text p written_at : String) (now : ℕ) (m : ClockTime)
      (before : Database N.F) (c : KeyColumn) (i : Option ℤ) (v : SlotValues)
      → settings_refusal s ≡ none
      → from_iso "04:00:00" ≡ some m
      → key_column p ≡ some c
      → str_eq p "" ≡ false
      → before.config ≡ some (provisioned p c i written_at)
      → get_slot_config p (or_zero i) before.slots ≡ some v
      → lifespan N from_iso s (some id) text now before
        ≡ running id (record before {
          config = some (coalesced (provisioned p c i written_at) (declared_defaults N text));
          tickets = recover_on_startup before.tickets now;
        })
  unfolding lifespan backfill
  lifespan-provisioned s id text p written_at now m before c i v hs hm hc hp hb hv =
      rw (hs, lifespan, hb, gates_pass p c i written_at text before v m hm hc hp hv) refl
