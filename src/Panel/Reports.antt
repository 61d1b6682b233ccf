-- ===== src/Panel/Reports.antt =====
-- The report of a request to the panel.
use pr_review_bot.UsageCap.{ClockTime}
use pr_review_bot.Prelude.{
  ℕ, suc, ◌+◌, ◌≡◌, refl, sym, ap, ◌∙◌, String, Bool, Option, none, some, List, [], ◌∷◌, ◌++◌, map,
  arith, length, length-append, if_cases, ℤ, is_some,
}
use pr_review_bot.Number.{Number}
use pr_review_bot.Problem.{Problem}
use pr_review_bot.Config.{ConfigTable, key_column, set_key_index_override}
use pr_review_bot.Panel.{
  FieldKey, field, index_field, PatchError, ConfigPatch, Panel, sent_key, rejected, written,
  checked, cooldown_keys, usage_keys, tuning_keys, armed_provider, is_known, provider_stage, group,
  cooldown_stage, usage_stage, draft_stage, index_write, armed_index, index_round, index_stage,
  tuning_stage, apply_config_patch, is_slot, unusable, write_raised, not_armed, unknown_provider,
  invalid_slot,
}

-- The fields that are reported, applied or failed.
abbrev pub reported : {F : Type 0} → Panel F → ℕ
reported s = length s.applied + length s.failed

length-map : {A B : Type 0} (f : A → B) (xs : List A) → length (map f xs) ≡ length xs
length-map f [] = refl
length-map f (x ∷ xs) = ap suc (length-map f xs)

module _ {F : Type 0} where
  reported-rejected :
      (keys : List FieldKey) (e : PatchError) (s : Panel F)
      → reported (rejected keys e s) ≡ reported s + length keys
  reported-rejected keys e s = omega (
    arith,
    length-append s.failed (map (λ k. (k, e)) keys),
    length-map {A = FieldKey} {B = FieldKey × PatchError} (λ k. (k, e)) keys,
  )

  reported-written :
      (keys : List FieldKey) (r : Option String) (t : ConfigTable F) (s : Panel F)
      → reported (written keys r t s) ≡ reported s + length keys
  reported-written keys none t s = omega (arith, length-append s.applied keys)
  reported-written keys (some e) t s = reported-rejected keys (write_raised e) s

  reported-checked :
      (keys : List FieldKey) (ps : List Problem) (r : Option String) (t : ConfigTable F)
      (s : Panel F)
      → reported (checked keys ps r t s) ≡ reported s + length keys
  reported-checked keys [] r t s = reported-written keys r t s
  reported-checked keys (p ∷ ps) r t s = reported-rejected keys (unusable (p ∷ ps)) s

  -- The keys of the fields that were sent.
  abbrev pub sent_keys : ConfigPatch F → List FieldKey
  sent_keys q =
      sent_key "provider" q.provider_field
      ++ (cooldown_keys q
          ++ (usage_keys q
              ++ (sent_key "review_draft_prs" q.draft_field
                  ++ (map (λ (p : String × Option ℤ). index_field p.0) q.index_fields
                      ++ tuning_keys q))))

module _ (N : Number) (from_iso : String → Option ClockTime)
    (raises arming : FieldKey → Option String) (now : String) where
  abbrev Adds : ℕ → Panel N.F → Panel N.F → Type 0
  Adds n s x = reported x ≡ reported s + n

  group-Adds :
      (keys : List FieldKey) (go : FieldKey → Panel N.F) (s : Panel N.F)
      → ((k : FieldKey) → Adds (length keys) s (go k))
      → Adds (length keys) s (group N from_iso raises arming now keys go s)
  group-Adds [] go s h = omega arith
  group-Adds (k ∷ ks) go s h = h k

  provider_stage-Adds :
      (f : Option (Option String)) (s : Panel N.F)
      → Adds (length (sent_key "provider" f)) s (provider_stage N from_iso raises arming now f s)
  provider_stage-Adds none s = omega arith
  provider_stage-Adds (some p) s =
      if_cases (Adds 1 s) (is_known N from_iso raises arming now p) _ _
        (λ e. armed p (arming (field "provider")))
        (λ e. reported-rejected (field "provider" ∷ []) unknown_provider s)
    where
      armed :
          (p : Option String) (o : Option String)
          → Adds 1 s (armed_provider N from_iso raises arming now p s o)
      armed p (some e) = reported-rejected (field "provider" ∷ []) (not_armed e) s
      armed p none = reported-written (field "provider" ∷ []) (raises (field "provider")) _ s

  draft_stage-Adds :
      (f : Option (Option Bool)) (s : Panel N.F)
      → Adds
          (length (sent_key "review_draft_prs" f))
          s
          (draft_stage N from_iso raises arming now f s)
  draft_stage-Adds none s = omega arith
  draft_stage-Adds (some v) s =
      reported-written (field "review_draft_prs" ∷ []) (raises (field "review_draft_prs")) _ s

  index_round-Adds :
      (p : String) (i : Option ℤ) (s : Panel N.F)
      → Adds 1 s (index_round N from_iso raises arming now p i s)
  index_round-Adds p i s =
      if_cases (Adds 1 s) (is_some (key_column p)) _ _
        (λ e.
          if_cases (Adds 1 s) (is_slot i) _ _ (λ f. armed (arming (index_field p)))
            (λ f. reported-rejected (index_field p ∷ []) invalid_slot s))
        (λ e. reported-rejected (index_field p ∷ []) unknown_provider s)
    where
      wrote :
          (o : Option (ConfigTable N.F)) → Adds 1 s (index_write N from_iso raises arming now p s o)
      wrote none = reported-rejected (index_field p ∷ []) unknown_provider s
      wrote (some t) = reported-written (index_field p ∷ []) (raises (index_field p)) t s

      armed : (o : Option String) → Adds 1 s (armed_index N from_iso raises arming now p i s o)
      armed (some e) = reported-rejected (index_field p ∷ []) (not_armed e) s
      armed none = wrote (set_key_index_override p i now s.config)

  index_stage-Adds :
      (is : List (String × Option ℤ)) (s : Panel N.F)
      → Adds (length is) s (index_stage N from_iso raises arming now is s)
  index_stage-Adds [] s = omega arith
  index_stage-Adds ((p, i) ∷ rest) s = omega (
    arith,
    index_stage-Adds rest (index_round N from_iso raises arming now p i s),
    index_round-Adds p i s,
  )

  cooldown_stage-Adds :
      (q : ConfigPatch N.F) (s : Panel N.F)
      → Adds (length (cooldown_keys q)) s (cooldown_stage N from_iso raises arming now q s)
  unfolding cooldown_stage
  cooldown_stage-Adds q s =
      group-Adds (cooldown_keys q) _ s (λ k. reported-checked (cooldown_keys q) _ (raises k) _ s)

  usage_stage-Adds :
      (q : ConfigPatch N.F) (s : Panel N.F)
      → Adds (length (usage_keys q)) s (usage_stage N from_iso raises arming now q s)
  unfolding usage_stage
  usage_stage-Adds q s =
      group-Adds (usage_keys q) _ s (λ k. reported-checked (usage_keys q) _ (raises k) _ s)

  tuning_stage-Adds :
      (q : ConfigPatch N.F) (s : Panel N.F)
      → Adds (length (tuning_keys q)) s (tuning_stage N from_iso raises arming now q s)
  unfolding tuning_stage
  tuning_stage-Adds q s =
      group-Adds (tuning_keys q) _ s (λ k. reported-checked (tuning_keys q) _ (raises k) _ s)

  sum_lem :
      {A : Type 0} (a b c d e f : List A) (n : ℕ)
      → length e ≡ n
      → length (a ++ (b ++ (c ++ (d ++ (e ++ f)))))
        ≡ length a + length b + length c + length d + n + length f
  sum_lem a b c d e f n h = omega (
    arith,
    h,
    length-append a (b ++ (c ++ (d ++ (e ++ f)))),
    length-append b (c ++ (d ++ (e ++ f))),
    length-append c (d ++ (e ++ f)),
    length-append d (e ++ f),
    length-append e f,
  )

  chain_lem :
      (a b c d e f r0 r1 r2 r3 r4 r5 r6 : ℕ)
      → r0 ≡ 0
      → r1 ≡ r0 + a
      → r2 ≡ r1 + b
      → r3 ≡ r2 + c
      → r4 ≡ r3 + d
      → r5 ≡ r4 + e
      → r6 ≡ r5 + f
      → r6 ≡ a + b + c + d + e + f
  chain_lem a b c d e f r0 r1 r2 r3 r4 r5 r6 h0 h1 h2 h3 h4 h5 h6 = omega arith

  -- Each field that was sent is reported once, as applied or as failed.
  pub apply_config_patch-reported :
      (q : ConfigPatch N.F) (t : ConfigTable N.F)
      → reported (apply_config_patch N from_iso raises arming now q t) ≡ length (sent_keys q)
  unfolding apply_config_patch
  apply_config_patch-reported q t =
      let s0 : Panel N.F = record { config = t; applied = []; failed = [] } in
      let s1 = provider_stage N from_iso raises arming now q.provider_field s0 in
      let s2 = cooldown_stage N from_iso raises arming now q s1 in
      let s3 = usage_stage N from_iso raises arming now q s2 in
      let s4 = draft_stage N from_iso raises arming now q.draft_field s3 in
      let s5 = index_stage N from_iso raises arming now q.index_fields s4 in
      let keyed =
        length-map {A = String × Option ℤ} {B = FieldKey} (λ p. index_field p.0) q.index_fields in
      chain_lem _ _ _ _ _ _ (reported s0) (reported s1) (reported s2) (reported s3) (reported s4)
        (reported s5) _ refl (provider_stage-Adds q.provider_field s0) (cooldown_stage-Adds q s1)
        (usage_stage-Adds q s2) (draft_stage-Adds q.draft_field s3)
        (index_stage-Adds q.index_fields s4) (tuning_stage-Adds q s5)
      ∙ sym (
          sum_lem (sent_key "provider" q.provider_field) (cooldown_keys q) (usage_keys q)
            (sent_key "review_draft_prs" q.draft_field) _ (tuning_keys q) _ keyed)
