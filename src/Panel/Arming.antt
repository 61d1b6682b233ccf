-- ===== src/Panel/Arming.antt =====
-- What a request to the panel makes live, and the probes of it: `_arming_probe_targets` and
-- `_arming_problems` of dashboard/environment.py over `problems` of providers/model_check.py. The
-- credentials of a slot and the answers of the model listings are arguments.
pub mod Resent
pub mod Probed
pub mod Refused
use pr_review_bot.Prelude.{
  String, Bool, true, false, ◌&&◌, ◌||◌, not, Option, none, some, List, [], ◌∷◌, ◌++◌,
  if◌then◌else◌, str_eq, ℤ, pos, is_some,
}
use pr_review_bot.Config.{
  ConfigTable, KeyColumn, gemini_column, groq_column, vertex_column, key_column, nonempty,
  get_provider_override, get_all_key_index_overrides,
}
use pr_review_bot.Config.Slots.{SlotRow, SlotValues, get_slot_config, int_eq}
use pr_review_bot.Panel.{FieldKey, field, index_field, ConfigPatch}

-- What a vertex slot's credential resolves to.
pub data Resolution : Type 0 where
  malformed : Resolution
  absent : Resolution
  present : Resolution

pub record ProbeResult : Type 0 where
  pub ok : Bool
  pub error : Option String

-- A slot without a row has no values.
abbrev pub no_values : SlotValues
no_values = record { model = none; vertex_gcp_project = none; vertex_gcp_location = none }

module _ (vertex_info : ℤ → Resolution) (gemini_key : ℤ → Option String)
    (probe : KeyColumn → ℤ → SlotValues → ProbeResult) where
  abbrev pub probed : ProbeResult → List String
  probed r =
      if r.ok
      then []
      else elim (nonempty r.error) [ none ↦ "model_probe_unavailable" ∷ [] | some e ↦ e ∷ [] ]

  abbrev pub vertex_problems : ℤ → SlotValues → Resolution → List String
  vertex_problems slot v malformed = "invalid_service_account_json" ∷ []
  vertex_problems slot v absent = elim (nonempty v.vertex_gcp_project) [
    | none ↦ "no_credential_configured" ∷ []
    | some project ↦ probed (probe vertex_column slot v)
  ]
  vertex_problems slot v present = probed (probe vertex_column slot v)

  abbrev pub usable_problems : KeyColumn → ℤ → SlotValues → List String
  usable_problems groq_column slot v = []
  usable_problems vertex_column slot v = vertex_problems slot v (vertex_info slot)
  usable_problems gemini_column slot v = elim (nonempty (gemini_key slot)) [
    | none ↦ "no_credential_configured" ∷ []
    | some key ↦ probed (probe gemini_column slot (record no_values { model = v.model }))
  ]

  unfoldable pub model_problems : String → ℤ → SlotValues → List String
  model_problems provider slot v = elim (key_column provider) [
    | none ↦ "unknown_provider" ∷ []
    | some c ↦ elim (nonempty v.model) [
      | none ↦ "model_required" ∷ []
      | some model ↦ usable_problems c slot v
    ]
  ]

-- `d.get(key)`
abbrev pub dict_get : {A : Type 0} → String → List (String × A) → Option A
dict_get key [] = none
dict_get key ((k, a) ∷ rest) =
    let later = dict_get key rest in if str_eq k key then some a else later

-- `stored_indexes.get(provider) or 0`
abbrev pub stored_index : String → List (String × ℤ) → ℤ
stored_index p stored = elim (dict_get p stored) [ none ↦ pos 0 | some i ↦ i ]

abbrev pub effective_index : List (String × Option ℤ) → List (String × ℤ) → String → ℤ
effective_index submitted stored p = elim (dict_get p submitted) [
  | none ↦ stored_index p stored
  | some none ↦ pos 0
  | some (some i) ↦ i
]

-- The provider of the request, where it is one.
abbrev pub provider_changing : Option (Option String) → Option String
provider_changing none = none
provider_changing (some none) = none
provider_changing (some (some p)) = if is_some (key_column p) then some p else none

abbrev pub is_named : Option String → String → Bool
is_named none p = false
is_named (some q) p = str_eq p q

abbrev pub Targets : Type 0
Targets = List ((String × ℤ) × List FieldKey)

-- `targets.setdefault((provider, index), []).append(key)`
abbrev pub add_target : String → ℤ → FieldKey → Targets → Targets
add_target p i k [] = ((p, i), k ∷ []) ∷ []
add_target p i k (((q, j), ks) ∷ rest) =
    let later = add_target p i k rest in
    if str_eq p q && int_eq i j then ((q, j), ks ++ (k ∷ [])) ∷ rest else ((q, j), ks) ∷ later

-- One round of the loop over the submitted indexes, where `index` is the effective one.
abbrev pub target_round :
    (current changing : Option String) (index stored : ℤ) → String → Targets → Targets
target_round current changing index stored p acc =
    if is_some (key_column p)
    then if int_eq index stored
      then acc
      else if is_named current p || is_named changing p
      then add_target p index (index_field p) acc
      else acc
    else acc

abbrev pub index_targets :
    (current changing : Option String) (submitted : List (String × Option ℤ))
    (stored : List (String × ℤ))
    → List (String × Option ℤ)
    → Targets
    → Targets
index_targets current changing submitted stored [] acc = acc
index_targets current changing submitted stored ((p, i) ∷ rest) acc =
    index_targets current changing submitted stored rest (
      target_round current changing (effective_index submitted stored p) (stored_index p stored) p
        acc)

abbrev pub provider_target :
    (current changing : Option String) (submitted : List (String × Option ℤ))
    (stored : List (String × ℤ))
    → Targets
    → Targets
provider_target current none submitted stored acc = acc
provider_target current (some p) submitted stored acc =
    if is_named current p
    then acc
    else add_target p (effective_index submitted stored p) (field "provider") acc

-- Whether an index is submitted for a provider that there is.
abbrev pub any_known : List (String × Option ℤ) → Bool
any_known [] = false
any_known ((p, i) ∷ rest) = is_some (key_column p) || any_known rest

module _ {F : Type 0} where
  unfoldable pub arming_probe_targets : ConfigPatch F → ConfigTable F → Targets
  arming_probe_targets q t =
      let changing = provider_changing q.provider_field in
      let stored = get_all_key_index_overrides t in
      let current = get_provider_override t in
      if any_known q.index_fields || is_some changing
      then provider_target current changing q.index_fields stored
          (index_targets current changing q.index_fields stored q.index_fields [])
      else []

abbrev pub key_eq : FieldKey → FieldKey → Bool
key_eq (field a) (field b) = str_eq a b
key_eq (index_field a) (index_field b) = str_eq a b
key_eq (field a) (index_field b) = false
key_eq (index_field a) (field b) = false

-- `for field_key in field_keys: failures[field_key] = error`
abbrev pub fail_all : List FieldKey → String → (FieldKey → Option String) → FieldKey → Option String
fail_all [] e failures k = failures k
fail_all (f ∷ fs) e failures k = fail_all fs e (λ x. if key_eq f x then some e else failures x) k

abbrev pub failures_after :
    List FieldKey → List String → (FieldKey → Option String) → FieldKey → Option String
failures_after ks [] failures = failures
failures_after ks (e ∷ es) failures = fail_all ks e failures

-- `store.get_slot_config(provider, slot) or {}`
abbrev pub slot_values : String → ℤ → List SlotRow → SlotValues
slot_values p i slots = elim (get_slot_config p i slots) [ none ↦ no_values | some v ↦ v ]

module _ (vertex_info : ℤ → Resolution) (gemini_key : ℤ → Option String)
    (probe : KeyColumn → ℤ → SlotValues → ProbeResult) where
  -- The targets one by one, each with the first of its problems.
  abbrev pub probe_all :
      List SlotRow → Targets → (FieldKey → Option String) → FieldKey → Option String
  probe_all slots [] failures = failures
  probe_all slots (((p, i), ks) ∷ rest) failures = probe_all slots rest (
      failures_after ks (model_problems vertex_info gemini_key probe p i (slot_values p i slots))
        failures)

  unfoldable pub arming_problems :
      {F : Type 0} → ConfigPatch F → ConfigTable F → List SlotRow → FieldKey → Option String
  unfolding arming_probe_targets
  arming_problems q t slots = probe_all slots (arming_probe_targets q t) (λ k. none)
