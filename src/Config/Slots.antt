-- ===== src/Config/Slots.antt =====
-- The slot_config table of review_queue/store.py, one row for each provider and slot.
use pr_review_bot.Prelude.{
  ◌≡◌, String, Bool, false, ◌&&◌, Option, none, some, List, [], ◌∷◌, ◌==◌, if◌then◌else◌, str_eq, ℤ,
  pos, negsuc,
}

pub record SlotRow : Type 0 where
  pub provider : String
  pub slot_index : ℤ
  pub model : Option String
  pub vertex_gcp_project : Option String
  pub vertex_gcp_location : Option String
  pub updated_at : String

abbrev pub int_eq : ℤ → ℤ → Bool
int_eq (pos a) (pos b) = a == b
int_eq (negsuc a) (negsuc b) = a == b
int_eq (pos a) (negsuc b) = false
int_eq (negsuc a) (pos b) = false

-- `WHERE provider = %s AND slot_index = %s`
abbrev pub has_slot_key : String → ℤ → SlotRow → Bool
has_slot_key p i r = str_eq r.provider p && int_eq r.slot_index i

-- What a row shows: model, project and location.
pub record SlotValues : Type 0 where
  pub model : Option String
  pub vertex_gcp_project : Option String
  pub vertex_gcp_location : Option String

abbrev pub values_of : SlotRow → SlotValues
values_of r = record {
  model = r.model;
  vertex_gcp_project = r.vertex_gcp_project;
  vertex_gcp_location = r.vertex_gcp_location;
}

unfoldable pub get_slot_config : String → ℤ → List SlotRow → Option SlotValues
get_slot_config p i [] = none
get_slot_config p i (r ∷ rs) =
    let later = get_slot_config p i rs in if has_slot_key p i r then some (values_of r) else later

abbrev pub slot_row : String → ℤ → SlotValues → String → SlotRow
slot_row p i v now = record {
  provider = p;
  slot_index = i;
  model = v.model;
  vertex_gcp_project = v.vertex_gcp_project;
  vertex_gcp_location = v.vertex_gcp_location;
  updated_at = now;
}

-- The row of the key is updated, or a new one inserted.
unfoldable pub set_slot_config : String → ℤ → SlotValues → String → List SlotRow → List SlotRow
set_slot_config p i v now [] = slot_row p i v now ∷ []
set_slot_config p i v now (r ∷ rs) =
    let later = r ∷ set_slot_config p i v now rs in
    if has_slot_key p i r then slot_row r.provider r.slot_index v now ∷ rs else later

unfoldable pub delete_slot_config : String → ℤ → List SlotRow → List SlotRow
delete_slot_config p i [] = []
delete_slot_config p i (r ∷ rs) =
    let later = delete_slot_config p i rs in if has_slot_key p i r then later else r ∷ later

-- The returned dict, as its entries.
unfoldable pub get_all_slot_configs : List SlotRow → List ((String × ℤ) × SlotValues)
get_all_slot_configs [] = []
get_all_slot_configs (r ∷ rs) = ((r.provider, r.slot_index), values_of r) ∷ get_all_slot_configs rs

-- The primary key.
abbrev pub IsKeyed : List SlotRow → Type 0
IsKeyed [] = Unit
IsKeyed (r ∷ rs) = (get_slot_config r.provider r.slot_index rs ≡ none) × IsKeyed rs
