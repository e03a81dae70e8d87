-- ===== src/Json.antt =====
-- JSON values: what Go's `any` holds after `json.Unmarshal`, and what the code builds for
-- `json.Marshal`. A number is kept as its text.
pub mod Maps
pub mod Build
use skyl.Prelude.{String, Bool, ℕ, zero, suc, Option, none, some, str_eq, if◌then◌else◌}

mutual
  pub data Json : Type 0 where
    null : Json
    boolean : Bool → Json
    number : String → Json
    string : String → Json
    array : Items → Json
    object : Fields → Json

  pub data Items : Type 0 where
    no_items : Items
    item : Json → Items → Items

  pub data Fields : Type 0 where
    no_fields : Fields
    field : String → Json → Fields → Fields

-- `len(m)` of a `map[string]any`, whose keys are distinct.
abbrev pub field_count : Fields → ℕ
field_count no_fields = zero
field_count (field k v fs) = suc (field_count fs)

-- `m[k]`: the value and whether the key is there.
unfoldable pub get_field : String → Fields → Option Json
get_field k no_fields = none
get_field k (field j v fs) = if str_eq j k then some v else get_field k fs

-- `m[k] = v`
unfoldable pub set_field : String → Json → Fields → Fields
set_field k v no_fields = field k v no_fields
set_field k v (field j w fs) = if str_eq j k then field k v fs else field j w (set_field k v fs)
