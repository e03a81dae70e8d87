-- ===== src/Json/Maps.antt =====
-- The laws of reading and writing the keys of a map.
use skyl.Prelude.{String, ◌≡◌, ◌≢◌, refl, none, some, str_eq, eq_iff, if◌then◌else◌, arith}
use skyl.Json.{Json, Fields, no_fields, field, get_field, set_field}

-- A write is read back at its key and changes no other key.
pub get_field-set_field :
    (j k : String) (v : Json) (fs : Fields)
    → get_field j (set_field k v fs) ≡ (if str_eq k j then some v else get_field j fs)
unfolding get_field set_field
get_field-set_field j k v no_fields = refl
get_field-set_field j k v (field i w fs) =
    let rest = get_field-set_field j k v fs in
    ground (arith, rest, eq_iff k j, eq_iff i k, eq_iff i j)

-- No key occurs twice.
abbrev pub HasKey : String → Fields → Type 0
HasKey k fs = get_field k fs ≢ none

abbrev pub IsMap : Fields → Type 0
IsMap no_fields = Unit
IsMap (field k v fs) = (get_field k fs ≡ none) × IsMap fs
