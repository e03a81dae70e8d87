-- ===== src/Json/Build.antt =====
-- JSON values as the adapters put them together: lists, objects of a few keys, keys that may be absent.
use skyl.Prelude.{String, Bool, true, false, List, [], ◌∷◌, Option, none, some}
use skyl.Json.{Json, Items, Fields, no_items, item, no_fields, field, object, set_field}

abbrev pub items : List Json → Items
items [] = no_items
items (v ∷ vs) = item v (items vs)

abbrev pub one_field : String → Json → Fields
one_field k v = field k v no_fields

abbrev pub two_fields : String → Json → String → Json → Json
two_fields k v j w = object (field k v (one_field j w))

-- A key that is left out where the test fails.
abbrev pub set_if : Bool → String → Json → Fields → Fields
set_if true k v fs = set_field k v fs
set_if false k v fs = fs

abbrev pub set_some : String → Option Json → Fields → Fields
set_some k none fs = fs
set_some k (some v) fs = set_field k v fs

abbrev pub option_json {ℓ} : {A : Type ℓ} → (A → Json) → Option A → Option Json
option_json f none = none
option_json f (some a) = some (f a)
