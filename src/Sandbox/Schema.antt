-- ===== src/Sandbox/Schema.antt =====
-- internal/sandbox/structured.go: a document for a schema. A schema is what encoding/json makes of it,
-- and so is the document.
use skyl.Prelude.{
  ℕ, zero, suc, String, true, List, [], ◌∷◌, Option, none, some, str_eq, if◌then◌else◌,
  sort_strings,
}
use skyl.Json.{
  Json, null, boolean, number, string, array, object, Items, no_items, item, Fields, no_fields,
  field, get_field,
}

-- `schema[k].(map[string]any)`, with no fields where it is something else.
abbrev pub object_of : Option Json → Fields
object_of (some (object fs)) = fs
object_of j = no_fields

abbrev pub keys : Fields → List String
keys no_fields = []
keys (field k v fs) = k ∷ keys fs

-- The loop over a list of types: the first that is not null.
unfoldable pub first_type : Items → Option String
first_type no_items = none
first_type (item (string s) more) = if str_eq s "null" then first_type more else some s
first_type (item j more) = first_type more

-- What `schemaType` falls back to.
unfoldable pub type_by_properties : Fields → String
type_by_properties schema = elim (get_field "properties" schema) [ none ↦ "" | some p ↦ "object" ]

unfoldable pub schema_type_of : Option Json → Fields → String
unfolding first_type type_by_properties
schema_type_of (some (string t)) schema = t
schema_type_of (some (array ts)) schema = elim (first_type ts) [
  | none ↦ type_by_properties schema
  | some t ↦ t
]
schema_type_of j schema = type_by_properties schema

-- `schemaType`
unfoldable pub schema_type : Fields → String
unfolding schema_type_of get_field
schema_type schema = schema_type_of (get_field "type" schema) schema

-- The values that a schema fixes: its constant, or the first of its values.
unfoldable pub fixed_value : Fields → Option Json
unfolding get_field
fixed_value schema = elim (get_field "const" schema) [
  | some c ↦ some c
  | none ↦ elim (get_field "enum" schema) [ some (array (item v vs)) ↦ some v | j ↦ none ]
]

abbrev pub to_fields : (String → Json) → List String → Fields
to_fields f [] = no_fields
to_fields f (k ∷ ks) = field k (f k) (to_fields f ks)

-- `valueForSchema`, on fuel for the depths that are left: nothing is built below a depth of eight.
unfoldable pub value_for_schema : ℕ → Fields → Json
unfolding fixed_value schema_type get_field sort_strings
value_for_schema zero schema = null
value_for_schema (suc fuel) schema =
    let props = object_of (get_field "properties" schema) in
    let of_name = λ (k : String). value_for_schema fuel (object_of (get_field k props)) in
    let of_items = value_for_schema fuel (object_of (get_field "items" schema)) in
    let t = schema_type schema in
    elim (fixed_value schema) [
      | some v ↦ v
      | none ↦
          if str_eq t "object"
          then object (to_fields of_name (sort_strings (keys props)))
          else if str_eq t "array"
          then array (item of_items no_items)
          else if str_eq t "integer"
          then number "1"
          else if str_eq t "number"
          then number "1.5"
          else if str_eq t "boolean"
          then boolean true
          else if str_eq t "null"
          then null
          else string "sandbox"
    ]

-- `answerForSchema`, less the printing: depths 0 to 8.
unfoldable pub answer_for_schema : Fields → Json
unfolding value_for_schema
answer_for_schema schema = value_for_schema 9 schema
