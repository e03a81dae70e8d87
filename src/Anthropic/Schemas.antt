-- ===== src/Anthropic/Schemas.antt =====
-- A tool's schema reaches the Anthropic API whole.
use skyl.Prelude.{
  String, ◌≡◌, ◌≢◌, refl, true, List, [], ◌∷◌, map, none, some, str_eq, eq_iff, ap, ◌∙◌, sym,
  if◌then◌else◌, Bool-cases, inl, inr,
}
use skyl.Json.{Json, Fields, no_fields, field, string, number, boolean, array, object, get_field}
use skyl.Json.Build.{items}
use skyl.Anthropic.Payload.{
  modelled_key, extra_schema_fields, required_names, string_items, properties_of, schema_of,
}

modelled_key-same : (j k : String) → str_eq j k ≡ true → modelled_key k ≡ modelled_key j
modelled_key-same j k e = ap modelled_key (sym ((eq_iff j k).0 e))

get_field-extra_schema_fields :
    (k : String) (fs : Fields)
    → get_field k (extra_schema_fields fs) ≡ (if modelled_key k then none else get_field k fs)
unfolding get_field extra_schema_fields
get_field-extra_schema_fields k no_fields = elim (Bool-cases (modelled_key k)) [
  | inl e ↦ rw e refl
  | inr e ↦ rw e refl
]
get_field-extra_schema_fields k (field j v fs) =
    let rest = get_field-extra_schema_fields k fs in
    elim (Bool-cases (modelled_key j)) [
      | inl mj ↦ elim (Bool-cases (str_eq j k)) [
        | inl e ↦ rw (mj, rest, e, modelled_key-same j k e ∙ mj) refl
        | inr e ↦ rw (mj, rest, e) refl
      ]
      | inr mj ↦ elim (Bool-cases (str_eq j k)) [
        | inl e ↦ rw (mj, e, modelled_key-same j k e ∙ mj) refl
        | inr e ↦ rw (mj, e, rest) refl
      ]
    ]

string_items-map : (names : List String) → string_items (items (map string names)) ≡ names
unfolding string_items
string_items-map [] = refl
string_items-map (n ∷ ns) = ap (λ ms. n ∷ ms) (string_items-map ns)

properties_of-some : (v : Json) → v ≢ Json.null → properties_of (some v) ≡ v
unfolding properties_of
properties_of-some Json.null h = absurd (h refl)
properties_of-some (boolean b) h = refl
properties_of-some (number n) h = refl
properties_of-some (string s) h = refl
properties_of-some (array vs) h = refl
properties_of-some (object fs) h = refl

-- The schema that is sent for some parameters says what they say: its properties are theirs, if they
-- are not null; its required names are theirs, if these are a list of texts; and every other key, but
-- for "type", has the value that it has there.
pub schema_of_lem :
    (params : Fields)
    → ((props : Json)
        → get_field "properties" params ≡ some props
        → props ≢ Json.null
        → (schema_of (some params)).properties ≡ props)
      × ((names : List String)
          → get_field "required" params ≡ some (array (items (map string names)))
          → (schema_of (some params)).required ≡ names)
      × ((k : String)
          → get_field k (schema_of (some params)).extra_fields
            ≡ (if modelled_key k then none else get_field k params))
unfolding schema_of required_names
schema_of_lem params = (
  λ props has some_props. rw has (properties_of-some props some_props),
  λ names has. rw has (string_items-map names),
  λ k. get_field-extra_schema_fields k params,
)
