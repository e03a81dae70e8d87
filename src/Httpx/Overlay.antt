-- ===== src/Httpx/Overlay.antt =====
-- The options of the caller win over what the client chose.
use skyl.Prelude.{
  String, ◌≡◌, refl, ap, sym, ◌∙◌, Option, none, some, str_eq, eq_iff, Bool-cases, inl, inr,
}
use skyl.Json.{Json, Fields, no_fields, field, get_field, set_field}
use skyl.Json.Maps.{IsMap, get_field-set_field}
use skyl.Httpx.{merge}

abbrev pub or_else : Option Json → Option Json → Option Json
or_else (some v) other = some v
or_else none other = other

-- A key of the caller's options has the caller's value in the merged map, and any other key the
-- value that it had, if no key of the options occurs twice.
pub get_field-merge :
    (k : String) (dst extra : Fields)
    → IsMap extra
    → get_field k (merge dst extra) ≡ or_else (get_field k extra) (get_field k dst)
unfolding merge get_field
get_field-merge k dst no_fields h = refl
get_field-merge k dst (field j v extra) h =
    get_field-merge k (set_field j v dst) extra h.1 ∙ elim (Bool-cases (str_eq j k)) [
      | inl same ↦
          rw (get_field-set_field k j v dst)
            (rw same (rw (ap (λ x. get_field x extra) (sym ((eq_iff j k).0 same)) ∙ h.0) refl))
      | inr other ↦ rw (get_field-set_field k j v dst) (rw other refl)
    ]
