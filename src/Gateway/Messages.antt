-- ===== src/Gateway/Messages.antt =====
-- A turn that the gateway renders comes back as the same turn.
use skyl.Prelude.{
  ℕ, suc, ◌≡◌, refl, sym, ap, ◌∙◌, true, false, ◌||◌, List, [], ◌∷◌, null, none, some, is_empty,
  Bytes, Bool-cases, inl, inr, ◌⊎◌, All, arith,
}
use skyl.Message.{
  Part, Image, ToolCall, ToolResult, Message, text, image, tool_call, tool_result, nil, valid,
}
use skyl.Request.{validate_part}
use skyl.Gateway.Wire.{
  accepted, Base64, to_skyl_part, to_skyl_parts, to_skyl_message, from_part, from_parts,
  from_skyl_message, from_image, image_part, decoded_image, call_part, result_part,
}

-- An image has its bytes or an address, not both.
abbrev pub IsSingle : Part → Type 0
IsSingle (image v) = (v.url ≡ "") ⊎ (v.bytes ≡ [])
IsSingle _ = Unit

-- A part that the validation of requests accepts.
pub record IsEchoed (p : Part) : Type 0 where
  pub passes : validate_part 0 0 p ≡ none
  pub single : IsSingle p

clash : false ≡ true → ⊥
clash e = absurd (cc e)

nil_refused : validate_part 0 0 nil ≡ none → ⊥
unfolding validate_part
nil_refused h = absurd (cc h)

null-nil : (b : Bytes) → null b ≡ true → b ≡ []
null-nil [] h = refl
null-nil (x ∷ xs) h = absurd (ground arith)

url_set :
    (v : Image) → validate_part 0 0 (image v) ≡ none → null v.bytes ≡ true → is_empty v.url ≡ false
unfolding validate_part
url_set v h b = (ground arith)

media_set :
    (v : Image)
    → validate_part 0 0 (image v) ≡ none
    → null v.bytes ≡ false
    → is_empty v.media_type ≡ false
unfolding validate_part
media_set v h b = (ground arith)

call_set :
    (c : ToolCall)
    → validate_part 0 0 (tool_call c) ≡ none
    → (is_empty c.id || is_empty c.name) ≡ false
unfolding validate_part
call_set c h = (ground arith)

result_set :
    (r : ToolResult) → validate_part 0 0 (tool_result r) ≡ none → is_empty r.call_id ≡ false
unfolding validate_part
result_set r h = (ground arith)

module _ (base64 : Base64) (decode_encode : (b : Bytes) → base64.decode (base64.encode b) ≡ some b)
    (encode_empty : (b : Bytes) → null b ≡ false → is_empty (base64.encode b) ≡ false) where
  image-echo :
      (i j : ℕ) (v : Image)
      → validate_part 0 0 (image v) ≡ none
      → (v.url ≡ "") ⊎ (v.bytes ≡ [])
      → image_part base64 i j (from_image base64 v) ≡ accepted (image v)
  unfolding image_part from_image decoded_image validate_part
  image-echo i j v h s = elim (Bool-cases (null v.bytes)) [
    | inl b ↦
        rw (b, url_set v h b)
          (ap (λ x. accepted (image (record { media_type = v.media_type; bytes = x; url = v.url })))
            (sym (null-nil v.bytes b)))
    | inr b ↦ elim s [
      | inr e ↦ absurd (clash (sym b ∙ ap null e))
      | inl e ↦
          rw (b, encode_empty v.bytes b, media_set v h b, decode_encode v.bytes)
            (ap
              (λ x.
                accepted (image (record { media_type = v.media_type; bytes = v.bytes; url = x })))
              (sym e))
    ]
  ]

  parts-echo :
      (i j : ℕ) (ps : List Part)
      → All IsEchoed ps
      → to_skyl_parts base64 i j (from_parts base64 ps) ≡ accepted ps
  unfolding to_skyl_parts to_skyl_part from_parts from_part call_part result_part
  parts-echo i j [] h = refl
  parts-echo i j (text t ∷ ps) h = rw (parts-echo i (suc j) ps h.1)
  parts-echo i j (image v ∷ ps) h =
      rw (image-echo i j v h.0.passes h.0.single, parts-echo i (suc j) ps h.1)
  parts-echo i j (tool_call c ∷ ps) h = rw (call_set c h.0.passes, parts-echo i (suc j) ps h.1)
  parts-echo i j (tool_result r ∷ ps) h = rw (result_set r h.0.passes, parts-echo i (suc j) ps h.1)
  parts-echo i j (nil ∷ ps) h = absurd (nil_refused h.0.passes)

  -- A turn whose role is known and whose parts the validation of requests accepts, and no image of
  -- which has both bytes and an address, is rendered to a turn that reads back as the same, if base64
  -- decodes what it encodes and encodes no bytes but none as the empty text.
  pub to_skyl-from_skyl :
      (i : ℕ) (m : Message)
      → valid m.role ≡ true
      → All IsEchoed m.parts
      → to_skyl_message base64 i (from_skyl_message base64 m) ≡ accepted m
  unfolding to_skyl_message from_skyl_message
  to_skyl-from_skyl i m known h = rw (known, parts-echo i 0 m.parts h) refl
