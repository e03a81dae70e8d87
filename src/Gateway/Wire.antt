-- ===== src/Gateway/Wire.antt =====
-- gateway/api.go: messages over the wire, in both directions.
use skyl.Prelude.{
  ℕ, suc, String, Bool, true, false, not, ◌&&◌, ◌||◌, List, [], ◌∷◌, null, Option, none, some,
  str_eq, is_empty, if◌then◌else◌, Bytes,
}
use skyl.Message.{
  Part, Image, Message, Role, RawMessage, text, image, tool_call, tool_result, nil, valid,
}

pub record ChatPart : Type 0 where
  pub kind : String
  pub text : String
  pub media_type : String
  pub encoded : String
  pub url : String
  pub id : String
  pub name : String
  pub arguments : RawMessage
  pub tool_call_id : String
  pub content : String
  pub is_error : Bool

pub record ChatMessage : Type 0 where
  pub role : String
  pub text : String
  pub content : List ChatPart

-- What the conversion refuses, with the numbers that it prints.
pub data BadRequest : Type 0 where
  unknown_mode schema_missing : BadRequest
  unknown_role text_and_content : ℕ → BadRequest
  image_missing image_untyped image_undecodable call_unnamed result_unlinked untyped unknown_part :
      ℕ → ℕ → BadRequest

-- `(value, error)`, where the error is a badRequestError.
pub data Converted (A : Type 0) : Type 0 where
  accepted : A → Converted A
  rejected : BadRequest → Converted A

abbrev pub reject_if : {A : Type 0} → Bool → BadRequest → Converted A → Converted A
reject_if true e rest = rejected e
reject_if false e rest = rest

-- `base64.StdEncoding`
pub record Base64 : Type 0 where
  pub encode : Bytes → String
  pub decode : String → Option Bytes

abbrev pub empty_part : String → ChatPart
empty_part kind = record {
  kind = kind;
  text = "";
  media_type = "";
  encoded = "";
  url = "";
  id = "";
  name = "";
  arguments = "";
  tool_call_id = "";
  content = "";
  is_error = false;
}

module _ (base64 : Base64) where
  unfoldable pub decoded_image : ℕ → ℕ → String → Option Bytes → Converted Part
  decoded_image i j media_type none = rejected (image_undecodable i j)
  decoded_image i j media_type (some raw) =
      accepted (image (record { media_type = media_type; bytes = raw; url = "" }))

  unfoldable pub image_part : ℕ → ℕ → ChatPart → Converted Part
  unfolding decoded_image
  image_part i j p =
      if is_empty p.encoded && is_empty p.url
      then rejected (image_missing i j)
      else if not (is_empty p.encoded)
      then reject_if (is_empty p.media_type) (image_untyped i j)
          (decoded_image i j p.media_type (base64.decode p.encoded))
      else accepted (image (record { media_type = p.media_type; bytes = []; url = p.url }))

  unfoldable pub call_part : ℕ → ℕ → ChatPart → Converted Part
  call_part i j p =
      reject_if (is_empty p.id || is_empty p.name) (call_unnamed i j)
        (accepted (tool_call (record { id = p.id; name = p.name; arguments = p.arguments })))

  unfoldable pub result_part : ℕ → ℕ → ChatPart → Converted Part
  result_part i j p = reject_if (is_empty p.tool_call_id) (result_unlinked i j) (
      accepted (
        tool_result
          (record { call_id = p.tool_call_id; content = p.content; is_error = p.is_error })))

  unfoldable pub to_skyl_part : ℕ → ℕ → ChatPart → Converted Part
  unfolding image_part call_part result_part
  to_skyl_part i j p =
      if str_eq p.kind "text"
      then accepted (text p.text)
      else if str_eq p.kind "image"
      then image_part i j p
      else if str_eq p.kind "tool_call"
      then call_part i j p
      else if str_eq p.kind "tool_result"
      then result_part i j p
      else if is_empty p.kind
      then rejected (untyped i j)
      else rejected (unknown_part i j)

  abbrev pub prepend : Converted Part → Converted (List Part) → Converted (List Part)
  prepend (rejected e) rest = rejected e
  prepend (accepted p) (rejected e) = rejected e
  prepend (accepted p) (accepted ps) = accepted (p ∷ ps)

  unfoldable pub to_skyl_parts : ℕ → ℕ → List ChatPart → Converted (List Part)
  unfolding to_skyl_part
  to_skyl_parts i j [] = accepted []
  to_skyl_parts i j (p ∷ ps) = prepend (to_skyl_part i j p) (to_skyl_parts i (suc j) ps)

  abbrev pub as_message : Role → Converted (List Part) → Converted Message
  as_message role (rejected e) = rejected e
  as_message role (accepted ps) = accepted (record { role = role; parts = ps })

  unfoldable pub to_skyl_message : ℕ → ChatMessage → Converted Message
  unfolding to_skyl_parts
  to_skyl_message i m = reject_if (not (valid m.role)) (unknown_role i) (
      reject_if (not (is_empty m.text) && not (null m.content)) (text_and_content i) (
        if not (is_empty m.text)
        then accepted (record { role = m.role; parts = text m.text ∷ [] })
        else as_message m.role (to_skyl_parts i 0 m.content)))

  unfoldable pub from_image : Image → ChatPart
  from_image v = record (empty_part "image") {
    media_type = v.media_type;
    url = v.url;
    encoded = if null v.bytes then "" else base64.encode v.bytes;
  }

  -- The body of the loop over the parts; a nil part adds nothing.
  unfoldable pub from_part : Part → List ChatPart → List ChatPart
  unfolding from_image
  from_part (text t) out = record (empty_part "text") { text = t } ∷ out
  from_part (image v) out = from_image v ∷ out
  from_part (tool_call c) out =
      record (empty_part "tool_call") { id = c.id; name = c.name; arguments = c.arguments } ∷ out
  from_part (tool_result r) out =
      record (empty_part "tool_result") {
        tool_call_id = r.call_id;
        content = r.content;
        is_error = r.is_error;
      }
      ∷ out
  from_part nil out = out

  unfoldable pub from_parts : List Part → List ChatPart
  unfolding from_part
  from_parts [] = []
  from_parts (p ∷ ps) = from_part p (from_parts ps)

  unfoldable pub from_skyl_message : Message → ChatMessage
  unfolding from_parts
  from_skyl_message m = record { role = m.role; text = ""; content = from_parts m.parts }
