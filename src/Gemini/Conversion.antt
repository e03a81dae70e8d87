-- ===== src/Gemini/Conversion.antt =====
-- An assistant message survives the wire format of the Gemini API, but for what the format has no
-- place for: the ids of calls and empty texts.
use skyl.Prelude.{
  String, ◌≡◌, refl, Bool, true, false, not, ◌&&◌, ◌||◌, List, [], ◌∷◌, null, length, is_empty,
  if◌then◌else◌, Bool-cases, inl, inr, All, ℕ, arith, some,
}
use skyl.Errors.{
  GoError, Sentinel, is, kind_of, unsupportedf, as_provider_error, has_certificate, retryable,
}
use skyl.Retry.{should_retry, retry_by_class}
use skyl.Json.{Json, string, object}
use skyl.Json.Build.{one_field}
use skyl.Message.{
  Part, Image, ToolCall, RawMessage, Message, text, image, tool_call, tool_result, nil,
  role_assistant, tool_calls_of,
}
use skyl.Message.Laws.{IsReplyPart}
use skyl.Result.{ok, err}
use skyl.Gemini.{
  Library, Complaint, image_by_url, unrepresentable, complain, WirePart, WireContent, no_part,
  or_no_args, add_part, parts_from, parts_from_candidate,
}
use skyl.Gemini.Payload.{call_part, convert_part, convert_parts, convert_message, wire_role}

-- A call as it comes back: its name for its id, and `{}` for empty arguments.
abbrev pub renamed : ToolCall → ToolCall
unfolding or_no_args
renamed c = record { id = c.name; name = c.name; arguments = or_no_args c.arguments }

-- The parts of a reply, less its empty texts.
unfoldable pub carried : List Part → List Part
unfolding renamed
carried [] = []
carried (text t ∷ ps) = if is_empty t then carried ps else text t ∷ carried ps
carried (tool_call c ∷ ps) = tool_call (renamed c) ∷ carried ps
carried (_ ∷ ps) = carried ps

abbrev pub has_call : List Part → Bool
has_call ps = not (null (tool_calls_of ps))

or_no_args_twice : (a : String) → or_no_args (or_no_args a) ≡ or_no_args a
unfolding or_no_args
or_no_args_twice a = elim (Bool-cases (is_empty a)) [ inl e ↦ rw e refl | inr e ↦ rw (e, e) refl ]

both : (a b : Bool) → (a && b) ≡ true → (a ≡ true) × (b ≡ true)
both true b h = (refl, h)
both false b h = cc

image_test :
    {b : Bool} (v : Image)
    → (is_empty v.url || not (null v.bytes)) ≡ b
    → (not (is_empty v.url) && null v.bytes) ≡ not b
image_test v h = ground arith

module _ (lib : Library) (idx : ℕ) where
  convert_reply :
      (ps : List Part)
      → All IsReplyPart ps
      → (wps : List WirePart) × (convert_parts lib idx ps ≡ ok wps)
        × (parts_from wps ≡ (carried ps, has_call ps))
  unfolding convert_parts convert_part call_part parts_from add_part carried renamed tool_calls_of
  convert_reply [] h = ([], refl, refl)
  convert_reply (text t ∷ ps) h =
      let (wps, done, back) = convert_reply ps h.1 in
      (
        record no_part { text = t } ∷ wps,
        rw done refl,
        rw back (elim (Bool-cases (is_empty t)) [ inl e ↦ rw e refl | inr e ↦ rw e refl ]),
      )
  convert_reply (tool_call c ∷ ps) h =
      let (wps, done, back) = convert_reply ps h.1 in
      (call_part c ∷ wps, rw done refl, rw (back, or_no_args_twice c.arguments) refl)
  convert_reply (image v ∷ ps) h = absurd h.0
  convert_reply (tool_result r ∷ ps) h = absurd h.0
  convert_reply (nil ∷ ps) h = absurd h.0

  -- An assistant message of texts and tool calls, in any order, is sent as one content of the role
  -- "model", which reads back as the same parts in the same order, less the empty texts, where each
  -- call has its name for its id and `{}` for empty arguments; it counts as a request for tools exactly
  -- if it has a call.
  pub candidate-convert_message :
      (ps : List Part)
      → All IsReplyPart ps
      → (w : WireContent) × (convert_message lib idx (record { role = role_assistant; parts = ps })
          ≡ ok w)
        × (w.role ≡ "model")
        × (parts_from_candidate w ≡ (carried ps, has_call ps))
  unfolding convert_message wire_role parts_from_candidate
  candidate-convert_message ps h =
      let (wps, done, back) = convert_reply ps h in
      (record { role = "model"; parts = wps }, rw done refl, refl, back)

  -- The parts that the format can carry: all but an image that is only an address, and the nil part.
  abbrev pub carriable : Part → Bool
  carriable (image v) = is_empty v.url || not (null v.bytes)
  carriable nil = false
  carriable _ = true

  abbrev pub all_carriable : List Part → Bool
  all_carriable [] = true
  all_carriable (p ∷ ps) = carriable p && all_carriable ps

  -- Encoding a map of a text never fails.
  abbrev pub Encodes : Type 0
  Encodes = (v : Json) → (payload : RawMessage) × (lib.marshal v ≡ ok payload)

  abbrev pub IsRefused : GoError → Type 0
  IsRefused e = (is e (kind_of Sentinel.unsupported) ≡ true) × (should_retry e ≡ false)

  complain-IsRefused : (c : Complaint) → IsRefused (complain lib c)
  unfolding complain unsupportedf is should_retry retry_by_class as_provider_error has_certificate
      retryable
  complain-IsRefused c = (refl, refl)

  convert_part-carriable :
      (p : Part) → Encodes → carriable p ≡ true → (wp : WirePart) × (convert_part lib idx p ≡ ok wp)
  unfolding convert_part
  convert_part-carriable (text t) enc h = (_, refl)
  convert_part-carriable (tool_call c) enc h = (_, refl)
  convert_part-carriable (image v) enc h = (
    record no_part {
      inline_data = some (record { mime_type = v.media_type; encoded = lib.base64 v.bytes });
    },
    rw (image_test v h) refl,
  )
  convert_part-carriable (tool_result r) enc h =
      let (payload, done) = enc (object (one_field "content" (string r.content))) in
      (
        record no_part {
          function_response = some (record { name = r.call_id; response = payload });
        },
        rw done refl,
      )
  convert_part-carriable nil enc h = cc

  convert_part-uncarriable :
      (p : Part)
      → carriable p ≡ false
      → (e : GoError) × (convert_part lib idx p ≡ err e) × IsRefused e
  unfolding convert_part
  convert_part-uncarriable (image v) h =
      (complain lib (image_by_url idx), rw (image_test v h) refl, complain-IsRefused _)
  convert_part-uncarriable nil h = (complain lib (unrepresentable idx), refl, complain-IsRefused _)
  convert_part-uncarriable (text t) h = cc
  convert_part-uncarriable (tool_call c) h = cc
  convert_part-uncarriable (tool_result r) h = cc

  convert_parts-carriable :
      (ps : List Part)
      → Encodes
      → all_carriable ps ≡ true
      → (wps : List WirePart) × (convert_parts lib idx ps ≡ ok wps) × (length wps ≡ length ps)
  unfolding convert_parts
  convert_parts-carriable [] enc h = ([], refl, refl)
  convert_parts-carriable (p ∷ ps) enc h =
      let (here, there) = both (carriable p) (all_carriable ps) h in
      let (wp, one) = convert_part-carriable p enc here in
      let (wps, rest, same) = convert_parts-carriable ps enc there in
      (wp ∷ wps, rw (one, rest) refl, omega (arith, same))

  convert_parts-uncarriable :
      (ps : List Part)
      → Encodes
      → all_carriable ps ≡ false
      → (e : GoError) × (convert_parts lib idx ps ≡ err e) × IsRefused e
  unfolding convert_parts
  convert_parts-uncarriable [] enc h = cc
  convert_parts-uncarriable (p ∷ ps) enc h = elim (Bool-cases (carriable p)) [
    | inl here ↦
        let (wp, one) = convert_part-carriable p enc here in
        let (e, rest, why) = convert_parts-uncarriable ps enc (rw here at h) in
        (e, rw (one, rest) refl, why)
    | inr here ↦ let (e, one, why) = convert_part-uncarriable p here in (e, rw one refl, why)
  ]

  -- If encoding a map of a text never fails: a message is sent with one wire part for each of its parts
  -- exactly if each can be carried, that is, none is nil and none is an image that is only an address;
  -- otherwise the request is refused with an error that matches ErrUnsupported and is not retried.
  pub convert_message_iff :
      (m : Message)
      → Encodes
      → (all_carriable m.parts ≡ true
          → (w : WireContent) × (convert_message lib idx m ≡ ok w)
            × (length w.parts ≡ length m.parts))
        × (all_carriable m.parts ≡ false
            → (e : GoError) × (convert_message lib idx m ≡ err e) × IsRefused e)
  unfolding convert_message
  convert_message_iff m enc = (
    λ h.
        let (wps, done, same) = convert_parts-carriable m.parts enc h in
        (record { role = wire_role m.role; parts = wps }, rw done refl, same),
    λ h. let (e, done, why) = convert_parts-uncarriable m.parts enc h in (e, rw done refl, why),
  )
