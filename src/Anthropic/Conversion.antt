-- ===== src/Anthropic/Conversion.antt =====
-- Which messages the Anthropic format can carry, and that every part of such a message is sent.
use skyl.Prelude.{
  ℕ, ◌≡◌, refl, Bool, true, false, not, ◌&&◌, ◌||◌, List, [], ◌∷◌, null, length, Option, none, some,
  str_eq, is_empty, if◌then◌else◌, Bool-cases, Option-cases, inl, inr, arith,
}
use skyl.Errors.{
  GoError, Sentinel, is, kind_of, unsupportedf, as_provider_error, has_certificate, retryable,
}
use skyl.Retry.{should_retry, retry_by_class}
use skyl.Json.{Json, object, no_fields}
use skyl.Message.{
  Part, RawMessage, Message, Role, text, image, tool_call, tool_result, nil, valid, role_assistant,
}
use skyl.Result.{ok, err}
use skyl.Anthropic.{
  Sdk, BlockParam, MessageParam, assistant_message, user_message, Complaint, bad_arguments,
  unrepresentable, unknown_role, complain, text_block, image_url, image_base64, tool_use_block,
  tool_result_block,
}
use skyl.Anthropic.Payload.{tool_input, convert_part, convert_parts, with_role, convert_message}

-- An error that matches ErrUnsupported and is not retried.
abbrev pub IsRefused : GoError → Type 0
IsRefused e = (is e (kind_of Sentinel.unsupported) ≡ true) × (should_retry e ≡ false)

-- The blocks of a message, which is an assistant's turn or a user's.
abbrev pub blocks_of : MessageParam → List BlockParam
blocks_of (assistant_message bs) = bs
blocks_of (user_message bs) = bs

abbrev pub is_assistant : MessageParam → Bool
is_assistant (assistant_message bs) = true
is_assistant (user_message bs) = false

module _ {E : Type 0} (sdk : Sdk E) (idx : ℕ) where
  abbrev decodes : Option Json → Bool
  decodes none = false
  decodes (some v) = true

  -- The parts that the format can carry: all but the nil part and a call whose arguments are no JSON.
  abbrev pub carriable : Part → Bool
  carriable (tool_call c) = is_empty c.arguments || decodes (sdk.unmarshal c.arguments)
  carriable nil = false
  carriable _ = true

  abbrev pub all_carriable : List Part → Bool
  all_carriable [] = true
  all_carriable (p ∷ ps) = carriable p && all_carriable ps

  complain-IsRefused : (c : Complaint) → IsRefused (complain sdk c)
  unfolding complain unsupportedf is should_retry retry_by_class as_provider_error has_certificate
      retryable
  complain-IsRefused c = (refl, refl)

  tool_input-carriable :
      (args : RawMessage)
      → (is_empty args || decodes (sdk.unmarshal args)) ≡ true
      → (v : Json) × (tool_input sdk idx args ≡ ok v)
  unfolding tool_input
  tool_input-carriable args h = elim (Bool-cases (is_empty args)) [
    | inl e ↦ (object no_fields, rw e refl)
    | inr e ↦ elim (Option-cases (sdk.unmarshal args)) [
      | inl n ↦ cc (rw (e, n) at h)
      | inr (v, n) ↦ (v, rw (e, n) refl)
    ]
  ]

  tool_input-uncarriable :
      (args : RawMessage)
      → (is_empty args || decodes (sdk.unmarshal args)) ≡ false
      → tool_input sdk idx args ≡ err (complain sdk (bad_arguments idx))
  unfolding tool_input
  tool_input-uncarriable args h = elim (Bool-cases (is_empty args)) [
    | inl e ↦ cc (rw e at h)
    | inr e ↦ elim (Option-cases (sdk.unmarshal args)) [
      | inl n ↦ rw (e, n) refl
      | inr (v, n) ↦ cc (rw (e, n) at h)
    ]
  ]

  convert_part-carriable :
      (p : Part) → carriable p ≡ true → (b : BlockParam) × (convert_part sdk idx p ≡ ok b)
  unfolding convert_part
  convert_part-carriable (text t) h = (text_block t, refl)
  convert_part-carriable (image v) h = (
    (if not (is_empty v.url) && null v.bytes
        then image_url v.url
        else image_base64 v.media_type (sdk.base64 v.bytes)),
    refl,
  )
  convert_part-carriable (tool_call c) h =
      let (v, done) = tool_input-carriable c.arguments h in
      (tool_use_block c.id v c.name, rw done refl)
  convert_part-carriable (tool_result r) h =
      (tool_result_block r.call_id r.content r.is_error, refl)
  convert_part-carriable nil h = cc

  convert_part-uncarriable :
      (p : Part)
      → carriable p ≡ false
      → (e : GoError) × (convert_part sdk idx p ≡ err e) × IsRefused e
  unfolding convert_part
  convert_part-uncarriable (tool_call c) h = (
    complain sdk (bad_arguments idx),
    rw (tool_input-uncarriable c.arguments h) refl,
    complain-IsRefused _,
  )
  convert_part-uncarriable nil h = (complain sdk (unrepresentable idx), refl, complain-IsRefused _)
  convert_part-uncarriable (text t) h = cc
  convert_part-uncarriable (image v) h = cc
  convert_part-uncarriable (tool_result r) h = cc

  convert_parts-carriable :
      (ps : List Part)
      → all_carriable ps ≡ true
      → (bs : List BlockParam) × (convert_parts sdk idx ps ≡ ok bs) × (length bs ≡ length ps)
  unfolding convert_parts
  convert_parts-carriable [] h = ([], refl, refl)
  convert_parts-carriable (p ∷ ps) h = elim (Bool-cases (carriable p)) [
    | inl here ↦
        let (b, one) = convert_part-carriable p here in
        let (bs, rest, same) = convert_parts-carriable ps (rw here at h) in
        (b ∷ bs, rw (one, rest) refl, omega (arith, same))
    | inr here ↦ cc (rw here at h)
  ]

  convert_parts-uncarriable :
      (ps : List Part)
      → all_carriable ps ≡ false
      → (e : GoError) × (convert_parts sdk idx ps ≡ err e) × IsRefused e
  unfolding convert_parts
  convert_parts-uncarriable [] h = cc
  convert_parts-uncarriable (p ∷ ps) h = elim (Bool-cases (carriable p)) [
    | inl here ↦
        let (b, one) = convert_part-carriable p here in
        let (e, rest, why) = convert_parts-uncarriable ps (rw here at h) in
        (e, rw (one, rest) refl, why)
    | inr here ↦ let (e, one, why) = convert_part-uncarriable p here in (e, rw one refl, why)
  ]

  with_role-valid :
      (role : Role) (bs : List BlockParam)
      → valid role ≡ true
      → (w : MessageParam) × (with_role sdk idx role bs ≡ ok w)
        × (blocks_of w ≡ bs)
        × (is_assistant w ≡ str_eq role role_assistant)
  unfolding with_role valid
  with_role-valid role bs h = elim (Bool-cases (str_eq role role_assistant)) [
    | inl a ↦ (assistant_message bs, rw a refl, refl, rw a refl)
    | inr a ↦ (user_message bs, rw a (ground arith), refl, rw a refl)
  ]

  with_role-invalid :
      (role : Role) (bs : List BlockParam)
      → valid role ≡ false
      → with_role sdk idx role bs ≡ err (complain sdk (unknown_role idx))
  unfolding with_role valid
  with_role-invalid role bs h = ground arith

  -- A message with a known role, none of whose parts is nil or a call whose arguments are no JSON, is
  -- sent with one block for each part, as an assistant's turn exactly if that is its role; any other
  -- message is refused with an error that matches ErrUnsupported and is not retried.
  pub message-convert_message :
      (m : Message)
      → ((valid m.role && all_carriable m.parts) ≡ true
          → (w : MessageParam) × (convert_message sdk idx m ≡ ok w)
            × (length (blocks_of w) ≡ length m.parts)
            × (is_assistant w ≡ str_eq m.role role_assistant))
        × ((valid m.role && all_carriable m.parts) ≡ false
            → (e : GoError) × (convert_message sdk idx m ≡ err e) × IsRefused e)
  unfolding convert_message
  message-convert_message m = (
    λ h. elim (Bool-cases (valid m.role)) [
      | inl v ↦
          let (bs, done, same) = convert_parts-carriable m.parts (rw v at h) in
          let (w, turned, blocks, who) = with_role-valid m.role bs v in
          (w, rw done turned, rw blocks same, who)
      | inr v ↦ cc (rw v at h)
    ],
    λ h. elim (Bool-cases (all_carriable m.parts)) [
      | inr c ↦ let (e, done, why) = convert_parts-uncarriable m.parts c in (e, rw done refl, why)
      | inl c ↦ elim (Bool-cases (valid m.role)) [
        | inl v ↦ cc (rw (v, c) at h)
        | inr v ↦
            let (bs, done, _) = convert_parts-carriable m.parts c in
            (
              complain sdk (unknown_role idx),
              rw done (with_role-invalid m.role bs v),
              complain-IsRefused _,
            )
      ]
    ],
  )
