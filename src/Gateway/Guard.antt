-- ===== src/Gateway/Guard.antt =====
-- What stands between a body and a provider.
use skyl.Prelude.{String, ◌≡◌, ap, ◌∙◌, sym, Bool, true, false, none, some, Option-cases, inl, inr}
use skyl.Request.{Request, validate}
use skyl.Gateway.{Server, resolve}
use skyl.Gateway.Wire.{Base64, Converted, accepted, rejected}
use skyl.Gateway.Requests.{ChatRequest, to_skyl_request}
use skyl.Gateway.Chat.{
  Decoded, answered, ready, check_request, check_body, check_provider, decode_chat,
}

abbrev is_ready : {C : Type 0} → Decoded C → Bool
is_ready (answered a) = false
is_ready (ready req c) = true

abbrev asked : {C : Type 0} → Request → Decoded C → Request
asked req (answered a) = req
asked req (ready r c) = r

abbrev served_by : {C : Type 0} → C → Decoded C → C
served_by c (answered a) = c
served_by c (ready r d) = d

clash : false ≡ true → ⊥
clash e = absurd (cc e)

module _ {C : Type 0} (base64 : Base64) (s : Server C) where
  check_request-ready :
      (c d : C) (r req : Request)
      → check_request base64 s c r (validate (some r)) ≡ ready req d
      → (validate (some req) ≡ none) × (r ≡ req) × (c ≡ d)
  unfolding check_request
  check_request-ready c d r req h = elim (Option-cases (validate (some r))) [
    | inr (e, bad) ↦ absurd (clash (ap is_ready (rw (bad, check_request) at h)))
    | inl good ↦
        let same = rw (good, check_request) at h in
        (
          ap (λ x. validate (some x)) (sym (ap (asked r) same)) ∙ good,
          ap (asked r) same,
          ap (served_by c) same,
        )
  ]

  check_body-ready :
      (c d : C) (x : Converted Request) (req : Request)
      → check_body base64 s c x ≡ ready req d
      → (validate (some req) ≡ none) × (x ≡ accepted req) × (c ≡ d)
  unfolding check_body
  check_body-ready c d (rejected e) req h = absurd (clash (ap is_ready h))
  check_body-ready c d (accepted r) req h =
      let (valid, same, client) = check_request-ready c d r req h in
      (valid, ap accepted same, client)

  -- A client is asked only with a request that the validation accepts and that the conversion has
  -- made of the body, and only if it is the client that the body's provider resolves to.
  pub decode_chat-ready :
      (body : ChatRequest) (req : Request) (c : C)
      → decode_chat base64 s (some body) ≡ ready req c
      → (validate (some req) ≡ none)
        × (to_skyl_request base64 body ≡ accepted req)
        × ((name : String) × (resolve s body.provider ≡ some (c, name)))
  unfolding decode_chat check_provider
  decode_chat-ready body req c h = elim (Option-cases (resolve s body.provider)) [
    | inl e ↦ absurd (clash (ap is_ready (rw (e, check_provider) at h)))
    | inr (found, e) ↦
        let (valid, made, client) =
          check_body-ready found.0 c (to_skyl_request base64 body) req
            (rw (e, check_provider) at h) in
        (valid, made, (found.1, e ∙ ap (λ x. some (x, found.1)) client))
  ]
