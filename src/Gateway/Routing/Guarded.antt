-- ===== src/Gateway/Routing/Guarded.antt =====
-- What a caller without a credential can bring about.
use skyl.Prelude.{
  String, ◌≡◌, refl, ap, sym, ◌∙◌, Bool, true, false, not, ◌&&◌, ◌||◌, ◌==◌, ◌++◌, null, Option,
  none, some, str_eq, is_empty, Bool-cases, Option-cases, inl, inr, arith, if◌then◌else◌,
}
use skyl.Gateway.{Server, authenticate}
use skyl.Gateway.Wire.{Base64}
use skyl.Gateway.Routing.{
  Endpoint, healthz, readyz, metrics, providers_route, models_route, chat_route, chat_stream_route,
  Incoming, Outgoing, Handler, Chi, Exposure, Upstream, set_header, write_error, write_json,
  echo_request_id, log_requests, cors, cors_headers, allows_origin,
}
use skyl.Gateway.Routing.Table.{
  open_routes, guarded_routes, has_page, authenticated, in_group, handle, dispatch, with_cors,
  serve_http,
}

-- The endpoints of the group `/v1`.
abbrev pub is_guarded : Endpoint → Bool
is_guarded healthz = false
is_guarded readyz = false
is_guarded metrics = false
is_guarded e = true

abbrev guarded_option : Option Endpoint → Bool
guarded_option none = false
guarded_option (some e) = is_guarded e

echo_request_id-status :
    (next : Handler) (r : Incoming) → (echo_request_id next r).status ≡ (next r).status
unfolding echo_request_id
echo_request_id-status next r = elim (Bool-cases (is_empty r.request_id)) [
  | inl e ↦ rw e refl
  | inr e ↦ rw e refl
]

cors_headers-status :
    (allowed : _) (origin : String) (o : Outgoing)
    → (cors_headers allowed origin o).status ≡ o.status
unfolding cors_headers
cors_headers-status allowed origin o = elim (Bool-cases (allows_origin allowed origin)) [
  | inl e ↦ rw e refl
  | inr e ↦ rw e refl
]

status_if :
    (b : Bool) (p o : Outgoing) → (if b then p else o).status ≡ (if b then p.status else o.status)
status_if true p o = refl
status_if false p o = refl

module _ {C : Type 0} (chi : Chi) (base64 : Base64) (cfg : Exposure) (s : Server C) where
  -- The router finds a route of the group.
  abbrev pub asks_guarded : Incoming → Bool
  asks_guarded r =
      guarded_option
        (chi.find (open_routes (has_page cfg.metrics_page) ++ guarded_routes) r.method r.path)

  abbrev pub is_preflight : Incoming → Bool
  is_preflight r = not (null cfg.allowed_origins) && str_eq r.method "OPTIONS"

  -- The answer of the group to a caller that it does not know.
  abbrev unauthorized : Outgoing
  unauthorized = set_header "WWW-Authenticate" "Bearer" (write_error 401 "auth")

  in_group-none :
      (next : Handler) (r : Incoming)
      → authenticate s r.authorization ≡ none
      → in_group chi base64 cfg s next r ≡ unauthorized
  unfolding in_group authenticated
  in_group-none next r h = rw (h, authenticated) refl

  -- What the middleware in front of the routes makes of what they send.
  abbrev pub wrapped : Incoming → Outgoing → Outgoing
  unfolding echo_request_id log_requests with_cors cors
  wrapped r o = echo_request_id (log_requests (with_cors chi base64 cfg s (λ q. o))) r

  abbrev pub entered : Incoming → Incoming
  entered r = record r { request_id = chi.new_id r; tenant = "" }

  module _ {S : Type 0} (up : Upstream C S) where
    -- A route that is guarded answers so, and the others do not ask a client.
    handle-guarded :
        (e : Endpoint) (r : Incoming)
        → authenticate s r.authorization ≡ none
        → is_guarded e ≡ true
        → handle chi base64 cfg s up e r ≡ unauthorized
    unfolding handle
    handle-guarded healthz r h g = absurd (cc g)
    handle-guarded readyz r h g = absurd (cc g)
    handle-guarded metrics r h g = absurd (cc g)
    handle-guarded providers_route r h g = in_group-none _ r h
    handle-guarded models_route r h g = in_group-none _ r h
    handle-guarded chat_route r h g = in_group-none _ r h
    handle-guarded chat_stream_route r h g = in_group-none _ r h

    serve_http-wrapped :
        (r : Incoming)
        → serve_http chi base64 cfg s up r
          ≡ wrapped (entered r) (dispatch chi base64 cfg s up (entered r))
    unfolding serve_http echo_request_id log_requests with_cors cors
    serve_http-wrapped r = refl

  with_cors-status :
      (r : Incoming) (o : Outgoing)
      → (with_cors chi base64 cfg s (λ q. o) r).status ≡ (if is_preflight r then 204 else o.status)
  unfolding with_cors cors
  with_cors-status r o = elim (Bool-cases (null cfg.allowed_origins)) [
    | inl e ↦ rw e refl
    | inr e ↦
        rw (e, cors_headers-status cfg.allowed_origins r.origin)
          (status_if (str_eq r.method "OPTIONS") _ o)
  ]

  wrapped-status :
      (r : Incoming) (o : Outgoing)
      → (wrapped r o).status ≡ (if is_preflight r then 204 else o.status)
  unfolding log_requests wrapped echo_request_id
  wrapped-status r o =
      echo_request_id-status (log_requests (with_cors chi base64 cfg s (λ q. o))) r
      ∙ with_cors-status r o

  dispatch-guarded :
      {S : Type 0} (up : Upstream C S) (r : Incoming)
      → authenticate s r.authorization ≡ none
      → asks_guarded r ≡ true
      → dispatch chi base64 cfg s up r ≡ unauthorized
  unfolding dispatch
  dispatch-guarded up r h g =
      elim (Option-cases
        (chi.find (open_routes (has_page cfg.metrics_page) ++ guarded_routes) r.method r.path)) [
          | inl e ↦ absurd (cc (rw e at g))
          | inr (e, found) ↦ rw (found, dispatch) (handle-guarded up e r h (rw found at g))
        ]

  -- Two providers' clients: the routes that are open do not ask them.
  handle-same :
      {S T : Type 0} (up : Upstream C S) (other : Upstream C T) (e : Endpoint) (r : Incoming)
      → authenticate s r.authorization ≡ none
      → handle chi base64 cfg s up e r ≡ handle chi base64 cfg s other e r
  unfolding handle
  handle-same up other healthz r h = refl
  handle-same up other readyz r h = refl
  handle-same up other metrics r h = refl
  handle-same up other providers_route r h = refl
  handle-same up other models_route r h = in_group-none _ r h ∙ sym (in_group-none _ r h)
  handle-same up other chat_route r h = in_group-none _ r h ∙ sym (in_group-none _ r h)
  handle-same up other chat_stream_route r h = in_group-none _ r h ∙ sym (in_group-none _ r h)

  dispatch-same :
      {S T : Type 0} (up : Upstream C S) (other : Upstream C T) (r : Incoming)
      → authenticate s r.authorization ≡ none
      → dispatch chi base64 cfg s up r ≡ dispatch chi base64 cfg s other r
  unfolding dispatch
  dispatch-same up other r h =
      elim (Option-cases
        (chi.find (open_routes (has_page cfg.metrics_page) ++ guarded_routes) r.method r.path)) [
          | inl e ↦ rw (e, dispatch) refl
          | inr (e, found) ↦ rw (found, dispatch) (handle-same up other e r h)
        ]

  serve_http-status :
      {S : Type 0} (up : Upstream C S) (r : Incoming)
      → authenticate s r.authorization ≡ none
      → asks_guarded r ≡ true
      → (serve_http chi base64 cfg s up r).status ≡ (if is_preflight r then 204 else 401)
  unfolding write_error write_json
  serve_http-status up r h g =
      ap (λ o. o.status) (serve_http-wrapped up r)
      ∙ wrapped-status (entered r) (dispatch chi base64 cfg s up (entered r))
      ∙ ap (λ o. if is_preflight r then 204 else o.status) (dispatch-guarded up (entered r) h g)

  -- To a caller without a token that is accepted: what is sent and logged is the same whatever the
  -- clients of the providers would answer, so that nothing of theirs is told; and if the router finds
  -- a route of the group for the request, then the status is 401, or 204 for a preflight.
  pub serve_http-authenticate :
      {S T : Type 0} (up : Upstream C S) (other : Upstream C T) (r : Incoming)
      → authenticate s r.authorization ≡ none
      → (serve_http chi base64 cfg s up r ≡ serve_http chi base64 cfg s other r)
        × ((not (asks_guarded r)
              || (serve_http chi base64 cfg s up r).status == (if is_preflight r then 204 else 401))
            ≡ true)
  serve_http-authenticate up other r h = (
    serve_http-wrapped up r
        ∙ ap (wrapped (entered r)) (dispatch-same up other (entered r) h)
        ∙ sym (serve_http-wrapped other r),
    elim (Bool-cases (asks_guarded r)) [
      | inl g ↦ ground (arith, serve_http-status up r h g)
      | inr g ↦ rw g refl
    ],
  )
