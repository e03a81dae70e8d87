-- ===== src/Gateway/Routing/Table.antt =====
-- gateway/server.go: `routes` and the handlers, put together by the middleware.
use skyl.Prelude.{
  String, Bool, true, false, List, [], ◌∷◌, ◌++◌, null, Option, none, some, if◌then◌else◌, ltb,
}
use skyl.Result.{Result, ok, err}
use skyl.Gateway.{Server, authenticate, handle_ready}
use skyl.Gateway.Wire.{Base64}
use skyl.Gateway.Chat.{answered, ready, decode_chat, handle_chat, handle_models}
use skyl.Gateway.Streaming.{Payload, handle_stream}
use skyl.Gateway.Routing.{
  Endpoint, healthz, readyz, metrics, providers_route, models_route, chat_route, chat_stream_route,
  Route, status_body, page, providers_body, frames_body, Outgoing, Handler, Chi, Exposure, Upstream,
  set_header, write_json, write_error, write_upstream_error, write_answer, echo_request_id,
  log_requests, cors,
}

-- The routes in front of the group.
unfoldable pub open_routes : Bool → List Route
open_routes with_metrics =
    record { method = "GET"; path = "/healthz"; endpoint = healthz }
    ∷ record { method = "GET"; path = "/readyz"; endpoint = readyz }
    ∷ (if with_metrics
        then record { method = "*"; path = "/metrics"; endpoint = metrics } ∷ []
        else [])

-- The group of `/v1`, behind `authenticate`.
abbrev pub guarded_routes : List Route
guarded_routes =
    record { method = "GET"; path = "/v1/providers"; endpoint = providers_route }
    ∷ record { method = "GET"; path = "/v1/models"; endpoint = models_route }
    ∷ record { method = "POST"; path = "/v1/chat"; endpoint = chat_route }
    ∷ record { method = "POST"; path = "/v1/chat/stream"; endpoint = chat_stream_route }
    ∷ []

abbrev pub has_page : Option String → Bool
has_page none = false
has_page (some p) = true

abbrev pub frames_of : {S : Type 0} → Option (List Payload × S) → Option (List Payload)
frames_of none = none
frames_of (some (frames, t)) = some frames

module _ {C : Type 0} (chi : Chi) (base64 : Base64) (cfg : Exposure) (s : Server C) where
  -- `authenticate`: the caller's label goes into the context of the request that is passed on.
  unfoldable pub authenticated : Handler → Handler
  unfolding authenticate write_error
  authenticated next r = elim (authenticate s r.authorization) [
    | none ↦ set_header "WWW-Authenticate" "Bearer" (write_error 401 "auth")
    | some label ↦ next (record r { tenant = label })
  ]

  -- `handleReady`
  unfoldable pub readiness : Outgoing
  unfolding handle_ready write_json
  readiness = write_json (handle_ready s) (status_body (if s.draining then "draining" else "ready"))

  -- `handleProviders`
  unfoldable pub handle_providers : Outgoing
  unfolding write_json
  handle_providers = write_json 200 (providers_body s.names s.default_name)

  -- The middleware of the group.
  unfoldable pub in_group : Handler → Handler
  unfolding authenticated
  in_group next =
      authenticated
        (if ltb 0 cfg.max_concurrent then chi.throttle cfg.max_concurrent next else next)

  unfoldable pub metrics_answer : Option String → Handler
  metrics_answer none r = chi.missing r
  metrics_answer (some p) r = record { status = 200; headers = []; body = page p; logs = [] }

  unfoldable pub with_cors : Handler → Handler
  unfolding cors
  with_cors next r = if null cfg.allowed_origins then next r else cors cfg.allowed_origins next r

  module _ {S : Type 0} (up : Upstream C S) where
    -- `handleChatStream` behind `client.Stream`.
    unfoldable pub answer_stream : Result S → Outgoing
    unfolding write_upstream_error handle_stream
    answer_stream (err e) = write_upstream_error e
    answer_stream (ok t) = record {
      status = 200;
      headers =
          ("Content-Type", "text/event-stream")
          ∷ ("Cache-Control", "no-cache")
          ∷ ("Connection", "keep-alive")
          ∷ ("X-Accel-Buffering", "no")
          ∷ [];
      body = frames_body (frames_of (handle_stream up.stream_ops up.writer up.fuel t));
      logs = [];
    }

    unfoldable pub handle_chat_stream : Handler
    unfolding decode_chat write_answer write_error answer_stream
    handle_chat_stream r = elim (decode_chat base64 s r.body) [
      | answered a ↦ write_answer a
      | ready req c ↦ if r.can_flush then answer_stream (up.stream c req) else write_error 500 ""
    ]

    -- The handler of a route.
    unfoldable pub handle : Endpoint → Handler
    unfolding write_json readiness metrics_answer in_group handle_providers write_answer
        handle_models handle_chat handle_chat_stream
    handle healthz r = write_json 200 (status_body "ok")
    handle readyz r = readiness
    handle metrics r = metrics_answer cfg.metrics_page r
    handle providers_route r = in_group (λ q. handle_providers) r
    handle models_route r =
        in_group (λ q. write_answer (handle_models base64 s up.models q.provider)) r
    handle chat_route r =
        in_group (λ q. write_answer (handle_chat base64 s up.complete cfg.include_raw q.body)) r
    handle chat_stream_route r = in_group handle_chat_stream r

    unfoldable pub dispatch : Handler
    unfolding handle open_routes
    dispatch r =
        elim (chi.find (open_routes (has_page cfg.metrics_page) ++ guarded_routes) r.method
          r.path) [ none ↦ chi.missing r | some e ↦ handle e r ]

    -- `ServeHTTP`, by the middleware of `routes`, the outermost first.
    unfoldable pub serve_http : Handler
    unfolding echo_request_id log_requests with_cors dispatch
    serve_http r =
        echo_request_id (log_requests (with_cors dispatch))
          (record r { request_id = chi.new_id r; tenant = "" })
