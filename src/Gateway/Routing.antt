-- ===== src/Gateway/Routing.antt =====
-- gateway/server.go: `ServeHTTP`, that is, the middleware, the routes and the handlers behind them.
-- A handler is a function from a request to what is sent and logged for it.
pub mod Table
pub mod Guarded
pub mod Logging
pub mod Tests
use skyl.Prelude.{
  ℕ, String, Bool, true, false, not, ◌&&◌, ◌||◌, List, [], ◌∷◌, ◌++◌, null, any, Option, none, some,
  str_eq, is_empty, if◌then◌else◌, ltb,
}
use skyl.Errors.{GoError}
use skyl.Request.{Request}
use skyl.Response.{Response, ModelInfo}
use skyl.Result.{Result, ok, err}
use skyl.Stream.{StreamOps}
use skyl.Gateway.{Entries, Server, Built, authenticate, handle_ready, upstream_status, error_kind}
use skyl.Gateway.Wire.{Base64}
use skyl.Gateway.Requests.{ChatRequest}
use skyl.Gateway.Chat.{
  Answer, Decoded, answered, ready, failure, upstream_failure, chat, listing, decode_chat,
  handle_chat, handle_models,
}
use skyl.Gateway.Streaming.{Payload, Writer}

-- The routes that are registered.
pub data Endpoint : Type 0 where
  healthz readyz metrics providers_route models_route chat_route chat_stream_route : Endpoint

pub record Route : Type 0 where
  pub method : String
  pub path : String
  pub endpoint : Endpoint

-- What the handlers read of a request: its method, path, headers and query, the JSON decoder's
-- value of its body, whether its writer can flush, and the values of its context.
pub record Incoming : Type 0 where
  pub method : String
  pub path : String
  pub authorization : String
  pub origin : String
  pub provider : String
  pub body : Option ChatRequest
  pub can_flush : Bool
  pub request_id : String
  pub tenant : String

pub data Body : Type 0 where
  no_body : Body
  status_body : String → Body
  page : String → Body
  providers_body : List String → String → Body
  answer_body : Answer → Body
  frames_body : Option (List Payload) → Body

pub record LogLine : Type 0 where
  pub method : String
  pub path : String
  pub status : ℕ
  pub request_id : String
  pub tenant : String

-- What is logged: a request, or the failure of a provider by its kind, the status and the error.
pub data LogEntry : Type 0 where
  request_line : LogLine → LogEntry
  upstream_warning : String → ℕ → GoError → LogEntry

pub record Outgoing : Type 0 where
  pub status : ℕ
  pub headers : Entries String
  pub body : Body
  pub logs : List LogEntry

abbrev pub Handler : Type 0
Handler = Incoming → Outgoing

-- What github.com/go-chi/chi does: the route that a method and a path match, its answer where none
-- does, the identifier of a request, and the limit on requests at one time.
pub record Chi : Type 0 where
  pub find : List Route → String → String → Option Endpoint
  pub missing : Handler
  pub new_id : Incoming → String
  pub throttle : ℕ → Handler → Handler

-- The fields of `Config` that the routes depend on; `metrics_page` is what `MetricsHandler` answers.
pub record Exposure : Type 0 where
  pub max_concurrent : ℕ
  pub allowed_origins : List String
  pub metrics_page : Option String
  pub include_raw : Bool

-- The methods of a client, under the timeout of the server, and the loop of a stream.
pub record Upstream (C S : Type 0) : Type 0 where
  pub complete : C → Request → Result Response
  pub models : C → Result (List ModelInfo)
  pub stream : C → Request → Result S
  pub stream_ops : StreamOps S
  pub writer : Writer
  pub fuel : ℕ

abbrev pub set_header : String → String → Outgoing → Outgoing
set_header k v o = record o { headers = (k, v) ∷ o.headers }

-- `writeJSON`
unfoldable pub write_json : ℕ → Body → Outgoing
write_json status body = record {
  status = status;
  headers = ("Content-Type", "application/json") ∷ [];
  body = body;
  logs = [];
}

-- `writeError`, by the kind of the error.
unfoldable pub write_error : ℕ → String → Outgoing
unfolding write_json
write_error status kind = write_json status (answer_body (failure status kind))

-- `writeUpstreamError`
unfoldable pub write_upstream_error : GoError → Outgoing
unfolding write_error upstream_status error_kind
write_upstream_error e = record (write_error (upstream_status e) (error_kind e)) {
  logs = upstream_warning (error_kind e) (upstream_status e) e ∷ [];
}

unfoldable pub write_answer : Answer → Outgoing
unfolding write_json write_error write_upstream_error
write_answer (failure status kind) = write_error status kind
write_answer (upstream_failure e) = write_upstream_error e
write_answer (chat r) = write_json 200 (answer_body (chat r))
write_answer (listing p ms) = write_json 200 (answer_body (listing p ms))

-- `echoRequestID`
unfoldable pub echo_request_id : Handler → Handler
echo_request_id next r =
    if is_empty r.request_id then next r else set_header "X-Request-Id" r.request_id (next r)

-- What is logged of a request and its answer.
unfoldable pub log_line : Incoming → Outgoing → LogLine
log_line r o = record {
  method = r.method;
  path = r.path;
  status = o.status;
  request_id = r.request_id;
  tenant = r.tenant;
}

-- `logRequests`: one line for a request, behind its handler.
unfoldable pub log_requests : Handler → Handler
unfolding log_line
log_requests next r =
    let o = next r in record o { logs = o.logs ++ (request_line (log_line r o) ∷ []) }

unfoldable pub allows_origin : List String → String → Bool
allows_origin allowed origin =
    not (is_empty origin) && (any (str_eq origin) allowed || any (str_eq "*") allowed)

unfoldable pub cors_headers : List String → String → Outgoing → Outgoing
unfolding allows_origin
cors_headers allowed origin o =
    if allows_origin allowed origin
    then record o {
      headers =
          ("Access-Control-Allow-Origin", origin)
          ∷ ("Vary", "Origin")
          ∷ ("Access-Control-Allow-Headers", "Authorization, Content-Type")
          ∷ ("Access-Control-Allow-Methods", "GET, POST, OPTIONS")
          ∷ o.headers;
    }
    else o

-- `cors`: a preflight is answered here.
unfoldable pub cors : List String → Handler → Handler
unfolding cors_headers
cors allowed next r = cors_headers allowed r.origin (
    if str_eq r.method "OPTIONS"
    then record { status = 204; headers = []; body = no_body; logs = [] }
    else next r)
