-- ===== src/Gateway/Routing/Tests.antt =====
-- The routes on small requests, and witnesses of their properties.
use skyl.Prelude.{
  ℕ, ◌≡◌, refl, String, true, false, not, ◌&&◌, ◌||◌, ◌==◌, List, [], ◌∷◌, ◌++◌, Option, some, none,
  str_eq, if◌then◌else◌,
}
use skyl.Result.{ok, err}
use skyl.Errors.{GoError}
use skyl.Gateway.{authenticate}
use skyl.Gateway.Tests.{server, unary}
use skyl.Stream.Tests.{Tape, tape, at_start}
use skyl.Gateway.Streaming.{Writer}
use skyl.Gateway.Routing.{
  request_line, Endpoint, Route, Incoming, Handler, Chi, Exposure, Upstream, no_body,
  echo_request_id, log_requests, cors, cors_headers,
}
use skyl.Gateway.Routing.Table.{open_routes, dispatch, serve_http, with_cors}
use skyl.Gateway.Routing.Guarded.{serve_http-authenticate, asks_guarded, is_preflight}
use skyl.Gateway.Routing.Logging.{line_of, identified, serve_http-log_line}

abbrev find_route : List Route → String → String → Option Endpoint
find_route [] m p = none
find_route (t ∷ ts) m p =
    if str_eq t.path p && (str_eq t.method m || str_eq t.method "*")
    then some t.endpoint
    else find_route ts m p

abbrev not_found : Handler
not_found r = record { status = 404; headers = []; body = no_body; logs = [] }

abbrev router : Chi
router = record {
  find = find_route;
  missing = not_found;
  new_id = λ r. "id-1";
  throttle = λ n next. next;
}

abbrev exposure : Exposure
exposure = record {
  max_concurrent = 8;
  allowed_origins = "https://a.example" ∷ [];
  metrics_page = none;
  include_raw = false;
}

abbrev request : String → String → Incoming
request path authorization = record {
  method = "GET";
  path = path;
  authorization = authorization;
  origin = "";
  provider = "";
  body = none;
  can_flush = true;
  request_id = "";
  tenant = "";
}

abbrev steady : Writer
steady = record { encodes = λ p. true; writes = λ n. true; error_text = λ e. "" }

-- Clients that fail, and clients that have one stream.
abbrev failing : Upstream ℕ Tape
failing = record {
  complete = λ c r. err GoError.canceled;
  models = λ c. err GoError.canceled;
  stream = λ c r. err GoError.canceled;
  stream_ops = tape;
  writer = steady;
  fuel = 9;
}

abbrev streaming : Upstream ℕ Tape
streaming = record failing { stream = λ c r. ok at_start; models = λ c. ok [] }

abbrev stranger : Incoming
stranger = request "/v1/models" "Bearer wrong"

abbrev known : Incoming
known = request "/v1/models" "Bearer new"

-- A known caller is told of the models.
known_status : (serve_http router unary exposure server streaming known).status ≡ 200
unfolding serve_http echo_request_id log_requests with_cors cors cors_headers dispatch open_routes
known_status = refl

serve_http-authenticate_example :
    (serve_http router unary exposure server failing stranger
      ≡ serve_http router unary exposure server streaming stranger)
    × ((not (asks_guarded router unary exposure server stranger)
          || (serve_http router unary exposure server failing stranger).status
            == (if is_preflight router unary exposure server stranger then 204 else 401))
        ≡ true)
unfolding authenticate
serve_http-authenticate_example =
    serve_http-authenticate router unary exposure server failing streaming stranger refl

serve_http-log_line_example :
    (serve_http router unary exposure server streaming known).logs
    ≡ (with_cors router unary exposure server
        (dispatch router unary exposure server streaming)
        (identified router known)).logs
      ++ (request_line
            (line_of router known (serve_http router unary exposure server streaming known).status)
          ∷ [])
serve_http-log_line_example = serve_http-log_line router unary exposure server streaming known
