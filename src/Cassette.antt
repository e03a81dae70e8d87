-- ===== src/Cassette.antt =====
-- internal/cassette/cassette.go: the recording of an exchange over HTTP, and its replay.
pub mod Scrubbing
pub mod Tests
use skyl.Prelude.{
  ℕ, String, Bool, true, false, not, ◌&&◌, ◌||◌, List, [], ◌∷◌, map, any, Option, none, some,
  str_eq, if◌then◌else◌,
}
use skyl.Errors.{GoError, is_nil, opaque, wrapped}
use skyl.Result.{Result, ok, err}
use skyl.Gateway.{Entries}

pub record Recording : Type 0 where
  pub method : String
  pub url : String
  pub request_headers : Entries String
  pub request_body : String
  pub status : ℕ
  pub response_headers : Entries String
  pub response_body : String

-- What net/http and strings make of a header's name: its canonical form, equality up to case, and
-- whether it has "ratelimit" in it in lower case.
pub record HeaderNames : Type 0 where
  pub canonical : String → String
  pub equal_fold : String → String → Bool
  pub is_rate_limit : String → Bool

abbrev pub redacted : String
redacted = "REDACTED"

abbrev pub secret_request_headers : List String
secret_request_headers =
    "Authorization" ∷ "X-Api-Key" ∷ "X-Goog-Api-Key" ∷ "Openai-Organization" ∷ "Openai-Project"
    ∷ "Api-Key" ∷ []

abbrev pub noisy_response_headers : List String
noisy_response_headers =
    "request-id" ∷ "x-request-id" ∷ "anthropic-organization-id" ∷ "openai-organization"
    ∷ "set-cookie" ∷ "cf-ray" ∷ "x-served-by" ∷ "date" ∷ "server" ∷ []

-- `delete(m, name)` for the names that pass a test.
unfoldable pub delete_where : (String → Bool) → Entries String → Entries String
delete_where p [] = []
delete_where p ((k, v) ∷ m) = if p k then delete_where p m else (k, v) ∷ delete_where p m

-- A request and a response as net/http has them: a header has several values, and the reading of a
-- body ends with an error or nil.
pub record HttpRequest : Type 0 where
  pub method : String
  pub url : String
  pub headers : Entries (List String)
  pub body : String
  pub body_err : GoError

pub record HttpResponse : Type 0 where
  pub status : ℕ
  pub headers : Entries (List String)
  pub body : String
  pub body_err : GoError

pub record RoundTripper : Type 0 where
  pub rec : Option Recording
  pub recording : Bool

-- `flatten`: the first value of each header.
unfoldable pub flatten : Entries (List String) → Entries String
flatten [] = []
flatten ((k, []) ∷ h) = flatten h
flatten ((k, v ∷ vs) ∷ h) = (k, v) ∷ flatten h

module _ (names : HeaderNames) where
  abbrev pub is_secret : String → Bool
  is_secret name = any (str_eq (names.canonical name)) secret_request_headers

  unfoldable pub redact : Entries String → Entries String
  redact [] = []
  redact ((k, v) ∷ m) = (k, if is_secret k then redacted else v) ∷ redact m

  -- The loop over the noisy headers, with the deletion of the rate limits inside it.
  unfoldable pub drop_noisy : List String → Entries String → Entries String
  unfolding delete_where
  drop_noisy [] h = h
  drop_noisy (d ∷ ds) h =
      drop_noisy ds
        (delete_where names.is_rate_limit (delete_where (λ name. names.equal_fold name d) h))

  unfoldable pub scrub : Recording → Recording
  unfolding redact drop_noisy
  scrub r = record r {
    request_headers = redact r.request_headers;
    response_headers = drop_noisy noisy_response_headers r.response_headers;
  }

  abbrev pub header_set : String × String → String × List String
  header_set (k, v) = (names.canonical k, v ∷ [])

  -- `replay`
  unfoldable pub replay : Option Recording → Result HttpResponse
  replay none = err (opaque "cassette: no recording")
  replay (some r) = ok (record {
    status = r.status;
    headers = map header_set r.response_headers;
    body = r.response_body;
    body_err = GoError.nil;
  })

  -- `record` behind the exchange.
  unfoldable pub store :
      HttpRequest → Result HttpResponse → RoundTripper → Result HttpResponse × RoundTripper
  unfolding scrub flatten
  store req (err e) t = (err e, t)
  store req (ok resp) t =
      if not (is_nil resp.body_err)
      then (err (wrapped "cassette: reading response body: " resp.body_err), t)
      else (
        ok resp,
        record t {
          rec = some (
              scrub (record {
                method = req.method;
                url = req.url;
                request_headers = flatten req.headers;
                request_body = req.body;
                status = resp.status;
                response_headers = flatten resp.headers;
                response_body = resp.body;
              }));
        },
      )

  -- `RoundTrip`, where `next` is the transport that is recorded.
  unfoldable pub round_trip :
      (HttpRequest → Result HttpResponse)
      → HttpRequest
      → RoundTripper
      → Result HttpResponse × RoundTripper
  unfolding replay store
  round_trip next req t =
      if not t.recording
      then (replay t.rec, t)
      else if not (is_nil req.body_err)
      then (err (wrapped "cassette: reading request body: " req.body_err), t)
      else store req (next req) t
