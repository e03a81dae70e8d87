-- ===== src/Cassette/Tests.antt =====
-- A recording of a small exchange, and the witness of its property.
use skyl.Prelude.{◌≡◌, refl, true, [], ◌∷◌, map, All, none, some, str_eq}
use skyl.Errors.{GoError, is_nil}
use skyl.Result.{ok}
use skyl.Cassette.{
  Recording, HeaderNames, noisy_response_headers, HttpRequest, HttpResponse, RoundTripper,
  round_trip, replay, header_set,
}
use skyl.Cassette.Scrubbing.{IsRedacted, IsQuiet, scrub-round_trip}

abbrev header_names : HeaderNames
header_names = record {
  canonical = λ n. n;
  equal_fold = λ m n. str_eq m n;
  is_rate_limit = λ n. str_eq n "ratelimit-left";
}

abbrev asking : HttpRequest
asking = record {
  method = "POST";
  url = "https://host.example/v1";
  headers = ("Authorization", "Bearer k" ∷ []) ∷ ("Accept", "text/plain" ∷ []) ∷ [];
  body = "{}";
  body_err = GoError.nil;
}

abbrev answer : HttpResponse
answer = record {
  status = 200;
  headers = ("date", "today" ∷ []) ∷ ("ratelimit-left", "9" ∷ []) ∷ ("etag", "x" ∷ []) ∷ [];
  body = "ok";
  body_err = GoError.nil;
}

abbrev recorder : RoundTripper
recorder = record { rec = none; recording = true }

headers_kept :
    (r : Recording) × ((round_trip header_names (λ q. ok answer) asking recorder).1.rec ≡ some r)
    × (r.request_headers ≡ ("Authorization", "REDACTED") ∷ ("Accept", "text/plain") ∷ [])
    × (r.response_headers ≡ ("etag", "x") ∷ [])
unfolding round_trip is_nil
headers_kept = (_, refl, refl, refl)

scrub-round_trip_example :
    (r : Recording) × ((round_trip header_names (λ q. ok answer) asking recorder).1.rec ≡ some r)
    × All (IsRedacted header_names) r.request_headers
    × All (IsQuiet header_names noisy_response_headers) r.response_headers
    × (replay header_names (some r)
        ≡ ok (record {
          status = 200;
          headers = map (header_set header_names) r.response_headers;
          body = "ok";
          body_err = GoError.nil;
        }))
scrub-round_trip_example =
    scrub-round_trip header_names (λ q. ok answer) asking answer recorder refl refl refl refl
