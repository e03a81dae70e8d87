-- ===== src/Cassette/Scrubbing.antt =====
-- What a recording keeps, and what it has lost.
use skyl.Prelude.{
  String, ◌≡◌, refl, Bool, true, false, not, ◌||◌, List, [], ◌∷◌, any, map, All, some, str_eq,
  Bool-cases, inl, inr, arith,
}
use skyl.Errors.{GoError, is_nil}
use skyl.Result.{Result, ok}
use skyl.Gateway.{Entries}
use skyl.Cassette.{
  Recording, HeaderNames, redacted, noisy_response_headers, delete_where, HttpRequest, HttpResponse,
  RoundTripper, flatten, is_secret, redact, drop_noisy, scrub, replay, store, round_trip,
  header_set,
}

module _ (names : HeaderNames) where
  -- A header of a request with a credential in it has the mark in its place.
  abbrev pub IsRedacted : String × String → Type 0
  IsRedacted h = (not (is_secret names h.0) || str_eq h.1 redacted) ≡ true

  abbrev pub is_noisy : List String → String → Bool
  is_noisy ds name = any (λ d. names.equal_fold name d) ds

  -- A header of a response that is none of these.
  abbrev pub IsQuiet : List String → String × String → Type 0
  IsQuiet ds h = (is_noisy ds h.0 ≡ false)

  pub redact-IsRedacted : (m : Entries String) → All IsRedacted (redact names m)
  unfolding redact
  redact-IsRedacted [] = tt
  redact-IsRedacted ((k, v) ∷ m) = elim (Bool-cases (is_secret names k)) [
    | inl e ↦ rw e (refl, redact-IsRedacted m)
    | inr e ↦ rw e (refl, redact-IsRedacted m)
  ]

  delete_where-All :
      (P : String × String → Type 0) (p : String → Bool) (m : Entries String)
      → All P m
      → All P (delete_where p m)
  unfolding delete_where
  delete_where-All P p [] h = tt
  delete_where-All P p ((k, v) ∷ m) h = elim (Bool-cases (p k)) [
    | inl e ↦ rw e (delete_where-All P p m h.1)
    | inr e ↦ rw e (h.0, delete_where-All P p m h.1)
  ]

  delete_where-none :
      (p : String → Bool) (m : Entries String) → All (λ h. p h.0 ≡ false) (delete_where p m)
  unfolding delete_where
  delete_where-none p [] = tt
  delete_where-none p ((k, v) ∷ m) = elim (Bool-cases (p k)) [
    | inl e ↦ rw e (delete_where-none p m)
    | inr e ↦ rw e (e, delete_where-none p m)
  ]

  -- What was deleted for one name stays deleted.
  drop_noisy-All :
      (P : String × String → Type 0) (ds : List String) (m : Entries String)
      → All P m
      → All P (drop_noisy names ds m)
  unfolding drop_noisy
  drop_noisy-All P [] m h = h
  drop_noisy-All P (d ∷ ds) m h = drop_noisy-All P ds _ (
      delete_where-All P names.is_rate_limit _
        (delete_where-All P (λ name. names.equal_fold name d) m h))

  All-both :
      (P Q R : String × String → Type 0) (m : Entries String)
      → ((h : String × String) → P h → Q h → R h)
      → All P m
      → All Q m
      → All R m
  All-both P Q R [] f a b = tt
  All-both P Q R (h ∷ m) f a b = (f h a.0 b.0, All-both P Q R m f a.1 b.1)

  All-any : (P : String × String → Type 0) (m : Entries String) → ((h : _) → P h) → All P m
  All-any P [] f = tt
  All-any P (h ∷ m) f = (f h, All-any P m f)

  pub drop_noisy-IsQuiet :
      (ds : List String) (m : Entries String) → All (IsQuiet ds) (drop_noisy names ds m)
  unfolding drop_noisy
  drop_noisy-IsQuiet [] m = All-any (IsQuiet []) m (λ h. refl)
  drop_noisy-IsQuiet (d ∷ ds) m =
      let fold = λ (name : String). names.equal_fold name d in
      let left = delete_where names.is_rate_limit (delete_where fold m) in
      All-both (λ h. fold h.0 ≡ false) (IsQuiet ds) (IsQuiet (d ∷ ds)) (drop_noisy names ds left)
        (λ h a b. (ground arith))
        (drop_noisy-All (λ h. fold h.0 ≡ false) ds left
          (delete_where-All (λ h. fold h.0 ≡ false) names.is_rate_limit _
            (delete_where-none fold m)))
        (drop_noisy-IsQuiet ds left)

  -- If recording is on, both bodies are read and the exchange succeeds, then a recording is kept that
  -- replays the status and the body of the response; every header of its request that may hold a
  -- credential has the mark in its place, and none of the noisy headers of the response is left.
  pub scrub-round_trip :
      (next : HttpRequest → Result HttpResponse) (req : HttpRequest) (resp : HttpResponse)
      (t : RoundTripper)
      → t.recording ≡ true
      → req.body_err ≡ GoError.nil
      → next req ≡ ok resp
      → resp.body_err ≡ GoError.nil
      → (r : Recording) × ((round_trip names next req t).1.rec ≡ some r)
        × All IsRedacted r.request_headers
        × All (IsQuiet noisy_response_headers) r.response_headers
        × (replay names (some r)
            ≡ ok (record {
              status = resp.status;
              headers = map (header_set names) r.response_headers;
              body = resp.body;
              body_err = GoError.nil;
            }))
  unfolding round_trip store scrub replay is_nil
  scrub-round_trip next req resp t on read same whole =
      let kept : Recording = scrub names (record {
        method = req.method;
        url = req.url;
        request_headers = flatten req.headers;
        request_body = req.body;
        status = resp.status;
        response_headers = flatten resp.headers;
        response_body = resp.body;
      }) in
      (
        kept,
        rw (same, on, read, whole) refl,
        redact-IsRedacted (flatten req.headers),
        drop_noisy-IsQuiet noisy_response_headers (flatten resp.headers),
        refl,
      )
