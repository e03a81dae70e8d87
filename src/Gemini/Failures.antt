-- ===== src/Gemini/Failures.antt =====
-- The failures of the Gemini adapter over HTTP.
use skyl.Prelude.{
  ℕ, ◌≤◌, ◌≡◌, refl, Bool, true, false, not, [], Option, none, some, String, is_empty, leb, arith,
  Bool-cases, inl, inr,
}
use skyl.Errors.{
  GoError, Sentinel, is, kind_of, new_error, retryable, as_provider_error, has_certificate,
}
use skyl.Errors.Status.{transient}
use skyl.Errors.RetryAfter.{HeaderLibrary, parse_retry_after}
use skyl.Retry.{should_retry, retry_by_class, retry_after_from}
use skyl.Retry.Decision.{should_retry-classify_status}
use skyl.Json.{Fields, object}
use skyl.Request.{Request}
use skyl.Result.{ok, err}
use skyl.Httpx.{Network, HttpReply, replied, read_error_body}
use skyl.Gemini.{Library, Provider, WireResponse, provider_name, headers}
use skyl.Gemini.Payload.{build_payload}
use skyl.Gemini.Reply.{
  error_message, http_error, read_reply, read_response, read_candidates, no_candidates,
  complete_generate, generate_url,
}

-- A block reason is given.
abbrev pub blocked : Option String → Bool
blocked none = false
blocked (some reason) = not (is_empty reason)

no_candidates_lem :
    (r : HttpReply) (reason : Option String)
    → (is (no_candidates r reason) (kind_of Sentinel.refusal) ≡ blocked reason)
      × (is (no_candidates r reason) (kind_of Sentinel.server) ≡ not (blocked reason))
      × (should_retry (no_candidates r reason) ≡ not (blocked reason))
unfolding no_candidates new_error is should_retry retry_by_class as_provider_error has_certificate
    retryable
no_candidates_lem r none = (refl, refl, refl)
no_candidates_lem r (some reason) = elim (Bool-cases (is_empty reason)) [
  | inl e ↦ rw e (refl, refl, refl)
  | inr e ↦ rw e (refl, refl, refl)
]

error_status : (n : ℕ) → 400 ≤ n → leb 300 n ≡ true
error_status n h = ground arith

module _ (lib : Library) (hdr : HeaderLibrary) where
  -- A reply without candidates is never a response. It is a refusal exactly if the prompt was blocked,
  -- and then it is not retried; without a block it is a failure of the server, which is retried.
  pub read_response-blocked :
      (req : Request) (r : HttpReply) (wire : WireResponse)
      → lib.decode_response r.body ≡ some wire
      → wire.error ≡ none
      → wire.candidates ≡ []
      → (e : GoError) × (read_response lib hdr req r ≡ err e)
        × (is e (kind_of Sentinel.refusal) ≡ blocked wire.block_reason)
        × (is e (kind_of Sentinel.server) ≡ not (blocked wire.block_reason))
        × (should_retry e ≡ not (blocked wire.block_reason))
  unfolding read_response read_candidates
  read_response-blocked req r wire decoded sound empty = (
    no_candidates r wire.block_reason,
    rw (decoded, read_response) (rw (sound, empty) refl),
    (no_candidates_lem r wire.block_reason).0,
    (no_candidates_lem r wire.block_reason).1,
    (no_candidates_lem r wire.block_reason).2,
  )

  -- Only the retry decision is asked, and it does not read the wait that the server asks for.
  http_error-should_retry :
      (r : HttpReply) → 400 ≤ r.status → should_retry (http_error lib hdr r) ≡ transient r.status
  unfolding http_error should_retry retry_by_class as_provider_error retryable new_error is
      has_certificate
  http_error-should_retry r h =
      let body = read_error_body r.body in
      should_retry-classify_status provider_name r.status (error_message (lib.decode_response body))
        body h

  -- A reply with an error status (400 or more) is never a response: it is an error that is retried
  -- exactly if the status is 408, 409, 429 or at least 500, and that carries the wait of its
  -- Retry-After header.
  pub complete_generate-status :
      (net : Network) (p : Provider) (req : Request) (payload : Fields) (r : HttpReply)
      → build_payload lib req ≡ ok payload
      → net.post (generate_url lib hdr p req) (headers p) (object payload) ≡ replied r
      → 400 ≤ r.status
      → (e : GoError) × (complete_generate lib hdr net p req ≡ err e)
        × (should_retry e ≡ transient r.status)
        × (retry_after_from e ≡ parse_retry_after hdr r.retry_after)
  unfolding complete_generate read_reply http_error retry_after_from as_provider_error
  complete_generate-status net p req payload r built sent bad = (
    http_error lib hdr r,
    rw (built, sent, error_status r.status bad) refl,
    http_error-should_retry r bad,
    refl,
  )
