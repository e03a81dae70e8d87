-- ===== src/Oai/Failures.antt =====
-- The failures of a chat completion over HTTP.
use skyl.Prelude.{ℕ, ◌≤◌, String, ◌≡◌, refl, true, false, [], leb, ◌<>◌, arith}
use skyl.Errors.{
  GoError, Sentinel, is, kind_of, new_error, retryable, as_provider_error, has_certificate,
}
use skyl.Errors.Status.{transient}
use skyl.Errors.RetryAfter.{HeaderLibrary, parse_retry_after}
use skyl.Retry.{should_retry, retry_by_class, retry_after_from}
use skyl.Retry.Decision.{should_retry-classify_status}
use skyl.Json.{Fields, object}
use skyl.Request.{Request}
use skyl.Response.{stop_refusal}
use skyl.Result.{ok, err}
use skyl.Httpx.{Network, HttpReply, replied, read_error_body}
use skyl.Oai.{Library, Config, WireResponse, WireChoice, headers, map_finish_reason}
use skyl.Oai.Build.{build_payload}
use skyl.Oai.Reply.{
  error_message, http_error, read_reply, read_choice, complete_chat, reply_error, parts_from_wire,
}

-- The error of a refusal, by the finish reason that it prints.
abbrev declined : Library → HeaderLibrary → Network → Config → HttpReply → String → GoError
unfolding new_error
declined lib hdr net cfg r reason =
    reply_error lib hdr net cfg r Sentinel.refusal
      ("the model declined the request (" <> (reason <> ")"))

declined_lem :
    (lib : Library) (hdr : HeaderLibrary) (net : Network) (cfg : Config) (r : HttpReply)
    (reason : String)
    → (is (declined lib hdr net cfg r reason) (kind_of Sentinel.refusal) ≡ true)
      × (should_retry (declined lib hdr net cfg r reason) ≡ false)
unfolding declined new_error is should_retry retry_by_class as_provider_error has_certificate
    retryable
declined_lem lib hdr net cfg r reason = (refl, refl)

error_status : (n : ℕ) → 400 ≤ n → leb 300 n ≡ true
error_status n h = ground arith

module _ (lib : Library) (hdr : HeaderLibrary) (net : Network) (cfg : Config) where
  -- Only the retry decision is asked, and it does not read the wait that the server asks for.
  http_error-should_retry :
      (r : HttpReply)
      → 400 ≤ r.status
      → should_retry (http_error lib hdr net cfg r) ≡ transient r.status
  unfolding http_error should_retry retry_by_class as_provider_error retryable new_error is
      has_certificate
  http_error-should_retry r h =
      let body = read_error_body r.body in
      should_retry-classify_status cfg.name r.status (error_message (lib.decode_response body)) body
        h

  -- A reply with an error status (400 or more) is never a response: it is an error that is retried
  -- exactly if the status is 408, 409, 429 or at least 500, and that carries the wait of its
  -- Retry-After header.
  pub complete_chat-status :
      (req : Request) (payload : Fields) (r : HttpReply)
      → build_payload lib cfg req false ≡ ok payload
      → net.post (cfg.base_url <> "/chat/completions") (headers cfg) (object payload) ≡ replied r
      → 400 ≤ r.status
      → (e : GoError) × (complete_chat lib hdr net cfg req ≡ err e)
        × (should_retry e ≡ transient r.status)
        × (retry_after_from e ≡ parse_retry_after hdr r.retry_after)
  unfolding complete_chat read_reply http_error retry_after_from as_provider_error
  complete_chat-status req payload r built sent bad = (
    http_error lib hdr net cfg r,
    rw (built, sent, error_status r.status bad) refl,
    http_error-should_retry r bad,
    refl,
  )

  -- A reply that the model declined and that has no content is never an empty response: it is an
  -- error that matches ErrRefusal.
  pub read_choice-refusal :
      (r : HttpReply) (req : Request) (wire : WireResponse) (choice : WireChoice)
      → map_finish_reason choice.finish_reason ≡ stop_refusal
      → parts_from_wire choice.message ≡ []
      → (e : GoError) × (read_choice lib hdr net cfg r req wire choice ≡ err e)
        × (is e (kind_of Sentinel.refusal) ≡ true)
        × (should_retry e ≡ false)
  unfolding read_choice declined
  read_choice-refusal r req wire choice refused none_left = (
    declined lib hdr net cfg r choice.finish_reason,
    rw (refused, none_left) refl,
    (declined_lem lib hdr net cfg r choice.finish_reason).0,
    (declined_lem lib hdr net cfg r choice.finish_reason).1,
  )
