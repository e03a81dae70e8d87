-- ===== src/Gemini/Reply.antt =====
-- provider/gemini/gemini.go: `httpError`, and what `Complete` makes of a response.
use skyl.Prelude.{
  pos, String, not, List, [], ◌∷◌, Option, none, some, is_empty, ◌<>◌, if◌then◌else◌, leb,
}
use skyl.Errors.{GoError, Sentinel, sentinel, as_go_error, is_nil, new_error, classify_status}
use skyl.Errors.RetryAfter.{HeaderLibrary, parse_retry_after}
use skyl.Json.{object}
use skyl.Message.{role_assistant}
use skyl.Request.{Request}
use skyl.Response.{Response, Usage}
use skyl.Result.{Result, ok, err, and_then}
use skyl.Httpx.{Network, Exchange, HttpReply, unsent, replied, read_error_body}
use skyl.Gemini.{
  Library, Provider, WireResponse, WireUsage, Candidate, provider_name, headers, map_finish_reason,
  parts_from_candidate, transport_error,
}
use skyl.Gemini.Payload.{build_payload}

unfoldable pub usage_from_wire : WireUsage → Usage
usage_from_wire u = record {
  input_tokens = u.prompt_tokens;
  output_tokens = u.candidates_tokens;
  cache_read_tokens = u.cached_tokens;
  cache_write_tokens = pos 0;
}

-- The message of the error in a body, if the body can be decoded and has one.
unfoldable pub error_message : Option WireResponse → String
error_message none = ""
error_message (some wire) = elim wire.error [ none ↦ "" | some msg ↦ msg ]

-- `skyl.NewError(providerName, status, kind, message, raw)`
abbrev pub reply_error : HttpReply → Sentinel → String → GoError
reply_error r kind message =
    as_go_error (new_error provider_name r.status (sentinel kind) message r.body)

-- A prompt that is blocked before generation has no candidates.
unfoldable pub no_candidates : HttpReply → Option String → GoError
no_candidates r none = reply_error r Sentinel.server "response contained no candidates"
no_candidates r (some reason) =
    if is_empty reason
    then reply_error r Sentinel.server "response contained no candidates"
    else reply_error r Sentinel.refusal ("prompt blocked: " <> reason)

module _ (lib : Library) (hdr : HeaderLibrary) where
  unfoldable pub http_error : HttpReply → GoError
  unfolding error_message
  http_error r =
      let body = read_error_body r.body in
      as_go_error
        (record (new_error provider_name r.status (classify_status r.status)
          (error_message (lib.decode_response body)) body) {
            retry_after = parse_retry_after hdr r.retry_after;
          })

  -- The body of a response, after the checks on the exchange, the status and the reading.
  unfoldable pub read_reply : {A : Type 0} → Exchange → (HttpReply → Result A) → Result A
  unfolding http_error
  read_reply (unsent e) rest = err (transport_error lib e)
  read_reply (replied r) rest =
      if leb 300 r.status
      then err (http_error r)
      else if not (is_nil r.read_err)
      then err (transport_error lib r.read_err)
      else rest r

  unfoldable pub read_candidate : Request → HttpReply → WireResponse → Candidate → Response
  unfolding usage_from_wire
  read_candidate req r wire cand =
      let (parts, has_calls) = parts_from_candidate cand.content in
      record {
        id = wire.response_id;
        provider = provider_name;
        model = if is_empty wire.model_version then req.model else wire.model_version;
        message = record { role = role_assistant; parts = parts };
        stop_reason = map_finish_reason cand.finish_reason has_calls;
        usage = usage_from_wire wire.usage;
        raw = lib.raw r.body;
      }

  unfoldable pub read_candidates :
      Request → HttpReply → WireResponse → List Candidate → Result Response
  unfolding read_candidate no_candidates
  read_candidates req r wire [] = err (no_candidates r wire.block_reason)
  read_candidates req r wire (cand ∷ more) = ok (read_candidate req r wire cand)

  unfoldable pub read_response : Request → HttpReply → Result Response
  unfolding read_candidates
  read_response req r = elim (lib.decode_response r.body) [
    | none ↦ err (reply_error r Sentinel.server "malformed response body")
    | some wire ↦ elim wire.error [
      | some msg ↦ err (reply_error r Sentinel.server msg)
      | none ↦ read_candidates req r wire wire.candidates
    ]
  ]

  abbrev pub generate_url : Provider → Request → String
  generate_url p req =
      p.base_url <> ("/models/" <> (lib.path_escape req.model <> ":generateContent"))

  unfoldable pub complete_generate : Network → Provider → Request → Result Response
  unfolding build_payload read_response read_reply
  complete_generate net p req = and_then (build_payload lib req) (λ payload.
      read_reply (net.post (generate_url p req) (headers p) (object payload)) (read_response req))
