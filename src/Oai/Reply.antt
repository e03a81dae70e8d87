-- ===== src/Oai/Reply.antt =====
-- internal/oai/oai.go: `httpError`, and what `Complete` and `Models` make of a response.
use skyl.Prelude.{
  pos, String, false, not, ◌&&◌, List, [], ◌∷◌, null, Option, none, some, str_eq, is_empty, ◌<>◌,
  if◌then◌else◌, leb,
}
use skyl.Errors.{GoError, Sentinel, sentinel, as_go_error, is_nil, new_error, classify_status}
use skyl.Errors.RetryAfter.{HeaderLibrary, parse_retry_after}
use skyl.Json.{object}
use skyl.Message.{Part, RawMessage, text, tool_call, role_assistant}
use skyl.Request.{Request}
use skyl.Response.{Response, ModelInfo, Usage, stop_refusal}
use skyl.Result.{Result, ok, err, and_then}
use skyl.Httpx.{Network, Exchange, HttpReply, unsent, replied, read_error_body}
use skyl.Oai.{
  Library, Config, WireResponse, WireChoice, WireMessage, WireModel, WireToolCall, WireUsage,
  headers, map_finish_reason, text_from_content, tool_call_from_wire, transport_error,
}
use skyl.Oai.Build.{build_payload}

unfoldable pub usage_from_wire : WireUsage → Usage
usage_from_wire u = record {
  input_tokens = u.prompt_tokens;
  output_tokens = u.completion_tokens;
  cache_read_tokens = u.cached_tokens;
  cache_write_tokens = pos 0;
}

unfoldable pub call_parts_from_wire : List WireToolCall → List Part
unfolding tool_call_from_wire
call_parts_from_wire [] = []
call_parts_from_wire (c ∷ cs) = tool_call (tool_call_from_wire c) ∷ call_parts_from_wire cs

unfoldable pub parts_from_wire : WireMessage → List Part
unfolding text_from_content call_parts_from_wire
parts_from_wire m =
    let t = text_from_content m.content in
    let calls = call_parts_from_wire m.tool_calls in if is_empty t then calls else text t ∷ calls

-- The message of the error in a body, if the body can be decoded and has one.
unfoldable pub error_message : Option WireResponse → String
error_message none = ""
error_message (some wire) = elim wire.error [ none ↦ "" | some msg ↦ msg ]

module _ (lib : Library) (hdr : HeaderLibrary) (net : Network) (cfg : Config) where
  unfoldable pub http_error : HttpReply → GoError
  unfolding error_message
  http_error r =
      let body = read_error_body r.body in
      as_go_error
        (record (new_error cfg.name r.status (classify_status r.status)
          (error_message (lib.decode_response body)) body) {
            retry_after = parse_retry_after hdr r.retry_after;
          })

  -- `skyl.NewError(c.cfg.Name, status, kind, message, raw)`
  abbrev pub reply_error : HttpReply → Sentinel → String → GoError
  reply_error r kind message =
      as_go_error (new_error cfg.name r.status (sentinel kind) message r.body)

  -- The body of a response, after the checks on the exchange, the status and the reading.
  unfoldable pub read_reply : {A : Type 0} → Exchange → (HttpReply → Result A) → Result A
  unfolding http_error
  read_reply (unsent e) rest = err (transport_error lib cfg e)
  read_reply (replied r) rest =
      if leb 300 r.status
      then err (http_error r)
      else if not (is_nil r.read_err)
      then err (transport_error lib cfg r.read_err)
      else rest r

  unfoldable pub read_choice : HttpReply → Request → WireResponse → WireChoice → Result Response
  unfolding usage_from_wire
  read_choice r req wire choice =
      let parts = parts_from_wire choice.message in
      let reason = map_finish_reason choice.finish_reason in
      if str_eq reason stop_refusal && null parts
      then err (
          reply_error r Sentinel.refusal
            ("the model declined the request (" <> (choice.finish_reason <> ")")))
      else ok (record {
        id = wire.id;
        provider = cfg.name;
        model = if is_empty wire.model then req.model else wire.model;
        message = record { role = role_assistant; parts = parts };
        stop_reason = reason;
        usage = usage_from_wire wire.usage;
        raw = lib.raw r.body;
      })

  unfoldable pub read_choices :
      HttpReply → Request → WireResponse → List WireChoice → Result Response
  unfolding read_choice
  read_choices r req wire [] = err (reply_error r Sentinel.server "response contained no choices")
  read_choices r req wire (choice ∷ more) = read_choice r req wire choice

  unfoldable pub read_response : Request → HttpReply → Result Response
  unfolding read_choices
  read_response req r = elim (lib.decode_response r.body) [
    | none ↦ err (reply_error r Sentinel.server "malformed response body")
    | some wire ↦ elim wire.error [
      | some msg ↦ err (reply_error r Sentinel.server msg)
      | none ↦ read_choices r req wire wire.choices
    ]
  ]

  unfoldable pub complete_chat : Request → Result Response
  unfolding build_payload read_response
  complete_chat req = and_then (build_payload lib cfg req false) (λ payload.
      read_reply (net.post (cfg.base_url <> "/chat/completions") (headers cfg) (object payload))
        (read_response req))

  -- The body of the loop over the entries: an entry that cannot be read or has no id is left out.
  unfoldable pub read_model : RawMessage → Option WireModel → List ModelInfo → List ModelInfo
  read_model entry none out = out
  read_model entry (some m) out =
      if is_empty m.id
      then out
      else record {
        id = m.id;
        provider = cfg.name;
        display_name = m.name;
        context_window = m.context_length;
        max_output_tokens = pos 0;
        raw = entry;
      }
        ∷ out

  unfoldable pub read_models : List RawMessage → List ModelInfo
  unfolding read_model
  read_models [] = []
  read_models (entry ∷ entries) = read_model entry (lib.decode_model entry) (read_models entries)

  unfoldable pub list_models : Result (List ModelInfo)
  unfolding read_models
  list_models = read_reply (net.get (cfg.base_url <> "/models") (headers cfg)) (λ r.
      elim (lib.decode_models r.body) [
        | none ↦ err (reply_error r Sentinel.server "malformed models response")
        | some entries ↦ ok (read_models entries)
      ])
