-- ===== src/Otel.antt =====
-- otel/otel.go: what the instrumentation records of the events that a client delivers.
pub mod Privacy
pub mod Accounts
pub mod Tests
use skyl.Prelude.{
  ℕ, String, Bool, true, false, not, ◌||◌, List, [], ◌∷◌, ◌++◌, Option, none, some, str_eq,
  is_empty, ◌<>◌, if◌then◌else◌, ltb, ℤ, pos, ltb_ℤ,
}
use skyl.Errors.{GoError, Sentinel, is, is_nil, kind_of, context_canceled, context_deadline}
use skyl.Request.{Request, Float}
use skyl.Response.{Usage}
use skyl.Client.{HookEvent, op_complete, op_stream, op_stream_end, op_models}

-- The values of attributes.
pub data Value : Type 0 where
  text : String → Value
  texts : List String → Value
  whole : ℤ → Value
  float : Float → Value

abbrev pub Attribute : Type 0
Attribute = String × Value

-- What the third-party library is asked to record: a duration, a number of tokens, and a span with its
-- name, its length, its attributes and the error that its status prints, if it has one.
pub data Recording : Type 0 where
  duration : ℤ → List Attribute → Recording
  tokens : ℤ → List Attribute → Recording
  span : String → ℤ → List Attribute → Option GoError → Recording

-- `instrumentation`: which of its parts there are.
pub record Instrumentation : Type 0 where
  pub has_tokens : Bool
  pub has_duration : Bool
  pub record_spans : Bool

unfoldable pub operation_name : String → String
operation_name op =
    if str_eq op op_complete || str_eq op op_stream || str_eq op op_stream_end
    then "chat"
    else if str_eq op op_models
    then "list_models"
    else op

unfoldable pub error_type : GoError → String
error_type e =
    if is e (kind_of Sentinel.auth)
    then "auth"
    else if is e (kind_of Sentinel.rate_limit)
    then "rate_limit"
    else if is e (kind_of Sentinel.not_found)
    then "not_found"
    else if is e (kind_of Sentinel.bad_request)
    then "bad_request"
    else if is e (kind_of Sentinel.server)
    then "server"
    else if is e (kind_of Sentinel.unsupported)
    then "unsupported"
    else if is e (kind_of Sentinel.refusal)
    then "refusal"
    else if is e context_canceled
    then "canceled"
    else if is e context_deadline
    then "timeout"
    else "unknown"

abbrev attribute_if : Bool → String → Value → List Attribute
attribute_if true key v = (key, v) ∷ []
attribute_if false key v = []

abbrev option_attribute : String → Option Float → List Attribute
option_attribute key none = []
option_attribute key (some x) = (key, float x) ∷ []

unfoldable pub base_attributes : HookEvent → List Attribute
base_attributes ev =
    (("gen_ai.operation.name", text (operation_name ev.operation))
      ∷ ("gen_ai.provider.name", text ev.provider)
      ∷ [])
    ++ attribute_if (not (is_empty ev.model)) "gen_ai.request.model" (text ev.model)
    ++ attribute_if (not (is_empty ev.response_model)) "gen_ai.response.model"
        (text ev.response_model)
    ++ attribute_if (not (is_nil ev.err)) "error.type" (text (error_type ev.err))

-- The shape of the request, never its content.
unfoldable pub request_attributes : Option Request → List Attribute
request_attributes none = []
request_attributes (some req) =
    attribute_if (ltb_ℤ (pos 0) req.max_tokens) "gen_ai.request.max_tokens" (whole req.max_tokens)
    ++ option_attribute "gen_ai.request.temperature" req.temperature
    ++ option_attribute "gen_ai.request.top_p" req.top_p

unfoldable pub span_name : HookEvent → String
span_name ev =
    let op = operation_name ev.operation in
    if is_empty ev.model then op else op <> (" " <> ev.model)

-- One half of `recordTokens`: zero is "not reported".
unfoldable pub token_recording : ℤ → String → List Attribute → List Recording
token_recording n direction base =
    if ltb_ℤ (pos 0) n
    then tokens n (base ++ (("gen_ai.token.type", text direction) ∷ [])) ∷ []
    else []

unfoldable pub record_tokens : Instrumentation → HookEvent → List Attribute → List Recording
record_tokens i ev base =
    if i.has_tokens
    then token_recording ev.usage.input_tokens "input" base
      ++ token_recording ev.usage.output_tokens "output" base
    else []

unfoldable pub span_attributes : HookEvent → List Attribute → List Attribute
span_attributes ev base =
    base
    ++ request_attributes ev.request
    ++ attribute_if (not (is_empty ev.response_id)) "gen_ai.response.id" (text ev.response_id)
    ++ attribute_if (not (is_empty ev.stop_reason)) "gen_ai.response.finish_reasons"
        (texts (ev.stop_reason ∷ []))
    ++ attribute_if (ltb_ℤ (pos 0) ev.usage.input_tokens) "gen_ai.usage.input_tokens"
        (whole ev.usage.input_tokens)
    ++ attribute_if (ltb_ℤ (pos 0) ev.usage.output_tokens) "gen_ai.usage.output_tokens"
        (whole ev.usage.output_tokens)

-- The span ends now and starts the event's duration before.
unfoldable pub record_span : HookEvent → List Attribute → Recording
record_span ev base =
    span (span_name ev) ev.duration (span_attributes ev base)
      (if is_nil ev.err then none else some ev.err)

-- `record` behind its test.
unfoldable pub record_parts : Instrumentation → HookEvent → List Attribute → List Recording
record_parts i ev attrs =
    (if i.has_duration then duration ev.duration attrs ∷ [] else [])
    ++ record_tokens i ev attrs
    ++ (if i.record_spans then record_span ev attrs ∷ [] else [])

-- `record`
unfoldable pub record_event : Instrumentation → HookEvent → List Recording
record_event i ev =
    if str_eq ev.operation op_stream then [] else record_parts i ev (base_attributes ev)

-- `WithoutSpans`
unfoldable pub without_spans : Instrumentation → Instrumentation
without_spans i = record i { record_spans = false }

-- The hook on the events that a client delivers to it.
unfoldable pub record_events : Instrumentation → List HookEvent → List Recording
record_events i [] = []
record_events i (ev ∷ evs) = record_event i ev ++ record_events i evs
