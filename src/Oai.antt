-- ===== src/Oai.antt =====
-- internal/oai/oai.go: the configuration, the wire types and the small mappings of the client for the
-- chat-completions format.
pub mod Payload
pub mod Build
pub mod Reply
pub mod Decoder
pub mod Loop
pub mod Opening
pub mod Fuel
pub mod Finish
pub mod Frames
pub mod Transcript
pub mod Reach
pub mod Signals
pub mod Fragments
pub mod Assembly
pub mod Ledgers
pub mod Replies
pub mod Conversion
pub mod Failures
pub mod Tests
use skyl.Prelude.{
  ℕ, String, Bool, true, false, List, [], ◌∷◌, Option, none, some, str_eq, is_empty, ◌||◌,
  if◌then◌else◌, ◌<>◌, Bytes, ℤ, not,
}
use skyl.Errors.{GoError, Error, as_go_error, with_cause, unsupportedf}
use skyl.Json.{Json, Items, Fields, item, no_items, object, string, null, array, get_field}
use skyl.Message.{RawMessage, ToolCall}
use skyl.Response.{
  StopReason, stop_end_turn, stop_max_tokens, stop_tool_use, stop_refusal, stop_unknown,
}
use skyl.Httpx.{Headers, set_header}

pub record Config : Type 0 where
  pub name : String
  pub base_url : String
  pub api_key : String
  pub extra_headers : Headers
  pub max_tokens_field : String

-- `New`, with `strings.TrimRight(url, "/")` as a parameter; the HTTP client is the network of a call.
unfoldable pub new_config : (String → String) → Config → Config
new_config trim_slashes cfg = record cfg {
  base_url = trim_slashes cfg.base_url;
  max_tokens_field = if is_empty cfg.max_tokens_field then "max_tokens" else cfg.max_tokens_field;
}

unfoldable pub headers : Config → Headers
headers cfg =
    if is_empty cfg.api_key
    then cfg.extra_headers
    else set_header "Authorization" ("Bearer " <> cfg.api_key) cfg.extra_headers

-- `wireToolCall`, with the fields of its `function` beside the others.
pub record WireToolCall : Type 0 where
  pub id : String
  pub kind : String
  pub index : Option ℤ
  pub name : String
  pub arguments : String

-- The content is nil (`null`), a text or a list of blocks.
pub record WireMessage : Type 0 where
  pub role : String
  pub content : Json
  pub tool_calls : List WireToolCall
  pub tool_call_id : String

pub record WireChoice : Type 0 where
  pub message : WireMessage
  pub delta : WireMessage
  pub finish_reason : String

pub record WireUsage : Type 0 where
  pub prompt_tokens : ℤ
  pub completion_tokens : ℤ
  pub cached_tokens : ℤ

-- `wireResponse`; of its error, the message is read.
pub record WireResponse : Type 0 where
  pub id : String
  pub model : String
  pub choices : List WireChoice
  pub usage : WireUsage
  pub error : Option String

-- An entry of the list of models.
pub record WireModel : Type 0 where
  pub id : String
  pub name : String
  pub context_length : ℤ

-- What `convertMessage` reports of a message, with its number.
pub data Complaint : Type 0 where
  not_a_result image_misplaced call_misplaced unrepresentable unknown_role : ℕ → Complaint

-- What the code takes from Go's library: decoding of JSON into the wire types, bytes kept as raw
-- JSON, base64, `fmt.Sprintf` of a complaint, `Error()` of an error, and the decimal text of a
-- number.
pub record Library : Type 0 where
  pub decode_response : Bytes → Option WireResponse
  pub decode_models : Bytes → Option (List RawMessage)
  pub decode_model : RawMessage → Option WireModel
  pub raw : Bytes → RawMessage
  pub base64 : Bytes → String
  pub print : Complaint → String
  pub error_text : GoError → String
  pub decimal : ℤ → String

unfoldable pub map_finish_reason : String → StopReason
map_finish_reason s =
    if str_eq s "stop" || str_eq s "end_turn"
    then stop_end_turn
    else if str_eq s "length" || str_eq s "max_tokens"
    then stop_max_tokens
    else if str_eq s "tool_calls" || str_eq s "function_call"
    then stop_tool_use
    else if str_eq s "content_filter" || str_eq s "refusal"
    then stop_refusal
    else stop_unknown

-- `if t, ok := block["type"].(string); ok && t != "text"`
unfoldable pub other_kind : Option Json → Bool
other_kind (some (string t)) = not (str_eq t "text")
other_kind _ = false

unfoldable pub text_field : Option Json → String
text_field (some (string t)) = t
text_field _ = ""

unfoldable pub block_text : Json → String
unfolding other_kind text_field
block_text (object block) =
    if other_kind (get_field "type" block) then "" else text_field (get_field "text" block)
block_text _ = ""

-- The loop over the blocks of a content.
unfoldable pub blocks_text : Items → String
unfolding block_text
blocks_text no_items = ""
blocks_text (item block rest) = block_text block <> blocks_text rest

unfoldable pub text_from_content : Json → String
unfolding blocks_text
text_from_content (string t) = t
text_from_content (array blocks) = blocks_text blocks
text_from_content _ = ""

-- `if len(args) == 0 { args = "{}" }`
unfoldable pub or_no_arguments : String → RawMessage
or_no_arguments args = if is_empty args then "{}" else args

unfoldable pub tool_call_from_wire : WireToolCall → ToolCall
unfolding or_no_arguments
tool_call_from_wire w = record { id = w.id; name = w.name; arguments = or_no_arguments w.arguments }

module _ (lib : Library) (cfg : Config) where
  -- A failure that gave no response, and a response that broke off: the cause is kept.
  unfoldable pub transport_error : GoError → GoError
  transport_error e = as_go_error (
      with_cause
        (record {
          provider_name = cfg.name;
          status_code = 0;
          message = lib.error_text e;
          kind = GoError.nil;
          retry_after = ℤ.pos 0;
          body = [];
          cause = GoError.nil;
        })
        e)

  unfoldable pub complain : Complaint → GoError
  complain c = unsupportedf cfg.name (lib.print c)
