-- ===== src/Gemini.antt =====
-- provider/gemini/gemini.go: the provider, its options, the wire types and the small mappings of the
-- adapter for the Gemini API.
pub mod Payload
pub mod Reply
pub mod Listing
pub mod Decoder
pub mod Opening
pub mod Frames
pub mod Transcript
pub mod Replies
pub mod Reach
pub mod Signals
pub mod Conversion
pub mod Failures
pub mod Pages
pub mod Agreement
pub mod Reasons
pub mod Tests
use skyl.Prelude.{
  ℕ, String, Bool, true, false, List, [], ◌∷◌, Option, none, some, str_eq, is_empty, ◌||◌,
  if◌then◌else◌, Bytes, ℤ,
}
use skyl.Errors.{GoError, as_go_error, with_cause, unsupportedf}
use skyl.Json.{Json}
use skyl.Message.{Part, RawMessage, text, tool_call}
use skyl.Response.{
  StopReason, stop_end_turn, stop_max_tokens, stop_tool_use, stop_refusal, stop_unknown,
}
use skyl.Result.{Result}
use skyl.Httpx.{Headers, set_header}

abbrev pub default_base_url : String
default_base_url = "https://generativelanguage.googleapis.com/v1beta"

abbrev pub provider_name : String
provider_name = "gemini"

-- `Provider`; its HTTP client is the network of a call.
pub record Provider : Type 0 where
  pub api_key : String
  pub base_url : String

abbrev pub ProviderOption : Type 0
ProviderOption = Provider → Provider

-- `strings.TrimRight(u, "/")` is a parameter.
unfoldable pub with_base_url : (String → String) → String → ProviderOption
with_base_url trim_slashes u p = record p { base_url = trim_slashes u }

unfoldable pub apply_options : List ProviderOption → Provider → Provider
apply_options [] p = p
apply_options (o ∷ os) p = apply_options os (o p)

unfoldable pub new_provider : String → List ProviderOption → Provider
unfolding apply_options
new_provider api_key opts =
    apply_options opts (record { api_key = api_key; base_url = default_base_url })

unfoldable pub headers : Provider → Headers
headers p =
    if is_empty p.api_key
    then (λ name. none)
    else set_header "x-goog-api-key" p.api_key (λ name. none)

pub record InlineData : Type 0 where
  pub mime_type : String
  pub encoded : String

pub record FunctionCall : Type 0 where
  pub name : String
  pub args : RawMessage

pub record FunctionResponse : Type 0 where
  pub name : String
  pub response : RawMessage

pub record WirePart : Type 0 where
  pub text : String
  pub inline_data : Option InlineData
  pub function_call : Option FunctionCall
  pub function_response : Option FunctionResponse

abbrev pub no_part : WirePart
no_part = record { text = ""; inline_data = none; function_call = none; function_response = none }

pub record WireContent : Type 0 where
  pub role : String
  pub parts : List WirePart

pub record Candidate : Type 0 where
  pub content : WireContent
  pub finish_reason : String

pub record WireUsage : Type 0 where
  pub prompt_tokens : ℤ
  pub candidates_tokens : ℤ
  pub cached_tokens : ℤ

-- `wireResponse`; of its error, the message is read, and of the feedback, the reason of a block.
pub record WireResponse : Type 0 where
  pub candidates : List Candidate
  pub usage : WireUsage
  pub model_version : String
  pub response_id : String
  pub block_reason : Option String
  pub error : Option String

-- A page of the list of models, and an entry of it.
pub record WirePage : Type 0 where
  pub entries : List RawMessage
  pub next_page_token : String

pub record WireModel : Type 0 where
  pub name : String
  pub display_name : String
  pub input_token_limit : ℤ
  pub output_token_limit : ℤ

-- What `convertMessage` reports of a message, with its number.
pub data Complaint : Type 0 where
  image_by_url unrepresentable : ℕ → Complaint

-- What the code takes from Go's library: decoding of JSON into the wire types, raw JSON from bytes
-- and into a value, encoding of a value, base64, `fmt.Sprintf` of a complaint, `Error()` of an error,
-- the decimal text of a number, and the escaping and trimming of texts.
pub record Library : Type 0 where
  pub decode_response : Bytes → Option WireResponse
  pub decode_page : Bytes → Option WirePage
  pub decode_model : RawMessage → Option WireModel
  pub raw : Bytes → RawMessage
  pub value : RawMessage → Json
  pub marshal : Json → Result RawMessage
  pub base64 : Bytes → String
  pub print : Complaint → String
  pub error_text : GoError → String
  pub decimal : ℤ → String
  pub path_escape : String → String
  pub query_escape : String → String
  pub trim_prefix : String → String → String

unfoldable pub map_finish_reason : String → Bool → StopReason
map_finish_reason s has_calls =
    if has_calls
    then stop_tool_use
    else if str_eq s "STOP"
    then stop_end_turn
    else if str_eq s "MAX_TOKENS"
    then stop_max_tokens
    else if str_eq s "SAFETY"
        || str_eq s "RECITATION"
        || str_eq s "BLOCKLIST"
        || str_eq s "PROHIBITED_CONTENT"
        || str_eq s "SPII"
    then stop_refusal
    else stop_unknown

-- `if len(args) == 0 { args = json.RawMessage("{}") }`
unfoldable pub or_no_args : RawMessage → RawMessage
or_no_args args = if is_empty args then "{}" else args

-- The body of the loop of `partsFromCandidate`: a call in front of a text, and neither is dropped.
unfoldable pub add_part : Option FunctionCall → String → List Part × Bool → List Part × Bool
unfolding or_no_args
add_part (some call) t (parts, has_calls) = (
  tool_call (record { id = call.name; name = call.name; arguments = or_no_args call.args }) ∷ parts,
  true,
)
add_part none t (parts, has_calls) =
    if is_empty t then (parts, has_calls) else (text t ∷ parts, has_calls)

unfoldable pub parts_from : List WirePart → List Part × Bool
unfolding add_part
parts_from [] = ([], false)
parts_from (wp ∷ wps) = add_part wp.function_call wp.text (parts_from wps)

unfoldable pub parts_from_candidate : WireContent → List Part × Bool
unfolding parts_from
parts_from_candidate c = parts_from c.parts

module _ (lib : Library) where
  -- A failure that gave no response, and a response that broke off: the cause is kept.
  unfoldable pub transport_error : GoError → GoError
  transport_error e = as_go_error (
      with_cause
        (record {
          provider_name = provider_name;
          status_code = 0;
          message = lib.error_text e;
          kind = GoError.nil;
          retry_after = ℤ.pos 0;
          body = [];
          cause = GoError.nil;
        })
        e)

  unfoldable pub complain : Complaint → GoError
  complain c = unsupportedf provider_name (lib.print c)
