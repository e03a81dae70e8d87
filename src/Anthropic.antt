-- ===== src/Anthropic.antt =====
-- provider/anthropic/anthropic.go: the adapter for the Anthropic API, and what it takes from the SDK.
pub mod Payload
pub mod Reply
pub mod Decoder
pub mod Replies
pub mod Told
pub mod Failures
pub mod Schemas
pub mod Conversion
pub mod Tests
use skyl.Prelude.{◌++◌, [], ◌∷◌, ℕ, String, List, Option, ℤ, Bool, Bytes}
use skyl.Errors.{GoError, unsupportedf}
use skyl.Json.{Json, Fields}
use skyl.Message.{RawMessage}
use skyl.Request.{Float}
use skyl.Result.{Result}

abbrev pub provider_name : String
provider_name = "anthropic"

abbrev pub default_max_tokens : ℤ
default_max_tokens = ℤ.pos 4096

-- The SDK's types of a request, with the fields that the adapter sets.
pub data BlockParam : Type 0 where
  text_block : String → BlockParam
  image_url : String → BlockParam
  image_base64 : String → String → BlockParam
  tool_use_block : String → Json → String → BlockParam
  tool_result_block : String → String → Bool → BlockParam

pub data MessageParam : Type 0 where
  assistant_message user_message : List BlockParam → MessageParam

pub record InputSchema : Type 0 where
  pub properties : Json
  pub required : List String
  pub extra_fields : Fields

pub record ToolParam : Type 0 where
  pub name : String
  pub input_schema : InputSchema
  pub description : Option String

pub data ChoiceParam : Type 0 where
  of_auto of_none of_any : ChoiceParam
  of_tool : String → ChoiceParam

pub data ThinkingParam : Type 0 where
  of_adaptive of_disabled : ThinkingParam

pub record Params : Type 0 where
  pub model : String
  pub max_tokens : ℤ
  pub system : List String
  pub temperature : Option Float
  pub top_p : Option Float
  pub stop_sequences : List String
  pub messages : List MessageParam
  pub tools : List ToolParam
  pub tool_choice : Option ChoiceParam
  pub thinking : Option ThinkingParam
  pub effort : String
  pub format : Option Fields

-- `option.WithJSONSet(key, value)`
abbrev pub RequestOption : Type 0
RequestOption = String × Json

-- The SDK's types of a response, with the fields that the adapter reads.
pub data Block : Type 0 where
  text_content : String → Block
  tool_use : String → String → RawMessage → Block
  other_content : Block

pub record SdkUsage : Type 0 where
  pub input_tokens : ℤ
  pub output_tokens : ℤ
  pub cache_read_input_tokens : ℤ
  pub cache_creation_input_tokens : ℤ

pub record SdkMessage : Type 0 where
  pub id : String
  pub model : String
  pub content : List Block
  pub stop_reason : String
  pub usage : SdkUsage
  pub raw_json : RawMessage

pub record SdkModel : Type 0 where
  pub id : String
  pub display_name : String
  pub max_input_tokens : ℤ
  pub max_tokens : ℤ
  pub raw_json : RawMessage

-- `*sdk.Error`: its status, its text, and the Retry-After header of its response, if it has one.
pub record ApiError : Type 0 where
  pub status_code : ℕ
  pub message : String
  pub retry_after : Option String

-- What a streamed event says to the adapter.
pub data Delta : Type 0 where
  of_text of_thinking : String → Delta
  of_other : Delta

-- The events that the SDK's stream gives from here on, the error that it has in front of the first, the
-- error with which it ends, and what closing it gives; each error may be nil.
pub record SdkStream (E : Type 0) : Type 0 where
  pub events : List E
  pub open_err : GoError
  pub end_err : GoError
  pub close_err : GoError

-- What `convertMessage` reports of a message, with its number.
pub data Complaint : Type 0 where
  bad_arguments unrepresentable unknown_role : ℕ → Complaint

-- What the adapter calls: the SDK's client, over events `E`, and Go's library.
pub record Sdk (E : Type 0) : Type 0 where
  pub send : Params → List RequestOption → Result SdkMessage
  pub list : List SdkModel × GoError
  pub send_streaming : Params → List RequestOption → SdkStream E
  pub no_message : SdkMessage
  pub accumulate : SdkMessage → E → Result SdkMessage
  pub delta_of : E → Delta
  pub as_api_error : GoError → Option ApiError
  pub error_text : GoError → String
  pub unmarshal : RawMessage → Option Json
  pub base64 : Bytes → String
  pub print : Complaint → String

module _ {E : Type 0} (sdk : Sdk E) where
  unfoldable pub complain : Complaint → GoError
  complain c = unsupportedf provider_name (sdk.print c)

-- The options of the SDK's client that the adapter sets.
pub data SdkOption : Type 0 where
  api_key base_url : String → SdkOption
  max_retries : ℕ → SdkOption
  http_client : SdkOption
  header : String → String → SdkOption

-- `Option`: it puts an option of the SDK behind those that are there.
abbrev pub ProviderOption : Type 0
ProviderOption = List SdkOption → List SdkOption

unfoldable pub with_base_url : String → ProviderOption
with_base_url url o = o ++ (base_url url ∷ [])

unfoldable pub with_http_client : ProviderOption
with_http_client o = o ++ (http_client ∷ [])

unfoldable pub with_header : String → String → ProviderOption
with_header key value o = o ++ (header key value ∷ [])

unfoldable pub apply_options : List ProviderOption → ProviderOption
apply_options [] o = o
apply_options (opt ∷ opts) o = apply_options opts (opt o)

-- `New`: the options with which the SDK's client is made. Its own retries are turned off.
unfoldable pub new_options : String → List ProviderOption → List SdkOption
unfolding apply_options
new_options key opts = apply_options opts (api_key key ∷ max_retries 0 ∷ [])
