-- ===== src/Anthropic/Payload.antt =====
-- provider/anthropic/anthropic.go: `providerOptions`, `convertMessage` and `buildParams`.
use skyl.Prelude.{
  String, ℕ, suc, Bool, not, ◌&&◌, ◌||◌, List, [], ◌∷◌, null, Option, none, some, str_eq, is_empty,
  if◌then◌else◌, map, pos, ltb_ℤ, sort_strings,
}
use skyl.Json.{
  Json, Items, Fields, no_items, item, no_fields, field, string, array, object, get_field,
}
use skyl.Message.{
  Part, Message, Role, RawMessage, text, image, tool_call, tool_result, nil, role_user,
  role_assistant, role_tool,
}
use skyl.Request.{
  Request, Tool, ToolChoice, Thinking, ResponseFormat, tool_choice_auto, tool_choice_none,
  tool_choice_required, tool_choice_specific,
}
use skyl.Result.{Result, ok, err, and_then, map_ok}
use skyl.Anthropic.{
  Sdk, BlockParam, MessageParam, InputSchema, ToolParam, ChoiceParam, ThinkingParam, Params,
  RequestOption, text_block, image_url, image_base64, tool_use_block, tool_result_block,
  assistant_message, user_message, of_auto, of_none, of_any, of_tool, of_adaptive, of_disabled,
  bad_arguments, unrepresentable, unknown_role, default_max_tokens, complain,
}

unfoldable pub keys_of : Fields → List String
keys_of no_fields = []
keys_of (field k v fs) = k ∷ keys_of fs

-- `opts[k]`, which is nil for a key that is not there.
abbrev pub value_at : Option Json → Json
value_at none = Json.null
value_at (some v) = v

unfoldable pub provider_options : Fields → List RequestOption
unfolding keys_of
provider_options opts = map (λ k. (k, value_at (get_field k opts))) (sort_strings (keys_of opts))

-- The keys that the SDK's schema models; "type" it always sets itself.
abbrev pub modelled_key : String → Bool
modelled_key k = str_eq k "properties" || str_eq k "required" || str_eq k "type"

unfoldable pub extra_schema_fields : Fields → Fields
extra_schema_fields no_fields = no_fields
extra_schema_fields (field k v fs) =
    if modelled_key k then extra_schema_fields fs else field k v (extra_schema_fields fs)

-- The body of the loop over a list: what is no text is left out.
abbrev add_name : Json → List String → List String
add_name (string s) out = s ∷ out
add_name _ out = out

unfoldable pub string_items : Items → List String
string_items no_items = []
string_items (item v vs) = add_name v (string_items vs)

unfoldable pub required_names : Json → List String
unfolding string_items
required_names (array names) = string_items names
required_names _ = []

-- `if props, ok := t.Parameters["properties"]; ok && props != nil`
unfoldable pub properties_of : Option Json → Json
properties_of none = object no_fields
properties_of (some Json.null) = object no_fields
properties_of (some props) = props

unfoldable pub schema_of : Option Fields → InputSchema
unfolding properties_of required_names extra_schema_fields
schema_of none = record { properties = object no_fields; required = []; extra_fields = no_fields }
schema_of (some params) = record {
  properties = properties_of (get_field "properties" params);
  required = required_names (value_at (get_field "required" params));
  extra_fields = extra_schema_fields params;
}

unfoldable pub tool_param : Tool → ToolParam
unfolding schema_of
tool_param t = record {
  name = t.name;
  input_schema = schema_of t.parameters;
  description = if is_empty t.description then none else some t.description;
}

-- No value for a mode that the request's validation refuses.
unfoldable pub choice_param : Option ToolChoice → Option ChoiceParam
choice_param none = none
choice_param (some tc) =
    if str_eq tc.mode tool_choice_auto
    then some of_auto
    else if str_eq tc.mode tool_choice_none
    then some of_none
    else if str_eq tc.mode tool_choice_required
    then some of_any
    else if str_eq tc.mode tool_choice_specific
    then some (of_tool tc.name)
    else none

unfoldable pub thinking_param : Option Thinking → Option ThinkingParam
thinking_param none = none
thinking_param (some th) = some (if th.enabled then of_adaptive else of_disabled)

-- The effort stands beside the format; the empty text leaves it unset.
unfoldable pub effort_param : Option Thinking → String
effort_param none = ""
effort_param (some th) = if th.enabled then th.effort else ""

abbrev format_param : Option ResponseFormat → Option Fields
format_param none = none
format_param (some rf) = some rf.schema

module _ {E : Type 0} (sdk : Sdk E) (idx : ℕ) where
  unfoldable pub tool_input : RawMessage → Result Json
  tool_input args = if is_empty args then ok (object no_fields) else elim (sdk.unmarshal args) [
    | none ↦ err (complain sdk (bad_arguments idx))
    | some v ↦ ok v
  ]

  -- The body of the loop over the parts.
  unfoldable pub convert_part : Part → Result BlockParam
  unfolding tool_input
  convert_part (text t) = ok (text_block t)
  convert_part (image v) = ok (
      if not (is_empty v.url) && null v.bytes
      then image_url v.url
      else image_base64 v.media_type (sdk.base64 v.bytes))
  convert_part (tool_call c) =
      map_ok (λ input. tool_use_block c.id input c.name) (tool_input c.arguments)
  convert_part (tool_result r) = ok (tool_result_block r.call_id r.content r.is_error)
  convert_part nil = err (complain sdk (unrepresentable idx))

  unfoldable pub convert_parts : List Part → Result (List BlockParam)
  unfolding convert_part
  convert_parts [] = ok []
  convert_parts (p ∷ ps) = and_then (convert_part p) (λ b. map_ok (λ bs. b ∷ bs) (convert_parts ps))

  -- The switch over the role.
  unfoldable pub with_role : Role → List BlockParam → Result MessageParam
  with_role role blocks =
      if str_eq role role_assistant
      then ok (assistant_message blocks)
      else if str_eq role role_user || str_eq role role_tool
      then ok (user_message blocks)
      else err (complain sdk (unknown_role idx))

  unfoldable pub convert_message : Message → Result MessageParam
  unfolding convert_parts with_role
  convert_message m = and_then (convert_parts m.parts) (with_role m.role)

module _ {E : Type 0} (sdk : Sdk E) where
  -- The loop over the messages of the request, from message `i`.
  unfoldable pub convert_messages : ℕ → List Message → Result (List MessageParam)
  unfolding convert_message
  convert_messages i [] = ok []
  convert_messages i (m ∷ ms) =
      and_then (convert_message sdk i m)
        (λ c. map_ok (λ rest. c ∷ rest) (convert_messages (suc i) ms))

  unfoldable pub params_of : Request → List MessageParam → Params
  unfolding tool_param choice_param thinking_param effort_param
  params_of req msgs = record {
    model = req.model;
    max_tokens = if ltb_ℤ (pos 0) req.max_tokens then req.max_tokens else default_max_tokens;
    system = if is_empty req.system then [] else req.system ∷ [];
    temperature = req.temperature;
    top_p = req.top_p;
    stop_sequences = req.stop;
    messages = msgs;
    tools = map tool_param req.tools;
    tool_choice = choice_param req.tool_choice;
    thinking = thinking_param req.thinking;
    effort = effort_param req.thinking;
    format = format_param req.response_format;
  }

  unfoldable pub build_params : Request → Result Params
  unfolding convert_messages params_of
  build_params req = map_ok (params_of req) (convert_messages 0 req.messages)
