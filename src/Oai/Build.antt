-- ===== src/Oai/Build.antt =====
-- internal/oai/oai.go: the JSON of the wire messages, by their struct tags, and `buildPayload`.
use skyl.Prelude.{
  String, Bool, true, false, not, ◌&&◌, List, [], ◌∷◌, null, Option, none, some, str_eq, is_empty,
  ◌||◌, if◌then◌else◌, pos, ltb_ℤ, map,
}
use skyl.Json.{Json, Fields, no_fields, field, boolean, number, string, array, object}
use skyl.Request.{
  Request, Tool, ToolChoice, Thinking, ResponseFormat, tool_choice_auto, tool_choice_none,
  tool_choice_required, tool_choice_specific,
}
use skyl.Result.{Result, map_ok}
use skyl.Httpx.{merge}
use skyl.Oai.{Library, Config, WireMessage, WireToolCall}
use skyl.Json.Build.{items, one_field, two_fields, set_if, set_some, option_json}
use skyl.Oai.Payload.{wire_message, convert_messages}

-- `omitempty` on an interface drops nil and nothing else.
unfoldable pub is_nil_content : Json → Bool
is_nil_content Json.null = true
is_nil_content _ = false

-- The calls of a request carry no index.
unfoldable pub call_json : WireToolCall → Json
call_json c = object (
    field "id" (string c.id) (
      field "type" (string c.kind) (
        one_field "function" (two_fields "name" (string c.name) "arguments" (string c.arguments)))))

unfoldable pub message_json : WireMessage → Json
unfolding is_nil_content call_json
message_json m = object (
    set_if (not (is_empty m.tool_call_id)) "tool_call_id" (string m.tool_call_id) (
      set_if (not (null m.tool_calls)) "tool_calls" (array (items (map call_json m.tool_calls))) (
        set_if (not (is_nil_content m.content)) "content" m.content
          (one_field "role" (string m.role)))))

unfoldable pub tool_parameters : Option Fields → Json
tool_parameters none = two_fields "type" (string "object") "properties" (object no_fields)
tool_parameters (some fs) = object fs

unfoldable pub tool_json : Tool → Json
unfolding tool_parameters
tool_json t = two_fields "type" (string "function") "function" (
    object (
      field "name" (string t.name) (
        field "description" (string t.description)
          (one_field "parameters" (tool_parameters t.parameters)))))

-- No value for a mode that the request's validation refuses.
unfoldable pub choice_json : ToolChoice → Option Json
choice_json c =
    if str_eq c.mode tool_choice_specific
    then some (
        two_fields "type" (string "function") "function"
          (object (one_field "name" (string c.name))))
    else if str_eq c.mode tool_choice_auto
        || str_eq c.mode tool_choice_none
        || str_eq c.mode tool_choice_required
    then some (string c.mode)
    else none

unfoldable pub effort_json : Option Thinking → Option Json
effort_json none = none
effort_json (some t) = if t.enabled && not (is_empty t.effort) then some (string t.effort) else none

unfoldable pub format_json : ResponseFormat → Json
format_json f = two_fields "type" (string "json_schema") "json_schema" (
    object (
      field "name" (string (if is_empty f.name then "response" else f.name))
        (field "strict" (boolean true) (one_field "schema" (object f.schema)))))

abbrev option_choice : Option ToolChoice → Option Json
unfolding choice_json
option_choice none = none
option_choice (some c) = choice_json c

module _ (lib : Library) (cfg : Config) where
  abbrev pub system_message : String → List WireMessage → List WireMessage
  system_message s msgs = if is_empty s then msgs else wire_message "system" (string s) [] ∷ msgs

  -- The fields for a list of wire messages, before the caller's options are laid over them.
  unfoldable pub payload_fields : Request → Bool → List WireMessage → Fields
  unfolding message_json tool_json choice_json effort_json format_json
  payload_fields req stream msgs =
      let all = array (items (map message_json (system_message req.system msgs))) in
      let base = field "model" (string req.model) (one_field "messages" all) in
      let asked = set_if stream "stream" (boolean true) base in
      let streamed =
        set_if stream "stream_options" (object (one_field "include_usage" (boolean true))) asked in
      let capped =
        set_if (ltb_ℤ (pos 0) req.max_tokens) cfg.max_tokens_field
          (number (lib.decimal req.max_tokens)) streamed in
      let warm = set_some "temperature" (option_json number req.temperature) capped in
      let sampled = set_some "top_p" (option_json number req.top_p) warm in
      let stopping =
        set_if (not (null req.stop)) "stop" (array (items (map string req.stop))) sampled in
      let tooled =
        set_if (not (null req.tools)) "tools" (array (items (map tool_json req.tools))) stopping in
      let choosing = set_some "tool_choice" (option_choice req.tool_choice) tooled in
      let thinking = set_some "reasoning_effort" (effort_json req.thinking) choosing in
      set_some "response_format" (option_json format_json req.response_format) thinking

  unfoldable pub build_payload : Request → Bool → Result Fields
  unfolding payload_fields
  build_payload req stream =
      map_ok (λ msgs. merge (payload_fields req stream msgs) req.provider_options)
        (convert_messages lib cfg 0 req.messages)
