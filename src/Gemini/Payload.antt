-- ===== src/Gemini/Payload.antt =====
-- provider/gemini/gemini.go: `convertMessage` and `buildPayload`, with the JSON of the wire types.
use skyl.Prelude.{
  String, ℕ, suc, not, ◌&&◌, List, [], ◌∷◌, null, Option, none, some, str_eq, is_empty,
  if◌then◌else◌, map, ℤ, pos, ltb, ltb_ℤ, negsuc,
}
use skyl.Json.{
  Json, Fields, no_fields, field, number, string, array, object, set_field, field_count,
}
use skyl.Json.Build.{items, one_field, two_fields, set_if, set_some, option_json}
use skyl.Message.{
  Part, ToolCall, Message, Role, text, image, tool_call, tool_result, nil, role_assistant,
}
use skyl.Request.{
  Request, Tool, ToolChoice, Thinking, ResponseFormat, tool_choice_auto, tool_choice_none,
  tool_choice_required, tool_choice_specific,
}
use skyl.Result.{Result, ok, err, and_then, map_ok}
use skyl.Httpx.{merge}
use skyl.Gemini.{
  Library, WirePart, WireContent, InlineData, FunctionCall, FunctionResponse, no_part, image_by_url,
  unrepresentable, or_no_args, complain,
}

unfoldable pub wire_role : Role → String
wire_role r = if str_eq r role_assistant then "model" else "user"

unfoldable pub call_part : ToolCall → WirePart
unfolding or_no_args
call_part c = record no_part {
  function_call = some (record { name = c.name; args = or_no_args c.arguments });
}

module _ (lib : Library) (idx : ℕ) where
  -- The body of the loop over the parts.
  unfoldable pub convert_part : Part → Result WirePart
  unfolding call_part
  convert_part (text t) = ok (record no_part { text = t })
  convert_part (image v) =
      if not (is_empty v.url) && null v.bytes
      then err (complain lib (image_by_url idx))
      else ok (record no_part {
        inline_data = some (record { mime_type = v.media_type; encoded = lib.base64 v.bytes });
      })
  convert_part (tool_call c) = ok (call_part c)
  convert_part (tool_result r) =
      map_ok
        (λ payload. record no_part {
          function_response = some (record { name = r.call_id; response = payload });
        })
        (lib.marshal (object (one_field "content" (string r.content))))
  convert_part nil = err (complain lib (unrepresentable idx))

  unfoldable pub convert_parts : List Part → Result (List WirePart)
  unfolding convert_part
  convert_parts [] = ok []
  convert_parts (p ∷ ps) =
      and_then (convert_part p) (λ wp. map_ok (λ wps. wp ∷ wps) (convert_parts ps))

  unfoldable pub convert_message : Message → Result WireContent
  unfolding convert_parts wire_role
  convert_message m =
      map_ok (λ parts. record { role = wire_role m.role; parts = parts }) (convert_parts m.parts)

-- The loop over the messages of the request, from message `i`.
unfoldable pub convert_messages : Library → ℕ → List Message → Result (List WireContent)
unfolding convert_message
convert_messages lib i [] = ok []
convert_messages lib i (m ∷ ms) =
    and_then (convert_message lib i m)
      (λ c. map_ok (λ rest. c ∷ rest) (convert_messages lib (suc i) ms))

unfoldable pub thinking_budget : String → Option ℤ
thinking_budget e =
    if str_eq e "low"
    then some (pos 1024)
    else if str_eq e "medium"
    then some (pos 8192)
    else if str_eq e "high"
    then some (pos 16384)
    else if str_eq e "max"
    then some (pos 24576)
    else none

-- -1 leaves the budget to the model, 0 turns reasoning off.
abbrev or_dynamic : Option ℤ → ℤ
or_dynamic none = negsuc 0
or_dynamic (some n) = n

unfoldable pub budget_of : Thinking → ℤ
unfolding thinking_budget
budget_of th = if th.enabled then or_dynamic (thinking_budget th.effort) else pos 0

unfoldable pub declaration_json : Tool → Json
declaration_json t = object (
    set_some "parameters" (option_json object t.parameters) (
      set_if (not (is_empty t.description)) "description" (string t.description)
        (one_field "name" (string t.name))))

-- `fcc`; a mode that the request's validation refuses leaves it empty.
unfoldable pub calling_config : ToolChoice → Fields
calling_config tc =
    if str_eq tc.mode tool_choice_auto
    then one_field "mode" (string "AUTO")
    else if str_eq tc.mode tool_choice_none
    then one_field "mode" (string "NONE")
    else if str_eq tc.mode tool_choice_required
    then one_field "mode" (string "ANY")
    else if str_eq tc.mode tool_choice_specific
    then field "mode" (string "ANY")
        (one_field "allowedFunctionNames" (array (items (string tc.name ∷ []))))
    else no_fields

unfoldable pub set_choice : Option ToolChoice → Fields → Fields
unfolding calling_config
set_choice none fs = fs
set_choice (some tc) fs =
    set_if (ltb 0 (field_count (calling_config tc))) "toolConfig"
      (object (one_field "functionCallingConfig" (object (calling_config tc)))) fs

unfoldable pub set_format : Option ResponseFormat → Fields → Fields
set_format none fs = fs
set_format (some rf) fs =
    set_field "responseSchema" (object rf.schema)
      (set_field "responseMimeType" (string "application/json") fs)

abbrev option_part {ℓ} : {A : Type ℓ} → String → (A → Json) → Option A → Fields → Fields
option_part k f v fs = set_some k (option_json f v) fs

module _ (lib : Library) where
  unfoldable pub data_json : InlineData → Json
  data_json d = two_fields "mimeType" (string d.mime_type) "data" (string d.encoded)

  unfoldable pub call_json : FunctionCall → Json
  call_json c = two_fields "name" (string c.name) "args" (lib.value c.args)

  unfoldable pub answer_json : FunctionResponse → Json
  answer_json r = two_fields "name" (string r.name) "response" (lib.value r.response)

  unfoldable pub part_json : WirePart → Json
  unfolding data_json call_json answer_json
  part_json wp = object (
      option_part "functionResponse" answer_json wp.function_response (
        option_part "functionCall" call_json wp.function_call (
          option_part "inlineData" data_json wp.inline_data
            (set_if (not (is_empty wp.text)) "text" (string wp.text) no_fields))))

  unfoldable pub content_json : WireContent → Json
  unfolding part_json
  content_json c = object (
      set_field "parts" (array (items (map part_json c.parts)))
        (set_if (not (is_empty c.role)) "role" (string c.role) no_fields))

  -- `generationConfig`
  unfoldable pub generation_fields : Request → Fields
  unfolding budget_of set_format
  generation_fields req =
      let capped =
        set_if (ltb_ℤ (pos 0) req.max_tokens) "maxOutputTokens"
          (number (lib.decimal req.max_tokens)) no_fields in
      let warm = option_part "temperature" number req.temperature capped in
      let sampled = option_part "topP" number req.top_p warm in
      let stopping =
        set_if (not (null req.stop)) "stopSequences" (array (items (map string req.stop)))
          sampled in
      let thinking =
        option_part "thinkingConfig"
          (λ th. object (one_field "thinkingBudget" (number (lib.decimal (budget_of th)))))
          req.thinking stopping in
      set_format req.response_format thinking

  -- The fields for a list of contents, before the caller's options are laid over them.
  unfoldable pub payload_fields : Request → List WireContent → Fields
  unfolding content_json generation_fields declaration_json set_choice
  payload_fields req contents =
      let base = one_field "contents" (array (items (map content_json contents))) in
      let instructed =
        set_if (not (is_empty req.system)) "systemInstruction"
          (content_json (record { role = ""; parts = record no_part { text = req.system } ∷ [] }))
          base in
      let gen = generation_fields req in
      let tuned = set_if (ltb 0 (field_count gen)) "generationConfig" (object gen) instructed in
      let tooled =
        set_if (not (null req.tools)) "tools"
          (array (
            items (
              object
                (one_field "functionDeclarations" (array (items (map declaration_json req.tools))))
              ∷ [])))
          tuned in
      set_choice req.tool_choice tooled

  unfoldable pub build_payload : Request → Result Fields
  unfolding payload_fields convert_messages
  build_payload req =
      map_ok (λ contents. merge (payload_fields req contents) req.provider_options)
        (convert_messages lib 0 req.messages)
