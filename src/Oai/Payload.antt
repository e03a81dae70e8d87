-- ===== src/Oai/Payload.antt =====
-- internal/oai/oai.go: `convertMessage` and `buildPayload`.
use skyl.Prelude.{
  String, ℕ, suc, Bool, true, false, not, ◌&&◌, ◌||◌, List, [], ◌∷◌, ◌++◌, null, none, str_eq,
  is_empty, ◌<>◌, if◌then◌else◌,
}
use skyl.Json.{Json, string, array, object}
use skyl.Json.Build.{items, one_field, two_fields}
use skyl.Message.{
  Part, Image, ToolCall, ToolResult, Message, Role, text, image, tool_call, tool_result, nil,
  role_user, role_assistant, role_tool,
}
use skyl.Result.{Result, ok, err, and_then, map_ok}
use skyl.Oai.{
  Library, Config, WireMessage, WireToolCall, not_a_result, image_misplaced, call_misplaced,
  unrepresentable, unknown_role, or_no_arguments, complain,
}

-- A message whose other fields are left at their zero values.
abbrev pub wire_message : Role → Json → List WireToolCall → WireMessage
wire_message role content calls = record {
  role = role;
  content = content;
  tool_calls = calls;
  tool_call_id = "";
}

-- A failed result is marked in the text, since the format has no field for it.
unfoldable pub result_message : ToolResult → WireMessage
result_message r = record {
  role = "tool";
  content =
      string (if r.is_error && not (is_empty r.content) then "error: " <> r.content else r.content);
  tool_calls = [];
  tool_call_id = r.call_id;
}

-- The local variables of the loop over the parts of a user or assistant message.
pub record Draft : Type 0 where
  pub blocks : List Json
  pub text_only : String
  pub tool_calls : List WireToolCall
  pub multipart : Bool

abbrev pub no_draft : Draft
no_draft = record { blocks = []; text_only = ""; tool_calls = []; multipart = false }

unfoldable pub wire_call : ToolCall → WireToolCall
unfolding or_no_arguments
wire_call c = record {
  id = c.id;
  kind = "function";
  index = none;
  name = c.name;
  arguments = or_no_arguments c.arguments;
}

-- The switch behind the loop, over what the loop collected.
unfoldable pub draft_content : Draft → Json
draft_content d =
    if d.multipart
    then array (items d.blocks)
    else if not (is_empty d.text_only)
    then string d.text_only
    else if not (null d.tool_calls)
    then Json.null
    else string ""

unfoldable pub finish_draft : Role → Draft → List WireMessage
unfolding draft_content
finish_draft role d = wire_message role (draft_content d) d.tool_calls ∷ []

module _ (lib : Library) (cfg : Config) (idx : ℕ) where
  unfoldable pub convert_results : List Part → Result (List WireMessage)
  unfolding result_message
  convert_results [] = ok []
  convert_results (tool_result r ∷ ps) = map_ok (λ out. result_message r ∷ out) (convert_results ps)
  convert_results (_ ∷ ps) = err (complain lib cfg (not_a_result idx))

  unfoldable pub image_url : Image → String
  image_url v =
      if is_empty v.url
      then "data:" <> (v.media_type <> (";base64," <> lib.base64 v.bytes))
      else v.url

  -- The body of the loop over the parts.
  unfoldable pub convert_part : Role → Part → Draft → Result Draft
  unfolding wire_call image_url
  convert_part role (text t) d = ok (record d {
    text_only = d.text_only <> t;
    blocks = d.blocks ++ (two_fields "type" (string "text") "text" (string t) ∷ []);
  })
  convert_part role (image v) d =
      if not (str_eq role role_user)
      then err (complain lib cfg (image_misplaced idx))
      else ok (record d {
        multipart = true;
        blocks =
            d.blocks
            ++ (two_fields "type" (string "image_url") "image_url"
                  (object (one_field "url" (string (image_url v))))
                ∷ []);
      })
  convert_part role (tool_call c) d =
      if not (str_eq role role_assistant)
      then err (complain lib cfg (call_misplaced idx))
      else ok (record d { tool_calls = d.tool_calls ++ (wire_call c ∷ []) })
  convert_part role (tool_result r) d = err (complain lib cfg (unrepresentable idx))
  convert_part role nil d = err (complain lib cfg (unrepresentable idx))

  unfoldable pub convert_parts : Role → List Part → Draft → Result Draft
  convert_parts role [] d = ok d
  convert_parts role (p ∷ ps) d = and_then (convert_part role p d) (convert_parts role ps)

  unfoldable pub convert_message : Message → Result (List WireMessage)
  unfolding finish_draft
  convert_message m =
      if str_eq m.role role_tool
      then convert_results m.parts
      else if str_eq m.role role_user || str_eq m.role role_assistant
      then map_ok (finish_draft m.role) (convert_parts m.role m.parts no_draft)
      else err (complain lib cfg (unknown_role idx))

-- The loop over the messages of the request, from message `i`.
unfoldable pub convert_messages : Library → Config → ℕ → List Message → Result (List WireMessage)
convert_messages lib cfg i [] = ok []
convert_messages lib cfg i (m ∷ ms) =
    and_then (convert_message lib cfg i m)
      (λ converted. map_ok (λ rest. converted ++ rest) (convert_messages lib cfg (suc i) ms))
