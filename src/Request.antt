-- ===== src/Request.antt =====
-- request.go: the request, and its validation.
pub mod Validation
pub mod Tests
use skyl.Prelude.{
  ℕ, suc, ◌+◌, String, ◌≡◌, Bool, true, false, List, [], ◌∷◌, ltb, if◌then◌else◌, is_empty, ◌&&◌,
  ◌||◌, not, null, Option, none, some, ℤ, pos, ltb_ℤ, str_eq, ◌==◌,
}
use skyl.Json.{Fields, field_count}
use skyl.Message.{
  Part, Image, ToolCall, ToolResult, Message, text, image, tool_call, tool_result, nil, valid,
}

pub record Tool : Type 0 where
  pub name : String
  pub description : String
  pub parameters : Option Fields

abbrev pub ToolChoiceMode : Type 0
ToolChoiceMode = String

abbrev pub tool_choice_auto : ToolChoiceMode
tool_choice_auto = "auto"

abbrev pub tool_choice_none : ToolChoiceMode
tool_choice_none = "none"

abbrev pub tool_choice_required : ToolChoiceMode
tool_choice_required = "required"

abbrev pub tool_choice_specific : ToolChoiceMode
tool_choice_specific = "tool"

pub record ToolChoice : Type 0 where
  pub mode : ToolChoiceMode
  pub name : String

pub record Thinking : Type 0 where
  pub enabled : Bool
  pub effort : String

pub record ResponseFormat : Type 0 where
  pub schema : Fields
  pub name : String

-- A float is passed on and never computed with: it is kept as its JSON text.
abbrev pub Float : Type 0
Float = String

pub record Request : Type 0 where
  pub model : String
  pub system : String
  pub messages : List Message
  pub max_tokens : ℤ
  pub temperature : Option Float
  pub top_p : Option Float
  pub stop : List String
  pub tools : List Tool
  pub tool_choice : Option ToolChoice
  pub thinking : Option Thinking
  pub response_format : Option ResponseFormat
  pub provider_options : Fields

-- The errors of `Validate`, each with the numbers that its message prints; all wrap ErrBadRequest.
pub data Invalid : Type 0 where
  nil_request model_missing no_messages negative_max_tokens : Invalid
  invalid_role no_parts : ℕ → Invalid
  image_empty image_untyped tool_call_unnamed result_unlinked nil_part : ℕ → ℕ → Invalid
  tool_unnamed : ℕ → Invalid
  choice_unnamed unknown_choice schema_missing : Invalid

-- The result of a check: `none` is the nil error.
abbrev pub Check : Type 0
Check = Option Invalid

-- `if err := c; err != nil { return err }` in front of the rest.
infixr 20 ◌then_check◌
abbrev pub ◌then_check◌ : Check → Check → Check
none then_check rest = rest
some e then_check rest = some e

abbrev pub fail_if : Bool → Invalid → Check
fail_if true e = some e
fail_if false e = none

unfoldable pub validate_part : ℕ → ℕ → Part → Check
validate_part i j (text t) = none
validate_part i j (image v) =
    fail_if (null v.bytes && is_empty v.url) (image_empty i j)
    then_check fail_if (not (null v.bytes) && is_empty v.media_type) (image_untyped i j)
validate_part i j (tool_call v) = fail_if (is_empty v.id || is_empty v.name) (tool_call_unnamed i j)
validate_part i j (tool_result v) = fail_if (is_empty v.call_id) (result_unlinked i j)
validate_part i j nil = some (nil_part i j)

unfoldable pub validate_parts : ℕ → ℕ → List Part → Check
validate_parts i j [] = none
validate_parts i j (p ∷ ps) = validate_part i j p then_check validate_parts i (suc j) ps

unfoldable pub validate_messages : ℕ → List Message → Check
validate_messages i [] = none
validate_messages i (m ∷ ms) =
    fail_if (not (valid m.role)) (invalid_role i)
    then_check fail_if (null m.parts) (no_parts i)
    then_check validate_parts i 0 m.parts
    then_check validate_messages (suc i) ms

unfoldable pub validate_tools : ℕ → List Tool → Check
validate_tools i [] = none
validate_tools i (t ∷ ts) =
    fail_if (is_empty t.name) (tool_unnamed i) then_check validate_tools (suc i) ts

unfoldable pub validate_choice : Option ToolChoice → Check
validate_choice none = none
validate_choice (some c) =
    if str_eq c.mode tool_choice_auto
      || str_eq c.mode tool_choice_none
      || str_eq c.mode tool_choice_required
    then none
    else if str_eq c.mode tool_choice_specific
    then fail_if (is_empty c.name) choice_unnamed
    else some unknown_choice

unfoldable pub validate_format : Option ResponseFormat → Check
validate_format none = none
validate_format (some f) = fail_if (field_count f.schema == 0) schema_missing

-- `Validate`; `none` as its argument is the nil request.
unfoldable pub validate : Option Request → Check
validate none = some nil_request
validate (some r) =
    fail_if (is_empty r.model) model_missing
    then_check fail_if (null r.messages) no_messages
    then_check fail_if (ltb_ℤ r.max_tokens (pos 0)) negative_max_tokens
    then_check validate_messages 0 r.messages
    then_check validate_tools 0 r.tools
    then_check validate_choice r.tool_choice
    then_check validate_format r.response_format
