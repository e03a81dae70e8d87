-- ===== src/Request/Tests.antt =====
-- Tests of request.go, and the theorem at a concrete input.
use skyl.Prelude.{◌≡◌, ◌↔◌, refl, [], ◌∷◌, none, some, pos, negsuc}
use skyl.Json.{no_fields}
use skyl.Message.{user_text, valid}
use skyl.Request.{
  Request, validate, validate_messages, validate_parts, validate_part, validate_tools,
  validate_choice, validate_format, invalid_role, negative_max_tokens, choice_unnamed,
  schema_missing,
}
use skyl.Request.Validation.{IsWellFormed, validate_iff}

abbrev pub hello : Request
hello = record {
  model = "claude-opus-5";
  system = "";
  messages = user_text "Hello" ∷ [];
  max_tokens = pos 1024;
  temperature = none;
  top_p = none;
  stop = [];
  tools = [];
  tool_choice = none;
  thinking = none;
  response_format = none;
  provider_options = no_fields;
}

pub hello_passes : validate (some hello) ≡ none
unfolding validate validate_messages valid user_text validate_parts validate_part validate_tools
    validate_choice validate_format
hello_passes = refl

failures :
    (validate (some (record hello { max_tokens = negsuc 0 })) ≡ some negative_max_tokens)
    × (validate (some (record hello { messages = (record { role = "system"; parts = [] }) ∷ [] }))
        ≡ some (invalid_role 0))
    × (validate (some (record hello { tool_choice = some (record { mode = "tool"; name = "" }) }))
        ≡ some choice_unnamed)
    × (validate (
          some (record hello { response_format = some (record { schema = no_fields; name = "" }) }))
        ≡ some schema_missing)
unfolding validate validate_messages valid user_text validate_parts validate_part validate_tools
    validate_choice validate_format
failures = (refl, refl, refl, refl)

validate_iff_example : (validate (some hello) ≡ none) ↔ IsWellFormed hello
validate_iff_example = validate_iff hello
