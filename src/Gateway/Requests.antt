-- ===== src/Gateway/Requests.antt =====
-- gateway/api.go: the request of a chat and the response to it, over the wire.
use skyl.Prelude.{
  ℕ, suc, String, Bool, false, not, ◌||◌, List, [], ◌∷◌, Option, none, some, str_eq, if◌then◌else◌,
  ℤ, ◌==◌,
}
use skyl.Json.{Fields, field_count}
use skyl.Message.{Message, ToolCall, RawMessage, message_text, message_tool_calls}
use skyl.Request.{
  Request, Tool, ToolChoice, Thinking, ResponseFormat, Float, tool_choice_auto, tool_choice_none,
  tool_choice_required, tool_choice_specific,
}
use skyl.Response.{Response, Usage, StopReason}
use skyl.Gateway.Wire.{
  ChatMessage, Converted, accepted, rejected, unknown_mode, schema_missing, Base64, to_skyl_message,
  from_skyl_message,
}

-- The types of tools, of the tool choice, of thinking and of the format have on the wire the fields
-- that they have in a request.
pub record ChatRequest : Type 0 where
  pub provider : String
  pub model : String
  pub system : String
  pub messages : List ChatMessage
  pub max_tokens : ℤ
  pub temperature : Option Float
  pub top_p : Option Float
  pub stop : List String
  pub tools : List Tool
  pub tool_choice : Option ToolChoice
  pub thinking : Option Thinking
  pub response_format : Option ResponseFormat
  pub provider_options : Fields

pub record ChatResponse : Type 0 where
  pub id : String
  pub provider : String
  pub model : String
  pub text : String
  pub message : ChatMessage
  pub stop_reason : StopReason
  pub tool_calls : List ToolCall
  pub usage : Usage
  pub raw : Option RawMessage

abbrev pub is_known_mode : String → Bool
is_known_mode mode =
    str_eq mode tool_choice_auto
    || str_eq mode tool_choice_none
    || str_eq mode tool_choice_required
    || str_eq mode tool_choice_specific

-- The first check that fails, of the tool choice and then of the format.
unfoldable pub bad_choice : Option ToolChoice → Bool
bad_choice none = false
bad_choice (some c) = not (is_known_mode c.mode)

unfoldable pub bad_format : Option ResponseFormat → Bool
bad_format none = false
bad_format (some f) = field_count f.schema == 0

module _ (base64 : Base64) where
  abbrev pub add_message : Converted Message → Converted (List Message) → Converted (List Message)
  add_message (rejected e) rest = rejected e
  add_message (accepted m) (rejected e) = rejected e
  add_message (accepted m) (accepted ms) = accepted (m ∷ ms)

  unfoldable pub to_skyl_messages : ℕ → List ChatMessage → Converted (List Message)
  unfolding to_skyl_message
  to_skyl_messages i [] = accepted []
  to_skyl_messages i (m ∷ ms) =
      add_message (to_skyl_message base64 i m) (to_skyl_messages (suc i) ms)

  -- `toSkylRequest` behind its loop over the messages.
  unfoldable pub with_messages : ChatRequest → Converted (List Message) → Converted Request
  unfolding bad_choice bad_format
  with_messages r (rejected e) = rejected e
  with_messages r (accepted ms) =
      if bad_choice r.tool_choice
      then rejected unknown_mode
      else if bad_format r.response_format
      then rejected schema_missing
      else accepted (record {
        model = r.model;
        system = r.system;
        messages = ms;
        max_tokens = r.max_tokens;
        temperature = r.temperature;
        top_p = r.top_p;
        stop = r.stop;
        tools = r.tools;
        tool_choice = r.tool_choice;
        thinking = r.thinking;
        response_format = r.response_format;
        provider_options = r.provider_options;
      })

  unfoldable pub to_skyl_request : ChatRequest → Converted Request
  unfolding to_skyl_messages with_messages
  to_skyl_request r = with_messages r (to_skyl_messages 0 r.messages)

  unfoldable pub to_chat_response : Response → Bool → ChatResponse
  unfolding from_skyl_message
  to_chat_response resp include_raw = record {
    id = resp.id;
    provider = resp.provider;
    model = resp.model;
    text = message_text resp.message;
    message = from_skyl_message base64 resp.message;
    stop_reason = resp.stop_reason;
    tool_calls = message_tool_calls resp.message;
    usage = resp.usage;
    raw = if include_raw then some resp.raw else none;
  }
