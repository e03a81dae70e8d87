-- ===== src/Response.antt =====
-- response.go: usage, stop reasons and responses.
pub mod Tests
use skyl.Prelude.{pos, plus_int64, ℤ, ℕ, ◌+◌, String, List, [], Option, none, some}
use skyl.Message.{Message, ToolCall, RawMessage, message_text, message_tool_calls}

-- `StopReason` is a string type; these are the values that the package names.
abbrev pub StopReason : Type 0
StopReason = String

abbrev pub stop_end_turn : StopReason
stop_end_turn = "end_turn"

abbrev pub stop_max_tokens : StopReason
stop_max_tokens = "max_tokens"

abbrev pub stop_tool_use : StopReason
stop_tool_use = "tool_use"

abbrev pub stop_stop_sequence : StopReason
stop_stop_sequence = "stop_sequence"

abbrev pub stop_refusal : StopReason
stop_refusal = "refusal"

abbrev pub stop_unknown : StopReason
stop_unknown = "unknown"

pub record Usage : Type 0 where
  pub input_tokens : ℤ
  pub output_tokens : ℤ
  pub cache_read_tokens : ℤ
  pub cache_write_tokens : ℤ

abbrev pub no_usage : Usage
no_usage = record {
  input_tokens = pos 0;
  output_tokens = pos 0;
  cache_read_tokens = pos 0;
  cache_write_tokens = pos 0;
}

unfoldable pub total_tokens : Usage → ℤ
total_tokens u = plus_int64 u.input_tokens u.output_tokens

unfoldable pub add : Usage → Usage → Usage
add u other = record {
  input_tokens = plus_int64 u.input_tokens other.input_tokens;
  output_tokens = plus_int64 u.output_tokens other.output_tokens;
  cache_read_tokens = plus_int64 u.cache_read_tokens other.cache_read_tokens;
  cache_write_tokens = plus_int64 u.cache_write_tokens other.cache_write_tokens;
}

pub record Response : Type 0 where
  pub id : String
  pub provider : String
  pub model : String
  pub message : Message
  pub stop_reason : StopReason
  pub usage : Usage
  pub raw : RawMessage

unfoldable pub response_text : Option Response → String
response_text none = ""
response_text (some r) = message_text r.message

unfoldable pub response_tool_calls : Option Response → List ToolCall
response_tool_calls none = []
response_tool_calls (some r) = message_tool_calls r.message

pub record ModelInfo : Type 0 where
  pub id : String
  pub provider : String
  pub display_name : String
  pub context_window : ℤ
  pub max_output_tokens : ℤ
  pub raw : RawMessage
