-- ===== src/Message.antt =====
-- message.go: roles, the parts of a message, and messages.
pub mod Laws
pub mod Tests
use Prim.Native.String.{len}
use skyl.Prelude.{
  ℕ, ◌+◌, String, ◌≡◌, Bool, true, false, List, [], ◌∷◌, ◌++◌, ltb, ◌==◌, if◌then◌else◌, is_empty,
  ◌<>◌, concat, Bytes, str_eq, ◌||◌, Option, none, some,
}

-- Raw JSON is kept as text.
abbrev pub RawMessage : Type 0
RawMessage = String

-- `Role` is a string type; these are the three values that the package names.
abbrev pub Role : Type 0
Role = String

abbrev pub role_user : Role
role_user = "user"

abbrev pub role_assistant : Role
role_assistant = "assistant"

abbrev pub role_tool : Role
role_tool = "tool"

unfoldable pub valid : Role → Bool
valid r = str_eq r role_user || str_eq r role_assistant || str_eq r role_tool

pub record Image : Type 0 where
  pub media_type : String
  pub bytes : Bytes
  pub url : String

pub record ToolCall : Type 0 where
  pub id : String
  pub name : String
  pub arguments : RawMessage

pub record ToolResult : Type 0 where
  pub call_id : String
  pub content : String
  pub is_error : Bool

-- The interface is closed: these four, and the nil interface value.
pub data Part : Type 0 where
  text : String → Part
  image : Image → Part
  tool_call : ToolCall → Part
  tool_result : ToolResult → Part
  nil : Part

pub record Message : Type 0 where
  pub role : Role
  pub parts : List Part

-- The first loop of `Text`: the sum of the lengths in bytes.
unfoldable pub text_length : List Part → ℕ
text_length [] = 0
text_length (text t ∷ ps) = len t + text_length ps
text_length (_ ∷ ps) = text_length ps

-- The second loop of `Text`: what the buffer holds after the parts.
unfoldable pub append_texts : String → List Part → String
append_texts buf [] = buf
append_texts buf (text t ∷ ps) = append_texts (buf <> t) ps
append_texts buf (_ ∷ ps) = append_texts buf ps

-- The fast path for one part.
unfoldable pub only_text : Part → String
only_text (text t) = t
only_text _ = ""

unfoldable pub text_of_parts : List Part → String
unfolding only_text text_length append_texts
text_of_parts [] = ""
text_of_parts (p ∷ []) = only_text p
text_of_parts ps = if text_length ps == 0 then "" else append_texts "" ps

unfoldable pub message_text : Message → String
unfolding text_of_parts
message_text m = text_of_parts m.parts

unfoldable pub tool_calls_of : List Part → List ToolCall
tool_calls_of [] = []
tool_calls_of (tool_call c ∷ ps) = c ∷ tool_calls_of ps
tool_calls_of (_ ∷ ps) = tool_calls_of ps

unfoldable pub message_tool_calls : Message → List ToolCall
unfolding tool_calls_of
message_tool_calls m = tool_calls_of m.parts

unfoldable pub user_text : String → Message
user_text t = record { role = role_user; parts = text t ∷ [] }

unfoldable pub assistant_text : String → Message
assistant_text t = record { role = role_assistant; parts = text t ∷ [] }

unfoldable pub user_image : String → Bytes → String → Message
user_image media_type bytes caption =
    let picture = image (record { media_type = media_type; bytes = bytes; url = "" }) in
    record {
      role = role_user;
      parts = if is_empty caption then picture ∷ [] else picture ∷ text caption ∷ [];
    }

unfoldable pub tool_result_message : String → String → Message
tool_result_message call_id content = record {
  role = role_tool;
  parts = tool_result (record { call_id = call_id; content = content; is_error = false }) ∷ [];
}

unfoldable pub tool_error_message : String → String → Message
tool_error_message call_id content = record {
  role = role_tool;
  parts = tool_result (record { call_id = call_id; content = content; is_error = true }) ∷ [];
}
