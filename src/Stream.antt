-- ===== src/Stream.antt =====
-- stream.go: stream events, the stream interface and `CollectStream`.
pub mod Collecting
pub mod Observed
pub mod Reporting
pub mod Tests
use skyl.Prelude.{
  ℕ, zero, suc, String, Bool, true, false, not, ◌&&◌, List, [], ◌∷◌, ◌++◌, null, Option, none, some,
  str_eq, is_empty, ◌<>◌, if◌then◌else◌,
}
use skyl.Errors.{GoError, is_nil}
use skyl.Message.{ToolCall, Part, Message, RawMessage, text, tool_call, role_assistant}
use skyl.Response.{Usage, StopReason, Response, no_usage, stop_unknown, stop_tool_use}

-- `EventType` is a string type; these are the values that skyl emits.
pub data EventType : Type 0 where
  text_delta thinking_delta tool_call_event done : EventType

abbrev pub is_terminal : EventType → Bool
is_terminal text_delta = false
is_terminal thinking_delta = false
is_terminal tool_call_event = false
is_terminal done = true

pub record StreamEvent : Type 0 where
  pub kind : EventType
  pub text : String
  pub tool_call : Option ToolCall
  pub usage : Option Usage
  pub stop_reason : StopReason
  pub raw : RawMessage

abbrev pub zero_stream_event : EventType → StreamEvent
zero_stream_event t = record {
  kind = t;
  text = "";
  tool_call = none;
  usage = none;
  stop_reason = "";
  raw = "";
}

-- The interface `Stream`, of an implementation with states `S`.
pub record StreamOps (S : Type 0) : Type 0 where
  pub next : S → Bool × S
  pub event : S → StreamEvent
  pub err : S → GoError
  pub close : S → GoError × S

-- The local variables of `CollectStream`.
pub record Collected : Type 0 where
  pub text : String
  pub calls : List ToolCall
  pub usage : Usage
  pub stop_reason : StopReason

abbrev pub nothing_collected : Collected
nothing_collected = record { text = ""; calls = []; usage = no_usage; stop_reason = stop_unknown }

abbrev pub add_call : List ToolCall → Option ToolCall → List ToolCall
add_call calls none = calls
add_call calls (some c) = calls ++ (c ∷ [])

abbrev pub or_usage : Option Usage → Usage → Usage
or_usage none u = u
or_usage (some v) u = v

-- The switch in the loop.
unfoldable pub collect_event : Collected → EventType → StreamEvent → Collected
collect_event c text_delta ev = record c { text = c.text <> ev.text }
collect_event c tool_call_event ev = record c { calls = add_call c.calls ev.tool_call }
collect_event c done ev = record c {
  usage = or_usage ev.usage c.usage;
  stop_reason = if is_empty ev.stop_reason then c.stop_reason else ev.stop_reason;
}
collect_event c thinking_delta ev = c

abbrev pub call_parts : List ToolCall → List Part
call_parts [] = []
call_parts (c ∷ cs) = tool_call c ∷ call_parts cs

-- What `CollectStream` makes of its variables.
unfoldable pub assemble : String → String → Collected → Response
assemble provider model c = record {
  id = "";
  provider = provider;
  model = model;
  message = record {
    role = role_assistant;
    parts = if is_empty c.text then call_parts c.calls else text c.text ∷ call_parts c.calls;
  };
  stop_reason =
      if str_eq c.stop_reason stop_unknown && not (null c.calls)
      then stop_tool_use
      else c.stop_reason;
  usage = c.usage;
  raw = "";
}

module _ {S : Type 0} (ops : StreamOps S) where
  -- The loop of `CollectStream` on fuel, with the state that it leaves; `none` is that the fuel ran out.
  unfoldable pub drain : ℕ → Collected → S → Option (Collected × S)
  drain zero c s = none
  drain (suc fuel) c s =
      let (more, s') = ops.next s in
      let rest = drain fuel (collect_event c (ops.event s').kind (ops.event s')) s' in
      if more then rest else some (c, s')

  -- `CollectStream`: the response or nil, the error, and the closed stream.
  unfoldable pub collect_stream : ℕ → String → String → S → Option (Option Response × GoError × S)
  unfolding drain is_nil
  collect_stream fuel provider model s = elim (drain fuel nothing_collected s) [
    | none ↦ none
    | some (c, s') ↦ some (
      (if is_nil (ops.err s') then some (assemble provider model c) else none),
      ops.err s',
      (ops.close s').1,
    )
  ]
