-- ===== src/Gateway/Streaming.antt =====
-- gateway/server.go: the loop of `handleChatStream`, which relays a stream as server-sent events.
use skyl.Prelude.{
  ℕ, zero, suc, String, Bool, not, ◌&&◌, List, [], ◌∷◌, Option, none, some, if◌then◌else◌,
}
use skyl.Errors.{GoError, is_nil}
use skyl.Message.{ToolCall}
use skyl.Response.{Usage, StopReason}
use skyl.Stream.{
  EventType, StreamEvent, StreamOps, text_delta, thinking_delta, tool_call_event, done,
}
use skyl.Gateway.{error_kind}

-- The payload of a frame, by the keys that it has besides `type`: a fragment of text or of thinking,
-- a call, the end of the reply, or an error that comes behind the headers, by its text and its kind.
pub data Payload : Type 0 where
  text_frame thinking_frame : String → Payload
  call_frame : Option ToolCall → Payload
  done_frame : StopReason → Option Usage → Payload
  error_frame : String → String → Payload

-- What encoding/json and the connection do: whether a payload is encoded, whether the write with a
-- number succeeds, and the text of an error.
pub record Writer : Type 0 where
  pub encodes : Payload → Bool
  pub writes : ℕ → Bool
  pub error_text : GoError → String

unfoldable pub payload_of : EventType → StreamEvent → Payload
payload_of text_delta ev = text_frame ev.text
payload_of thinking_delta ev = thinking_frame ev.text
payload_of tool_call_event ev = call_frame ev.tool_call
payload_of done ev = done_frame ev.stop_reason ev.usage

abbrev pub in_front : {S : Type 0} → Payload → Option (List Payload × S) → Option (List Payload × S)
in_front p none = none
in_front p (some (frames, s)) = some (p ∷ frames, s)

module _ (w : Writer) where
  -- `writeSSE`: it fails where the payload is not encoded, and where the write fails.
  unfoldable pub write_sse : ℕ → Payload → Bool
  write_sse n p = w.encodes p && w.writes n

  -- Behind the loop: the error of the stream has to ride the stream, if it can be written.
  unfoldable pub closing_frame : ℕ → GoError → List Payload
  unfolding error_kind is_nil write_sse
  closing_frame n e =
      let p = error_frame (w.error_text e) (error_kind e) in
      if is_nil e then [] else if write_sse n p then p ∷ [] else []

module _ {S : Type 0} (ops : StreamOps S) (w : Writer) where
  -- The loop, on fuel, from the frame with number `n`: the frames that are written and the state in
  -- which the handler leaves the stream. It stops at a frame that is not written; `none` is that the
  -- fuel ran out.
  unfoldable pub relay : ℕ → ℕ → S → Option (List Payload × S)
  unfolding payload_of closing_frame write_sse
  relay zero n s = none
  relay (suc fuel) n s =
      let (more, t) = ops.next s in
      let rest = relay fuel (suc n) t in
      let p = payload_of (ops.event t).kind (ops.event t) in
      if not more
      then some (closing_frame w n (ops.err t), t)
      else if not (write_sse w n p)
      then some ([], t)
      else in_front p rest

  -- `handleChatStream` behind its checks, with the deferred `Close`.
  unfoldable pub handle_stream : ℕ → S → Option (List Payload × S)
  unfolding relay
  handle_stream fuel s = elim (relay fuel 0 s) [
    | none ↦ none
    | some (frames, t) ↦ some (frames, (ops.close t).1)
  ]
