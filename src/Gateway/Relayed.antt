-- ===== src/Gateway/Relayed.antt =====
-- What the caller of a stream is sent, event by event.
use skyl.Prelude.{String, List, [], ◌∷◌, if◌then◌else◌}
use skyl.Errors.{GoError, Sentinel, is, is_nil, kind_of}
use skyl.Stream.{EventType, StreamEvent, text_delta, thinking_delta, tool_call_event, done}
use skyl.Gateway.Streaming.{
  Payload, text_frame, thinking_frame, call_frame, done_frame, error_frame,
}

-- The frame of an event: the text of a fragment, the call, or the stop reason and the usage.
abbrev pub shown_as : StreamEvent → EventType → Payload
shown_as ev text_delta = text_frame ev.text
shown_as ev thinking_delta = thinking_frame ev.text
shown_as ev tool_call_event = call_frame ev.tool_call
shown_as ev done = done_frame ev.stop_reason ev.usage

abbrev pub shown : StreamEvent → Payload
shown ev = shown_as ev ev.kind

-- The kinds of errors, the first of which that an error matches is told.
abbrev pub kinds : List (Sentinel × String)
kinds =
    (Sentinel.auth, "auth")
    ∷ (Sentinel.rate_limit, "rate_limit")
    ∷ (Sentinel.not_found, "not_found")
    ∷ (Sentinel.bad_request, "bad_request")
    ∷ (Sentinel.unsupported, "unsupported")
    ∷ (Sentinel.refusal, "refusal")
    ∷ (Sentinel.server, "server")
    ∷ []

abbrev pub kind_in : List (Sentinel × String) → GoError → String
kind_in [] e = "unknown"
kind_in ((s, name) ∷ ks) e = if is e (kind_of s) then name else kind_in ks e

-- What follows the events: nothing, or the text and the kind of the error.
abbrev pub failure_shown : (GoError → String) → GoError → List Payload
failure_shown text e = if is_nil e then [] else error_frame (text e) (kind_in kinds e) ∷ []
