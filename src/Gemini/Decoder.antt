-- ===== src/Gemini/Decoder.antt =====
-- provider/gemini/gemini.go: `stream`, the decoder of a streamed reply, with its `Next` and `Close`.
use skyl.Prelude.{
  ltb_ℤ, pos, String, Bool, true, false, not, ◌||◌, ◌&&◌, List, [], ◌∷◌, ◌++◌, null, Option, none,
  some, is_empty, if◌then◌else◌, Bytes,
}
use skyl.Errors.{GoError, Sentinel, sentinel, wrapped, as_go_error, is_nil, new_error, with_cause}
use skyl.Message.{Part, ToolCall, text, tool_call}
use skyl.Response.{Usage, StopReason, no_usage, stop_unknown}
use skyl.Stream.{StreamEvent, StreamOps, zero_stream_event, text_delta, tool_call_event, done}
use skyl.Sse.{Reader}
use skyl.Sse.Pump.{Progress, go_on, return, Machine, run}
use skyl.Gemini.{
  Library, WireResponse, WireUsage, Candidate, provider_name, map_finish_reason,
  parts_from_candidate,
}
use skyl.Gemini.Reply.{usage_from_wire}

-- The fields of `stream`, with the error that closing the body will give.
pub record Decoder : Type 0 where
  pub close_err : GoError
  pub reader : Reader
  pub event : StreamEvent
  pub err : GoError
  pub queued : List StreamEvent
  pub usage : Usage
  pub stop_reason : StopReason
  pub flushed : Bool
  pub done : Bool
  pub closed : Bool
  pub saw_terminal : Bool

-- `&stream{…}` as `Stream` makes it.
unfoldable pub new_decoder : GoError → Reader → Decoder
new_decoder close_err reader = record {
  close_err = close_err;
  reader = reader;
  event = zero_stream_event text_delta;
  err = GoError.nil;
  queued = [];
  usage = no_usage;
  stop_reason = "";
  flushed = false;
  done = false;
  closed = false;
  saw_terminal = false;
}

abbrev pub done_event : Usage → StopReason → StreamEvent
done_event usage reason = record (zero_stream_event done) {
  usage = some usage;
  stop_reason = if is_empty reason then stop_unknown else reason;
}

abbrev pub truncated : String
truncated = "stream ended without a terminal event; the response is truncated"

abbrev pub counts : WireUsage → Bool
counts u = ltb_ℤ (pos 0) u.prompt_tokens || ltb_ℤ (pos 0) u.candidates_tokens

unfoldable pub with_usage : WireUsage → Decoder → Decoder
unfolding usage_from_wire
with_usage u s = if counts u then record s { usage = usage_from_wire u } else s

unfoldable pub with_reason : String → Bool → Decoder → Decoder
unfolding map_finish_reason
with_reason reason has_calls s =
    if is_empty reason
    then s
    else record s { stop_reason = map_finish_reason reason has_calls; saw_terminal = true }

-- `s.ev = s.queued[0]; s.queued = s.queued[1:]`, or another round.
unfoldable pub serve : List StreamEvent → Decoder → Progress Decoder
serve [] s = go_on (record s { queued = [] })
serve (ev ∷ evs) s = return true (record s { event = ev; queued = evs })

module _ (lib : Library) where
  abbrev pub text_event : Bytes → String → StreamEvent
  text_event frame t = record (zero_stream_event text_delta) { text = t; raw = lib.raw frame }

  abbrev pub call_event : Bytes → ToolCall → StreamEvent
  call_event frame c = record (zero_stream_event tool_call_event) {
    tool_call = some c;
    raw = lib.raw frame;
  }

  -- The events of the parts of a chunk, as the loop over them queues them.
  unfoldable pub part_events : Bytes → List Part → List StreamEvent
  part_events frame [] = []
  part_events frame (text t ∷ ps) = text_event frame t ∷ part_events frame ps
  part_events frame (tool_call c ∷ ps) = call_event frame c ∷ part_events frame ps
  part_events frame (_ ∷ ps) = part_events frame ps

  unfoldable pub on_candidate : Bytes → Candidate → Decoder → Progress Decoder
  unfolding with_reason part_events serve
  on_candidate frame cand s =
      let (parts, has_calls) = parts_from_candidate cand.content in
      serve (s.queued ++ part_events frame parts) (with_reason cand.finish_reason has_calls s)

  unfoldable pub on_candidates : Bytes → List Candidate → Decoder → Progress Decoder
  unfolding on_candidate
  on_candidates frame [] s = go_on s
  on_candidates frame (cand ∷ more) s = on_candidate frame cand s

  unfoldable pub on_error : Bytes → Option String → WireResponse → Decoder → Progress Decoder
  unfolding on_candidates with_usage
  on_error frame (some msg) chunk s = return false (record s {
    err = as_go_error (new_error provider_name 0 (sentinel Sentinel.server) msg frame);
  })
  on_error frame none chunk s = on_candidates frame chunk.candidates (with_usage chunk.usage s)

  unfoldable pub on_chunk : Bytes → Option WireResponse → Decoder → Progress Decoder
  unfolding on_error
  on_chunk frame none s = go_on s
  on_chunk frame (some chunk) s = on_error frame chunk.error chunk s

  -- The body of the loop, on the data of an event.
  unfoldable pub on_frame : Bytes → Decoder → Progress Decoder
  unfolding on_chunk
  on_frame frame s = if null frame then go_on s else on_chunk frame (lib.decode_response frame) s

  -- Behind the loop, when the reader has no more events.
  unfoldable pub at_end : Decoder → Bool × Decoder
  at_end s =
      if not (is_nil s.reader.err)
      then (
        false,
        record s {
          err = as_go_error (
              with_cause (new_error provider_name 0 GoError.nil (lib.error_text s.reader.err) [])
                s.reader.err);
        },
      )
      else if not s.saw_terminal && not s.flushed
      then (
        false,
        record s {
          err = as_go_error (new_error provider_name 0 (sentinel Sentinel.server) truncated []);
        },
      )
      else if not s.flushed
      then (true, record s { flushed = true; event = done_event s.usage s.stop_reason })
      else (false, record s { done = true })

  -- The loop of `Next` with what follows it.
  abbrev pub machine : Machine Decoder
  machine = record {
    reader = λ s. s.reader;
    advance = λ r s. record s { reader = r };
    on_frame = on_frame;
    at_end = at_end;
  }

  unfoldable pub from_queue : List StreamEvent → Decoder → Bool × Decoder
  unfolding run
  from_queue [] s = run machine s
  from_queue (ev ∷ evs) s = (true, record s { event = ev; queued = evs })

  unfoldable pub decode_next : Decoder → Bool × Decoder
  unfolding from_queue
  decode_next s = if s.done || not (is_nil s.err) then (false, s) else from_queue s.queued s

unfoldable pub decoder_close : Decoder → GoError × Decoder
decoder_close s = if s.closed then (GoError.nil, s) else (
  (if is_nil s.close_err then GoError.nil else wrapped "skyl: closing gemini stream" s.close_err),
  record s { closed = true },
)

unfoldable pub decoder_ops : Library → StreamOps Decoder
unfolding decode_next decoder_close
decoder_ops lib = record {
  next = decode_next lib;
  event = λ s. s.event;
  err = λ s. s.err;
  close = decoder_close;
}
