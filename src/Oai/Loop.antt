-- ===== src/Oai/Loop.antt =====
-- internal/oai/oai.go: `Next` and `Close` of the decoder.
use skyl.Prelude.{
  String, ℕ, zero, suc, Bool, true, false, not, ◌||◌, ◌&&◌, List, [], ◌∷◌, null, Option, none, some,
  is_empty, if◌then◌else◌, Bytes, codes,
}
use skyl.Errors.{GoError, Sentinel, sentinel, wrapped, as_go_error, is_nil, new_error, with_cause}
use skyl.Stream.{StreamEvent, StreamOps, zero_stream_event, text_delta}
use skyl.Sse.{Reader, next}
use skyl.Sse.Fields.{equal}
use skyl.Sse.Supply.{supply}
use skyl.Oai.{Library, WireResponse, WireChoice, text_from_content}
use skyl.Oai.Decoder.{Decoder, Progress, go_on, return, with_usage, with_reason, with_calls, finish}

abbrev pub truncated : String
truncated = "stream ended without a terminal event; the response is truncated"

module _ (lib : Library) where
  abbrev pub text_event : Bytes → String → StreamEvent
  text_event frame t = record (zero_stream_event text_delta) { text = t; raw = lib.raw frame }

  unfoldable pub on_choice : Bytes → WireChoice → Decoder → Progress
  unfolding with_reason with_calls
  on_choice frame choice s =
      let s' = with_calls choice.delta.tool_calls (with_reason choice.finish_reason s) in
      let t = text_from_content choice.delta.content in
      if is_empty t then go_on s' else return true (record s' { event = text_event frame t })

  unfoldable pub on_choices : Bytes → List WireChoice → Decoder → Progress
  unfolding on_choice
  on_choices frame [] s = go_on s
  on_choices frame (choice ∷ more) s = on_choice frame choice s

  unfoldable pub on_error : Bytes → Option String → WireResponse → Decoder → Progress
  unfolding on_choices with_usage
  on_error frame (some msg) chunk s =
      return false (record s {
        err = as_go_error (new_error s.provider 0 (sentinel Sentinel.server) msg frame);
      })
  on_error frame none chunk s = on_choices frame chunk.choices (with_usage chunk.usage s)

  unfoldable pub on_chunk : Bytes → Option WireResponse → Decoder → Progress
  unfolding on_error
  on_chunk frame none s = go_on s
  on_chunk frame (some chunk) s = on_error frame chunk.error chunk s

  abbrev pub returned : Bool × Decoder → Progress
  returned (more, s) = return more s

  -- The body of the loop, on the data of an event.
  unfoldable pub on_frame : Bytes → Decoder → Progress
  unfolding on_chunk finish
  on_frame frame s =
      if null frame
      then go_on s
      else if equal frame (codes "[DONE]")
      then returned (finish (record s { saw_terminal = true }))
      else on_chunk frame (lib.decode_response frame) s

  -- Behind the loop, when the reader has no more events.
  unfoldable pub at_end : Decoder → Bool × Decoder
  unfolding finish
  at_end s =
      if not (is_nil s.reader.err)
      then (
        false,
        record s {
          err = as_go_error (
              with_cause (new_error s.provider 0 GoError.nil (lib.error_text s.reader.err) [])
                s.reader.err);
        },
      )
      else if not s.saw_terminal && not s.flushed
      then (
        false,
        record s {
          err = as_go_error (new_error s.provider 0 (sentinel Sentinel.server) truncated []);
        },
      )
      else finish s

  unfoldable pub proceed : Progress → (Decoder → Bool × Decoder) → Bool × Decoder
  proceed (go_on s) loop = loop s
  proceed (return more s) loop = (more, s)

  unfoldable pub on_read : Bool → Reader → Decoder → (Decoder → Bool × Decoder) → Bool × Decoder
  unfolding proceed on_frame at_end
  on_read true r s loop = proceed (on_frame r.event.payload (record s { reader = r })) loop
  on_read false r s loop = at_end (record s { reader = r })

  -- The loop of `Next`, on fuel for the events that are read.
  unfoldable pub pump : ℕ → Decoder → Bool × Decoder
  unfolding on_read
  pump zero s = (false, s)
  pump (suc fuel) s = on_read (next s.reader).0 (next s.reader).1 s (pump fuel)

  unfoldable pub decode_next : Decoder → Bool × Decoder
  unfolding pump
  decode_next s =
      if s.done || not (is_nil s.err) then (false, s) else pump (suc (supply s.reader)) s

unfoldable pub decoder_close : Decoder → GoError × Decoder
decoder_close s = if s.closed then (GoError.nil, s) else (
  (if is_nil s.close_err then GoError.nil else wrapped "skyl: closing stream" s.close_err),
  record s { closed = true },
)

unfoldable pub decoder_ops : Library → StreamOps Decoder
unfolding decode_next decoder_close
decoder_ops lib = record {
  next = decode_next lib;
  event = λ s. s.event;
  err = λ s. s.err;
  close = decoder_close;
}
