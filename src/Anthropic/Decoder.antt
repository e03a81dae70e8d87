-- ===== src/Anthropic/Decoder.antt =====
-- provider/anthropic/anthropic.go: `Stream`, and `stream` with its `Next` and `Close`.
use skyl.Prelude.{
  String, Bool, true, false, not, ◌||◌, ◌&&◌, List, [], ◌∷◌, ◌++◌, Option, none, some, is_empty,
  if◌then◌else◌, pos,
}
use skyl.Errors.{GoError, Sentinel, sentinel, wrapped, as_go_error, is_nil, new_error}
use skyl.Errors.RetryAfter.{HeaderLibrary}
use skyl.Message.{Part, ToolCall, tool_call}
use skyl.Request.{Request}
use skyl.Response.{Usage, StopReason}
use skyl.Result.{Result, ok, err, and_then}
use skyl.Stream.{
  StreamEvent, StreamOps, zero_stream_event, text_delta, thinking_delta, tool_call_event, done,
}
use skyl.Anthropic.{
  Sdk, SdkMessage, SdkStream, Delta, of_text, of_thinking, of_other, provider_name,
}
use skyl.Anthropic.Payload.{build_params, provider_options}
use skyl.Anthropic.Reply.{map_stop_reason, parts_from_message, usage_from, translate_error}

-- The fields of `stream`.
pub record Decoder (E : Type 0) : Type 0 where
  pub source : SdkStream E
  pub acc : SdkMessage
  pub event : StreamEvent
  pub err : GoError
  pub queued : List StreamEvent
  pub flushed : Bool
  pub done : Bool
  pub closed : Bool

abbrev pub text_event : String → StreamEvent
text_event t = record (zero_stream_event text_delta) { text = t }

abbrev pub thinking_event : String → StreamEvent
thinking_event t = record (zero_stream_event thinking_delta) { text = t }

abbrev pub call_event : ToolCall → StreamEvent
call_event c = record (zero_stream_event tool_call_event) { tool_call = some c }

abbrev pub done_event : Usage → StopReason → StreamEvent
done_event usage reason = record (zero_stream_event done) {
  usage = some usage;
  stop_reason = reason;
}

-- The event for a delta, if it is not empty.
unfoldable pub delta_event : Delta → Option StreamEvent
delta_event (of_text t) = if is_empty t then none else some (text_event t)
delta_event (of_thinking t) = if is_empty t then none else some (thinking_event t)
delta_event of_other = none

-- The events of the calls among the parts.
unfoldable pub call_events : List Part → List StreamEvent
call_events [] = []
call_events (tool_call c ∷ ps) = call_event c ∷ call_events ps
call_events (_ ∷ ps) = call_events ps

-- What `finish` queues: the buffered calls, then the terminal event.
unfoldable pub closing_events : SdkMessage → List StreamEvent
unfolding call_events parts_from_message usage_from map_stop_reason
closing_events acc =
    call_events (parts_from_message acc)
    ++ (done_event (usage_from acc.usage) (map_stop_reason acc.stop_reason) ∷ [])

abbrev pub truncated : String
truncated = "stream ended without a terminal event; the response is truncated"

module _ {E : Type 0} where
  unfoldable pub serve : List StreamEvent → Decoder E → Bool × Decoder E
  serve [] s = (false, record s { queued = []; done = true })
  serve (ev ∷ evs) s = (true, record s { event = ev; queued = evs })

  unfoldable pub finish : Decoder E → Bool × Decoder E
  unfolding serve closing_events
  finish s =
      if s.flushed
      then serve s.queued s
      else serve (s.queued ++ closing_events s.acc) (record s { flushed = true })

  module _ (sdk : Sdk E) (hdr : HeaderLibrary) where
    -- Behind the loop.
    unfoldable pub at_end : Decoder E → Bool × Decoder E
    unfolding finish
    at_end s =
        if not (is_nil s.source.end_err)
        then (false, record s { err = translate_error sdk hdr s.source.end_err })
        else if is_empty s.acc.stop_reason && not s.flushed
        then (
          false,
          record s {
            err = as_go_error (new_error provider_name 0 (sentinel Sentinel.server) truncated []);
          },
        )
        else finish s

    -- An event that cannot be accumulated ends the stream.
    abbrev pub unaccumulated : GoError → GoError
    unaccumulated e = as_go_error (record {
      provider_name = provider_name;
      status_code = 0;
      message = sdk.error_text e;
      kind = GoError.nil;
      retry_after = pos 0;
      body = [];
      cause = GoError.nil;
    })

    -- A delta that is given ends the loop, with `s` behind it; else the loop goes on.
    unfoldable pub give : Option StreamEvent → Decoder E → (Bool × Decoder E) → Bool × Decoder E
    give none s rest = rest
    give (some ev) s rest = (true, record s { event = ev })

    unfoldable pub after_accumulate :
        Result SdkMessage → Delta → Decoder E → (SdkMessage → Bool × Decoder E) → Bool × Decoder E
    unfolding give delta_event
    after_accumulate (err e) d s rest = (false, record s { err = unaccumulated e })
    after_accumulate (ok acc) d s rest = give (delta_event d) (record s { acc = acc }) (rest acc)

    -- The loop of `Next` over the events that the SDK's stream has left, with what follows it.
    unfoldable pub read_events : List E → Decoder E → Bool × Decoder E
    unfolding after_accumulate at_end
    read_events [] s = at_end (record s { source = record s.source { events = [] } })
    read_events (e ∷ es) s =
        let t = record s { source = record s.source { events = es } } in
        after_accumulate (sdk.accumulate s.acc e) (sdk.delta_of e) t
          (λ acc. read_events es (record t { acc = acc }))

    unfoldable pub from_queue : List StreamEvent → Decoder E → Bool × Decoder E
    unfolding read_events
    from_queue [] s = read_events s.source.events s
    from_queue (ev ∷ evs) s = (true, record s { event = ev; queued = evs })

    unfoldable pub decode_next : Decoder E → Bool × Decoder E
    unfolding from_queue
    decode_next s = if s.done || not (is_nil s.err) then (false, s) else from_queue s.queued s

    -- `&stream{sdk: sdkStream}`
    unfoldable pub new_decoder : SdkStream E → Decoder E
    new_decoder source = record {
      source = source;
      acc = sdk.no_message;
      event = zero_stream_event text_delta;
      err = GoError.nil;
      queued = [];
      flushed = false;
      done = false;
      closed = false;
    }

    -- A handshake that failed shows as a stream that has an error before its first event.
    unfoldable pub start_stream : SdkStream E → Result (Decoder E)
    unfolding new_decoder
    start_stream source =
        if not (is_nil source.open_err)
        then err (translate_error sdk hdr source.open_err)
        else ok (new_decoder source)

    unfoldable pub open_stream : Request → Result (Decoder E)
    unfolding build_params provider_options start_stream
    open_stream req =
        and_then (build_params sdk req) (λ params.
          start_stream (sdk.send_streaming params (provider_options req.provider_options)))

  unfoldable pub decoder_close : Decoder E → GoError × Decoder E
  decoder_close s = if s.closed then (GoError.nil, s) else (
    (if is_nil s.source.close_err
        then GoError.nil
        else wrapped "skyl: closing anthropic stream" s.source.close_err),
    record s { closed = true },
  )

  unfoldable pub decoder_ops : Sdk E → HeaderLibrary → StreamOps (Decoder E)
  unfolding decode_next decoder_close
  decoder_ops sdk hdr = record {
    next = decode_next sdk hdr;
    event = λ s. s.event;
    err = λ s. s.err;
    close = decoder_close;
  }
