-- ===== src/Stream/Tests.antt =====
-- Tests of stream.go and observedstream.go, and the theorems at concrete inputs.
use skyl.Prelude.{◌≡◌, refl, Bool, true, false, List, [], ◌∷◌, concat, none, some, arith, pos}
use skyl.Errors.{GoError, is_nil}
use skyl.Message.{ToolCall, message_text, message_tool_calls}
use skyl.Request.Tests.{hello}
use skyl.Response.{Response, no_usage}
use skyl.Client.{HookEvent, default_client, op_stream_end, emit}
use skyl.Stream.{
  text_delta, tool_call_event, done, StreamEvent, zero_stream_event, StreamOps, collect_stream,
}
use skyl.Stream.Collecting.{Yields, delta_texts, event_calls, collect_stream-Yields}
use skyl.Stream.Observed.{ObservedStream, Opening, observe, observed_stream}
use skyl.Stream.Reporting.{
  advance, close_stream, use_stream, IsReported, reports_once, Yields-observed_stream,
}

-- A stream that plays events from a list.
pub record Tape : Type 0 where
  pub now : StreamEvent
  pub rest : List StreamEvent

abbrev play : List StreamEvent → Tape → Bool × Tape
play [] t = (false, t)
play (ev ∷ evs) t = (true, record { now = ev; rest = evs })

abbrev pub tape : StreamOps Tape
tape = record {
  next = λ t. play t.rest t;
  event = λ t. t.now;
  err = λ t. GoError.nil;
  close = λ t. (GoError.nil, t);
}

abbrev clock : ToolCall
clock = record { id = "1"; name = "clock"; arguments = "{}" }

abbrev hel : StreamEvent
hel = record (zero_stream_event text_delta) { text = "Hel" }

abbrev lo : StreamEvent
lo = record (zero_stream_event text_delta) { text = "lo" }

abbrev asks : StreamEvent
asks = record (zero_stream_event tool_call_event) { tool_call = some clock }

abbrev ends : StreamEvent
ends = record (zero_stream_event done) { usage = some (record no_usage { output_tokens = pos 3 }) }

abbrev pub all_events : List StreamEvent
all_events = hel ∷ asks ∷ lo ∷ ends ∷ []

abbrev pub at_start : Tape
at_start = record { now = ends; rest = all_events }

abbrev pub at_end : Tape
at_end = record { now = ends; rest = [] }

abbrev played : StreamEvent → List StreamEvent → Tape
played ev evs = record { now = ev; rest = evs }

pub plays : Yields tape at_start all_events at_end
plays = (
  played hel (asks ∷ lo ∷ ends ∷ []),
  refl,
  refl,
  (
    played asks (lo ∷ ends ∷ []),
    refl,
    refl,
    (played lo (ends ∷ []), refl, refl, (at_end, refl, refl, refl)),
  ),
)

collect_stream-Yields_example :
    (is_nil GoError.nil ≡ true
      → (r : Response) × (collect_stream tape 9 "p" "m" at_start
          ≡ some (some r, GoError.nil, at_end))
        × (message_text r.message ≡ concat (delta_texts all_events))
        × (message_tool_calls r.message ≡ event_calls all_events))
    × (is_nil GoError.nil ≡ false
        → collect_stream tape 9 "p" "m" at_start ≡ some (none, GoError.nil, at_end))
collect_stream-Yields_example =
    collect_stream-Yields tape 9 "p" "m" at_start all_events at_end plays (omega arith)

abbrev opening : Opening Tape
opening = record {
  client = record (default_client "openai") { hooks = 7 ∷ 8 ∷ [] };
  request = hello;
  attempt = 1;
  elapsed = λ t. pos 5;
}

reports_once_example :
    IsReported tape opening (use_stream tape opening (advance ∷ []) (observe at_start))
    × ((ev : HookEvent) × ((use_stream tape opening
            (advance ∷ close_stream ∷ advance ∷ [])
            (observe at_start)).deliveries
          ≡ emit opening.client ev)
        × (ev.operation ≡ op_stream_end))
reports_once_example = reports_once tape opening (advance ∷ []) (advance ∷ []) at_start

Yields-observed_stream_example :
    (t : ObservedStream Tape) × Yields
      (observed_stream tape opening)
      (observe at_start)
      all_events
      t
    × ((observed_stream tape opening).err t ≡ GoError.nil)
Yields-observed_stream_example =
    Yields-observed_stream tape opening (observe at_start) all_events at_end plays
