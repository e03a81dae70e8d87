-- ===== src/Oai/Decoder.antt =====
-- internal/oai/oai.go: `stream`, the decoder of a streamed reply over the event reader.
use skyl.Prelude.{
  ltb_ℤ, String, Bool, true, false, ◌&&◌, ◌||◌, List, [], ◌∷◌, ◌++◌, ◌==◌, Option, none, some,
  is_empty, ◌<>◌, if◌then◌else◌, ℤ, pos, pos_part, neg_part,
}
use skyl.Errors.{GoError}
use skyl.Message.{ToolCall}
use skyl.Response.{Usage, StopReason, no_usage, stop_unknown}
use skyl.Stream.{StreamEvent, zero_stream_event, text_delta, tool_call_event, done}
use skyl.Sse.{Reader}
use skyl.Oai.{WireToolCall, WireUsage, map_finish_reason, or_no_arguments}
use skyl.Oai.Reply.{usage_from_wire}

-- `pendingCall`: a tool call whose fragments are still arriving.
pub record PendingCall : Type 0 where
  pub id : String
  pub name : String
  pub args : String

-- The map `pending`, by index.
abbrev pub Pending : Type 0
Pending = List (ℤ × PendingCall)

abbrev pub eq_ℤ : ℤ → ℤ → Bool
eq_ℤ a b = pos_part a == pos_part b && neg_part a == neg_part b

unfoldable pub find_call : ℤ → Pending → Option PendingCall
find_call i [] = none
find_call i ((j, c) ∷ p) = if eq_ℤ j i then some c else find_call i p

unfoldable pub put_call : ℤ → PendingCall → Pending → Pending
put_call i c [] = (i, c) ∷ []
put_call i c ((j, d) ∷ p) = if eq_ℤ j i then (j, c) ∷ p else (j, d) ∷ put_call i c p

unfoldable pub delete_call : ℤ → Pending → Pending
delete_call i [] = []
delete_call i ((j, c) ∷ p) = if eq_ℤ j i then p else (j, c) ∷ delete_call i p

-- The fields of `stream`, with the error that closing the body will give.
pub record Decoder : Type 0 where
  pub provider : String
  pub close_err : GoError
  pub reader : Reader
  pub event : StreamEvent
  pub err : GoError
  pub pending : Pending
  pub order : List ℤ
  pub usage : Usage
  pub stop_reason : StopReason
  pub flushed : Bool
  pub done : Bool
  pub saw_terminal : Bool
  pub closed : Bool

-- `&stream{…}` as `Stream` makes it.
unfoldable pub new_decoder : String → GoError → Reader → Decoder
new_decoder provider close_err reader = record {
  provider = provider;
  close_err = close_err;
  reader = reader;
  event = zero_stream_event text_delta;
  err = GoError.nil;
  pending = [];
  order = [];
  usage = no_usage;
  stop_reason = "";
  flushed = false;
  done = false;
  saw_terminal = false;
  closed = false;
}

abbrev pub index_of : Option ℤ → ℤ
index_of none = pos 0
index_of (some i) = i

abbrev pub or_old : String → String → String
or_old new old = if is_empty new then old else new

unfoldable pub merge_call : WireToolCall → PendingCall → PendingCall
merge_call w c = record {
  id = or_old w.id c.id;
  name = or_old w.name c.name;
  args = c.args <> w.arguments;
}

-- `accumulate` on the map and the order, by what the map holds at the index.
unfoldable pub accumulate_at :
    ℤ → WireToolCall → Option PendingCall → Pending × List ℤ → Pending × List ℤ
unfolding put_call merge_call
accumulate_at i w none (p, order) =
    (put_call i (merge_call w (record { id = ""; name = ""; args = "" })) p, order ++ (i ∷ []))
accumulate_at i w (some c) (p, order) = (put_call i (merge_call w c) p, order)

unfoldable pub accumulate : WireToolCall → Pending × List ℤ → Pending × List ℤ
unfolding find_call accumulate_at
accumulate w s = let i = index_of w.index in accumulate_at i w (find_call i s.0) s

unfoldable pub accumulate_all : List WireToolCall → Pending × List ℤ → Pending × List ℤ
unfolding accumulate
accumulate_all [] s = s
accumulate_all (w ∷ ws) s = accumulate_all ws (accumulate w s)

-- The loop of `finish`: the first buffered call that has a name, with what is left behind it.
pub data Drained : Type 0 where
  emitted : ToolCall → Pending → List ℤ → Drained
  emptied : Pending → Drained

-- A call that is whole; one without a name is dropped.
unfoldable pub whole_call : Option PendingCall → Option ToolCall
unfolding or_no_arguments
whole_call none = none
whole_call (some c) =
    if is_empty c.name
    then none
    else some (record { id = c.id; name = c.name; arguments = or_no_arguments c.args })

unfoldable pub drain_calls : Pending → List ℤ → Drained
unfolding whole_call find_call delete_call
drain_calls p [] = emptied p
drain_calls p (i ∷ order) = elim (whole_call (find_call i p)) [
  | none ↦ drain_calls (delete_call i p) order
  | some c ↦ emitted c (delete_call i p) order
]

abbrev pub call_event : ToolCall → StreamEvent
call_event c = record (zero_stream_event tool_call_event) { tool_call = some c }

abbrev pub done_event : Usage → StopReason → StreamEvent
done_event usage reason = record (zero_stream_event done) {
  usage = some usage;
  stop_reason = if is_empty reason then stop_unknown else reason;
}

-- `finish`, behind its loop.
unfoldable pub finish_drained : Decoder → Drained → Bool × Decoder
finish_drained s (emitted c p order) =
    (true, record s { pending = p; order = order; event = call_event c })
finish_drained s (emptied p) =
    if s.flushed then (false, record s { pending = p; order = []; done = true }) else (
      true,
      record s {
        pending = p;
        order = [];
        flushed = true;
        event = done_event s.usage s.stop_reason;
      },
    )

unfoldable pub finish : Decoder → Bool × Decoder
unfolding drain_calls finish_drained
finish s = finish_drained s (drain_calls s.pending s.order)

-- What one frame does to the loop of `Next`: another round, or a return.
pub data Progress : Type 0 where
  go_on : Decoder → Progress
  return : Bool → Decoder → Progress

unfoldable pub with_usage : WireUsage → Decoder → Decoder
unfolding usage_from_wire
with_usage u s =
    if ltb_ℤ (pos 0) u.prompt_tokens || ltb_ℤ (pos 0) u.completion_tokens
    then record s { usage = usage_from_wire u }
    else s

unfoldable pub with_reason : String → Decoder → Decoder
unfolding map_finish_reason
with_reason reason s =
    if is_empty reason
    then s
    else record s { stop_reason = map_finish_reason reason; saw_terminal = true }

unfoldable pub with_calls : List WireToolCall → Decoder → Decoder
unfolding accumulate_all
with_calls ws s =
    let (p, order) = accumulate_all ws (s.pending, s.order) in
    record s { pending = p; order = order }
