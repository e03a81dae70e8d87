-- ===== src/Stream/Collecting.antt =====
-- `CollectStream` gives the message that the events of the stream spell out.
use skyl.Prelude.{
  ℕ, zero, suc, ◌<◌, String, ◌≡◌, refl, sym, ap, ◌∙◌, true, false, List, [], ◌∷◌, ◌++◌, append-nil,
  append_assoc, length, Option, none, some, is_empty, ◌<>◌, concat, empty-<>, <>-empty, <>_assoc,
  Bool-cases, inl, inr, if◌then◌else◌, arith, eq_iff,
}
use skyl.Errors.{is_nil}
use skyl.Message.{ToolCall, Part, text, message_text, message_tool_calls, tool_calls_of}
use skyl.Message.Laws.{texts, message_text-concat}
use skyl.Response.{Response}
use skyl.Stream.{
  EventType, text_delta, tool_call_event, StreamEvent, StreamOps, Collected, nothing_collected,
  add_call, collect_event, call_parts, assemble, drain, collect_stream,
}

-- The text of a text event, and nothing for any other.
abbrev pub delta_text : EventType → StreamEvent → List String → List String
delta_text text_delta ev rest = ev.text ∷ rest
delta_text _ ev rest = rest

abbrev pub delta_texts : List StreamEvent → List String
delta_texts [] = []
delta_texts (ev ∷ evs) = delta_text ev.kind ev (delta_texts evs)

abbrev pub event_call : EventType → StreamEvent → List ToolCall
event_call tool_call_event ev = add_call [] ev.tool_call
event_call _ ev = []

abbrev pub event_calls : List StreamEvent → List ToolCall
event_calls [] = []
event_calls (ev ∷ evs) = event_call ev.kind ev ++ event_calls evs

-- The variables of the loop behind these events.
abbrev pub collect_all : Collected → List StreamEvent → Collected
collect_all c [] = c
collect_all c (ev ∷ evs) = collect_all (collect_event c ev.kind ev) evs

module _ {S : Type 0} (ops : StreamOps S) where
  -- From `s` the stream gives these events and then reports its end in `s'`.
  abbrev pub Yields : S → List StreamEvent → S → Type 0
  Yields s [] s' = ops.next s ≡ (false, s')
  Yields s (ev ∷ evs) s' = (t : S) × (ops.next s ≡ (true, t)) × (ops.event t ≡ ev) × Yields t evs s'

  -- With more fuel than events the loop ends, behind all events.
  pub drain-Yields :
      (fuel : ℕ) (c : Collected) (s : S) (evs : List StreamEvent) (s' : S)
      → Yields s evs s'
      → length evs < fuel
      → drain ops fuel c s ≡ some (collect_all c evs, s')
  unfolding drain
  drain-Yields zero c s evs s' y h = absurd (omega arith)
  drain-Yields (suc fuel) c s [] s' y h = rw (y, drain)
  drain-Yields (suc fuel) c s (ev ∷ evs) s' (t, n, e, y) h =
      rw (n, drain) (rw e (drain-Yields fuel (collect_event c ev.kind ev) t evs s' y (omega arith)))

collect_event-text :
    (c : Collected) (k : EventType) (ev : StreamEvent) (rest : List String)
    → (collect_event c k ev).text <> concat rest ≡ c.text <> concat (delta_text k ev rest)
unfolding collect_event
collect_event-text c text_delta ev rest = <>_assoc c.text ev.text (concat rest)
collect_event-text c _ ev rest = refl

text-collect_all :
    (c : Collected) (evs : List StreamEvent)
    → (collect_all c evs).text ≡ c.text <> concat (delta_texts evs)
text-collect_all c [] = sym (<>-empty c.text)
text-collect_all c (ev ∷ evs) =
    text-collect_all (collect_event c ev.kind ev) evs
    ∙ collect_event-text c ev.kind ev (delta_texts evs)

add_call-append :
    (calls : List ToolCall) (o : Option ToolCall) → add_call calls o ≡ calls ++ add_call [] o
add_call-append calls none = sym (append-nil calls)
add_call-append calls (some c) = refl

collect_event-calls :
    (c : Collected) (k : EventType) (ev : StreamEvent)
    → (collect_event c k ev).calls ≡ c.calls ++ event_call k ev
unfolding collect_event
collect_event-calls c tool_call_event ev = add_call-append c.calls ev.tool_call
collect_event-calls c _ ev = sym (append-nil c.calls)

calls-collect_all :
    (c : Collected) (evs : List StreamEvent)
    → (collect_all c evs).calls ≡ c.calls ++ event_calls evs
calls-collect_all c [] = sym (append-nil c.calls)
calls-collect_all c (ev ∷ evs) =
    calls-collect_all (collect_event c ev.kind ev) evs
    ∙ ap (λ t. t ++ event_calls evs) (collect_event-calls c ev.kind ev)
    ∙ append_assoc c.calls (event_call ev.kind ev) (event_calls evs)

texts-call_parts : (cs : List ToolCall) → texts (call_parts cs) ≡ []
texts-call_parts [] = refl
texts-call_parts (c ∷ cs) = texts-call_parts cs

tool_calls_of-call_parts : (cs : List ToolCall) → tool_calls_of (call_parts cs) ≡ cs
unfolding tool_calls_of
tool_calls_of-call_parts [] = refl
tool_calls_of-call_parts (c ∷ cs) = ap (λ t. c ∷ t) (tool_calls_of-call_parts cs)

-- The parts of the assembled message.
abbrev reply_parts : String → List ToolCall → List Part
reply_parts t cs = if is_empty t then call_parts cs else text t ∷ call_parts cs

concat-reply_parts : (t : String) (cs : List ToolCall) → concat (texts (reply_parts t cs)) ≡ t
concat-reply_parts t cs = elim (Bool-cases (is_empty t)) [
  | inl e ↦ rw (e, texts-call_parts cs) (sym ((eq_iff t "").0 e))
  | inr e ↦ rw (e, texts-call_parts cs) (<>-empty t)
]

tool_calls_of-reply_parts :
    (t : String) (cs : List ToolCall) → tool_calls_of (reply_parts t cs) ≡ cs
unfolding tool_calls_of
tool_calls_of-reply_parts t cs = elim (Bool-cases (is_empty t)) [
  | inl e ↦ rw e (tool_calls_of-call_parts cs)
  | inr e ↦ rw e (tool_calls_of-call_parts cs)
]

message_text-assemble :
    (p m : String) (c : Collected) → message_text (assemble p m c).message ≡ c.text
unfolding assemble
message_text-assemble p m c =
    message_text-concat (assemble p m c).message ∙ concat-reply_parts c.text c.calls

message_tool_calls-assemble :
    (p m : String) (c : Collected) → message_tool_calls (assemble p m c).message ≡ c.calls
unfolding assemble message_tool_calls
message_tool_calls-assemble p m c = tool_calls_of-reply_parts c.text c.calls

-- With more fuel than events, a stream that ends without error is collected into a response whose
-- text is the concatenation of the text fragments and whose tool calls are those of the events, in
-- order; a stream that fails gives its error and no response. Either way the stream is closed.
pub collect_stream-Yields :
    {S : Type 0} (ops : StreamOps S) (fuel : ℕ) (p m : String) (s : S) (evs : List StreamEvent)
    (s' : S)
    → Yields ops s evs s'
    → length evs < fuel
    → (is_nil (ops.err s') ≡ true
        → (r : Response) × (collect_stream ops fuel p m s
            ≡ some (some r, ops.err s', (ops.close s').1))
          × (message_text r.message ≡ concat (delta_texts evs))
          × (message_tool_calls r.message ≡ event_calls evs))
      × (is_nil (ops.err s') ≡ false
          → collect_stream ops fuel p m s ≡ some (none, ops.err s', (ops.close s').1))
unfolding collect_stream
collect_stream-Yields ops fuel p m s evs s' y h =
    let d = drain-Yields ops fuel nothing_collected s evs s' y h in
    let c = collect_all nothing_collected evs in
    (
      λ fine. (
        assemble p m c,
        rw (d, collect_stream, fine),
        message_text-assemble p m c
            ∙ text-collect_all nothing_collected evs
            ∙ empty-<> (concat (delta_texts evs)),
        message_tool_calls-assemble p m c ∙ calls-collect_all nothing_collected evs,
      ),
      λ bad. rw (d, collect_stream, bad),
    )
