-- ===== src/Oai/Finish.antt =====
-- What the decoder gives once its reader has ended: the buffered calls, the terminal event, the end.
use skyl.Prelude.{
  ◌≡◌, refl, ap, ◌∙◌, Bool, true, false, List, [], ◌∷◌, ◌++◌, map, Option, none, some, ℤ,
  Option-cases, inl, inr,
}
use skyl.Errors.{GoError, is_nil}
use skyl.Message.{ToolCall}
use skyl.Response.{Usage, StopReason}
use skyl.Stream.{StreamEvent}
use skyl.Stream.Collecting.{Yields}
use skyl.Sse.{next}
use skyl.Sse.Latch.{next_latches}
use skyl.Oai.{Library}
use skyl.Oai.Decoder.{
  Decoder, Pending, find_call, delete_call, whole_call, drain_calls, call_event, done_event, finish,
  finish_drained,
}
use skyl.Oai.Loop.{at_end, on_read, decode_next, decoder_ops}
use skyl.Oai.Fuel.{Live, decode_loop}

-- The calls that are buffered, in the order of their first fragments, less those without a name.
abbrev pub or_dropped : Option ToolCall → List ToolCall → List ToolCall
or_dropped none cs = cs
or_dropped (some c) cs = c ∷ cs

unfoldable pub whole_calls : Pending → List ℤ → List ToolCall
unfolding whole_call find_call delete_call
whole_calls p [] = []
whole_calls p (i ∷ order) =
    or_dropped (whole_call (find_call i p)) (whole_calls (delete_call i p) order)

-- The events that close a reply.
abbrev pub closing_events : List ToolCall → Usage → StopReason → List StreamEvent
closing_events calls usage reason = map call_event calls ++ (done_event usage reason ∷ [])

module _ (lib : Library) where
  -- The reader is at its end without error, and the reply is complete.
  pub record IsSettled (s : Decoder) : Type 0 where
    pub live : Live lib s
    pub ended : (next s.reader).0 ≡ false
    pub clean : (next s.reader).1.err ≡ GoError.nil
    pub terminal : s.saw_terminal ≡ true

  -- A decoder that gives these events and then ends without error.
  abbrev pub Completes : Decoder → List StreamEvent → Type 0
  Completes s evs = (s' : Decoder) × Yields (decoder_ops lib) s evs s' × (s'.err ≡ GoError.nil)

  -- The result of `Next` in front of these events.
  abbrev Follows : Bool × Decoder → List StreamEvent → Type 0
  Follows (more, t) [] = (more ≡ false) × (t.err ≡ GoError.nil)
  Follows (more, t) (ev ∷ evs) = (more ≡ true) × (t.event ≡ ev) × Completes t evs

  pub settle :
      (s : Decoder)
      → IsSettled s
      → decode_next lib s ≡ finish (record s { reader = (next s.reader).1 })
  unfolding on_read at_end is_nil
  settle s h = decode_loop lib s h.live ∙ rw (h.ended, h.clean, h.terminal) refl

  pub Completes-Follows :
      (s : Decoder) (evs : List StreamEvent) → Follows (decode_next lib s) evs → Completes s evs
  unfolding decoder_ops
  Completes-Follows s [] f = ((decode_next lib s).1, ap (λ b. (b, (decode_next lib s).1)) f.0, f.1)
  Completes-Follows s (ev ∷ evs) f =
      let (s', y, clean) = f.2 in
      (s', ((decode_next lib s).1, ap (λ b. (b, (decode_next lib s).1)) f.0, f.1, y), clean)

  abbrev advance : Decoder → Decoder
  advance s = record s { reader = (next s.reader).1 }

  advance-IsSettled : (s : Decoder) → IsSettled s → IsSettled (advance s)
  advance-IsSettled s h =
      let again = next_latches s.reader h.ended in
      record {
        live = h.live;
        ended = rw again refl;
        clean = rw again h.clean;
        terminal = h.terminal;
      }

  -- The state behind a buffered call is settled as well.
  resettle :
      (s : Decoder) (p : Pending) (order : List ℤ) (ev : StreamEvent)
      → IsSettled s
      → IsSettled (record s { pending = p; order = order; event = ev })
  resettle s p order ev h = record {
    live = h.live;
    ended = h.ended;
    clean = h.clean;
    terminal = h.terminal;
  }

  abbrev after_done : Decoder → Pending → Decoder
  after_done s p = record s {
    pending = p;
    order = [];
    flushed = true;
    event = done_event s.usage s.stop_reason;
  }

  after_done-Completes : (s : Decoder) (p : Pending) → IsSettled s → Completes (after_done s p) []
  unfolding decoder_ops finish finish_drained drain_calls
  after_done-Completes s p h = (
    (finish (advance (after_done s p))).1,
    settle (after_done s p)
        (record { live = h.live; ended = h.ended; clean = h.clean; terminal = h.terminal }),
    h.live.1,
  )

  finish-Follows :
      (s : Decoder) (p : Pending) (order : List ℤ)
      → IsSettled s
      → s.flushed ≡ false
      → Follows
          (finish_drained s (drain_calls p order))
          (closing_events (whole_calls p order) s.usage s.stop_reason)
  unfolding finish_drained drain_calls finish whole_calls
  finish-Follows s p [] h f = rw f (refl, refl, after_done-Completes s p h)
  finish-Follows s p (i ∷ order) h f = elim (Option-cases (whole_call (find_call i p))) [
    | inl e ↦ rw (e, drain_calls) (finish-Follows s (delete_call i p) order h f)
    | inr (c, e) ↦
        let t = record s { pending = delete_call i p; order = order; event = call_event c } in
        let settled = resettle s (delete_call i p) order (call_event c) h in
        rw (e, drain_calls)
          (
            refl,
            refl,
            Completes-Follows t
                (closing_events (whole_calls (delete_call i p) order) s.usage s.stop_reason)
                (rw (settle t settled, finish)
                  (finish-Follows (advance t) (delete_call i p) order (advance-IsSettled t settled)
                    f)),
          )
  ]

  -- What `finish` starts on a settled decoder: the buffered calls, the terminal event, the end.
  pub finish-Completes :
      (s t : Decoder)
      → IsSettled t
      → t.flushed ≡ false
      → decode_next lib s ≡ finish t
      → Completes s (closing_events (whole_calls t.pending t.order) t.usage t.stop_reason)
  unfolding finish
  finish-Completes s t h f e =
      Completes-Follows s (closing_events (whole_calls t.pending t.order) t.usage t.stop_reason)
        (rw e (finish-Follows t t.pending t.order h f))

  -- Behind the end of its reader, a decoder gives its buffered calls, the terminal event, and the end.
  pub settled-Completes :
      (s : Decoder)
      → IsSettled s
      → s.flushed ≡ false
      → Completes s (closing_events (whole_calls s.pending s.order) s.usage s.stop_reason)
  settled-Completes s h f = finish-Completes s (advance s) (advance-IsSettled s h) f (settle s h)
