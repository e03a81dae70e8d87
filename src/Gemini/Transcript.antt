-- ===== src/Gemini/Transcript.antt =====
-- The events that the decoder of the Gemini adapter gives for a whole reply, and for one that breaks off.
use skyl.Prelude.{◌≡◌, refl, ap, ◌∙◌, true, false, List, [], ◌∷◌, ◌++◌, append_assoc, All}
use skyl.Errors.{GoError, is_nil}
use skyl.Stream.{StreamEvent}
use skyl.Stream.Collecting.{Yields}
use skyl.Sse.{Event, Reader, next}
use skyl.Sse.Encoding.{Delivers}
use skyl.Sse.Pump.{run, run_loop, proceed}
use skyl.Gemini.{Library}
use skyl.Gemini.Decoder.{Decoder, at_end, machine, decode_next, decoder_ops, from_queue, serve}
use skyl.Gemini.Frames.{
  Ledger, enter, holding, chunk_of, chunk_events, IsFrame, frame_events, enter_all,
  on_frame-holding, on_frame-KeepsReader,
}

module _ (lib : Library) (close_err : GoError) where
  -- With an empty queue, `Next` reads one event, and goes on where that has nothing to give.
  next_more :
      (r : Reader) (ev : StreamEvent) (l : Ledger) (e : Event)
      → (next r).0 ≡ true
      → (next r).1.event ≡ e
      → IsFrame lib e
      → run (machine lib) (holding close_err r ev [] l)
        ≡ proceed
            (serve
              (chunk_events lib e.payload (chunk_of lib e))
              (holding close_err (next r).1 ev [] (enter (chunk_of lib e) l)))
            (run (machine lib))
  next_more r ev l e more given frame =
      run_loop (machine lib) (on_frame-KeepsReader lib) (holding close_err r ev [] l)
      ∙ rw (more, given)
          (ap (λ p. proceed p (run (machine lib)))
            (on_frame-holding lib close_err (next r).1 ev e l frame))

  pub next_end :
      (s : Decoder)
      → (next s.reader).0 ≡ false
      → run (machine lib) s ≡ at_end lib (record s { reader = (next s.reader).1 })
  next_end s ended = run_loop (machine lib) (on_frame-KeepsReader lib) s ∙ rw ended refl

  -- What is in the queue comes first.
  Yields-queued :
      (q : List StreamEvent) (r : Reader) (ev : StreamEvent) (l : Ledger)
      → (last : StreamEvent) × ((out : List StreamEvent) (s' : Decoder)
          → Yields (decoder_ops lib) (holding close_err r last [] l) out s'
          → Yields (decoder_ops lib) (holding close_err r ev q l) (q ++ out) s')
  unfolding decoder_ops decode_next from_queue is_nil
  Yields-queued [] r ev l = (ev, λ out s' y. y)
  Yields-queued (e ∷ q) r ev l =
      let (last, more) = Yields-queued q r e l in
      (last, λ out s' y. (holding close_err r e q l, refl, refl, more out s' y))

  -- The decoder behind some frames: what its reader still delivers, and that the events of the frames
  -- come in front of what it gives.
  pub record IsPast (s : Decoder) (evs more : List Event) (l : Ledger) : Type 0 where
    pub reader : Reader
    pub last : StreamEvent
    pub delivers : Delivers reader more
    pub yields :
        (out : List StreamEvent) (s' : Decoder)
        → Yields (decoder_ops lib) (holding close_err reader last [] (enter_all lib evs l)) out s'
        → Yields (decoder_ops lib) s (frame_events lib evs ++ out) s'

  Yields-same :
      (s t : Decoder) (out : List StreamEvent) (s' : Decoder)
      → decode_next lib s ≡ decode_next lib t
      → Yields (decoder_ops lib) t out s'
      → Yields (decoder_ops lib) s out s'
  unfolding decoder_ops
  Yields-same s t [] s' e y = e ∙ y
  Yields-same s t (ev ∷ evs) s' e (u, n, same, rest) = (u, e ∙ n, same, rest)

  -- The events of one chunk come in front of what the decoder gives behind it.
  Yields-chunk :
      (q : List StreamEvent) (r r' : Reader) (ev : StreamEvent) (l l' : Ledger)
      → run (machine lib) (holding close_err r ev [] l)
        ≡ proceed (serve q (holding close_err r' ev [] l')) (run (machine lib))
      → (last : StreamEvent) × ((out : List StreamEvent) (s' : Decoder)
          → Yields (decoder_ops lib) (holding close_err r' last [] l') out s'
          → Yields (decoder_ops lib) (holding close_err r ev [] l) (q ++ out) s')
  unfolding decoder_ops decode_next from_queue is_nil serve
  Yields-chunk [] r r' ev l l' step = (
    ev,
    λ out s' y.
        Yields-same (holding close_err r ev [] l) (holding close_err r' ev [] l') out s' step y,
  )
  Yields-chunk (e ∷ q) r r' ev l l' step =
      let (last, more) = Yields-queued q r' e l' in
      (last, λ out s' y. (holding close_err r' e q l', step, refl, more out s' y))

  pub IsPast-frames :
      (evs more : List Event) (r : Reader) (ev : StreamEvent) (l : Ledger)
      → Delivers r (evs ++ more)
      → All (IsFrame lib) evs
      → IsPast (holding close_err r ev [] l) evs more l
  IsPast-frames [] more r ev l d frames = record {
    reader = r;
    last = ev;
    delivers = d;
    yields = λ out s' y. y;
  }
  IsPast-frames (e ∷ evs) more r ev l (some_more, given, d) frames =
      let (last, front) =
        Yields-chunk (chunk_events lib e.payload (chunk_of lib e)) r (next r).1 ev l
          (enter (chunk_of lib e) l) (next_more r ev l e some_more given frames.0) in
      let past = IsPast-frames evs more (next r).1 last (enter (chunk_of lib e) l) d frames.1 in
      record {
        reader = past.reader;
        last = past.last;
        delivers = past.delivers;
        yields = λ out s' y.
            rw
              (append_assoc (chunk_events lib e.payload (chunk_of lib e)) (frame_events lib evs)
                out)
              (front (frame_events lib evs ++ out) s' (past.yields out s' y));
      }
