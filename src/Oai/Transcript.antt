-- ===== src/Oai/Transcript.antt =====
-- The events that the decoder gives for a whole reply, and for a reply that breaks off.
use skyl.Prelude.{◌≡◌, refl, ap, ◌∙◌, false, List, [], ◌∷◌, ◌++◌, All}
use skyl.Stream.{StreamEvent}
use skyl.Stream.Collecting.{Yields}
use skyl.Sse.{Event, next}
use skyl.Sse.Encoding.{Delivers}
use skyl.Oai.{Library}
use skyl.Oai.Decoder.{Decoder, Progress, go_on, return}
use skyl.Oai.Loop.{on_frame, proceed, on_read, decode_next, decoder_ops}
use skyl.Oai.Fuel.{Live, decode_loop, Keeps, on_frame-Keeps}
use skyl.Oai.Frames.{
  ledger, enter, chunk_text, chunk_of, IsFrame, text_events, enter_all, Reads, on_frame-Reads,
}

module _ (lib : Library) where
  -- A decoder that has neither failed nor given its terminal event.
  pub record IsOpen (s : Decoder) : Type 0 where
    pub live : Live lib s
    pub unflushed : s.flushed ≡ false

  -- The decoder behind some frames: what it has read, what its reader still delivers, and that the
  -- texts of the frames come in front of what it gives.
  pub record IsPast (s : Decoder) (evs more : List Event) : Type 0 where
    pub behind : Decoder
    pub still : IsOpen behind
    pub told : ledger behind ≡ enter_all lib evs (ledger s)
    pub delivers : Delivers behind.reader more
    pub yields :
        (out : List StreamEvent) (s' : Decoder)
        → Yields (decoder_ops lib) behind out s'
        → Yields (decoder_ops lib) s (text_events lib evs ++ out) s'

  Yields-same :
      (s t : Decoder) (out : List StreamEvent) (s' : Decoder)
      → decode_next lib s ≡ decode_next lib t
      → Yields (decoder_ops lib) t out s'
      → Yields (decoder_ops lib) s out s'
  unfolding decoder_ops
  Yields-same s t [] s' e y = e ∙ y
  Yields-same s t (ev ∷ evs) s' e (u, n, same, rest) = (u, e ∙ n, same, rest)

  -- One frame in front of the frames for which the claim holds already.
  IsPast-frame :
      (s : Decoder) (ev : Event) (evs more : List Event) (p : Progress)
      → IsOpen s
      → Reads lib
          (record s { reader = (next s.reader).1 })
          ev.payload
          (chunk_text (chunk_of lib ev))
          (enter (chunk_of lib ev) (ledger s))
          p
      → Keeps (record s { reader = (next s.reader).1 }) p
      → decode_next lib s ≡ proceed lib p (decode_next lib)
      → Delivers (next s.reader).1 (evs ++ more)
      → ((t : Decoder) → IsOpen t → Delivers t.reader (evs ++ more) → IsPast t evs more)
      → IsPast s (ev ∷ evs) more
  unfolding proceed decoder_ops
  IsPast-frame s ev evs more (go_on t) h (silent, told) k step d ih =
      let past =
        ih t
          (record {
            live = (k.over ∙ h.live.0, k.err ∙ h.live.1);
            unflushed = k.flushed ∙ h.unflushed;
          })
          (rw k.reader d) in
      record {
        behind = past.behind;
        still = past.still;
        told = past.told ∙ ap (enter_all lib evs) told;
        delivers = past.delivers;
        yields = λ out s' y. rw silent (Yields-same s t _ s' step (past.yields out s' y));
      }
  IsPast-frame s ev evs more (return b t) h (loud, went, same, told, r, e, o, f) k step d ih =
      let past =
        ih t (record { live = (o ∙ h.live.0, e ∙ h.live.1); unflushed = f ∙ h.unflushed })
          (rw r d) in
      record {
        behind = past.behind;
        still = past.still;
        told = past.told ∙ ap (enter_all lib evs) told;
        delivers = past.delivers;
        yields = λ out s' y. rw loud (t, step ∙ ap (λ x. (x, t)) went, same, past.yields out s' y);
      }

  pub IsPast-frames :
      (evs more : List Event) (s : Decoder)
      → IsOpen s
      → Delivers s.reader (evs ++ more)
      → All (IsFrame lib) evs
      → IsPast s evs more
  unfolding on_read
  IsPast-frames [] more s h d frames = record {
    behind = s;
    still = h;
    told = refl;
    delivers = d;
    yields = λ out s' y. y;
  }
  IsPast-frames (ev ∷ evs) more s h (some_more, given, d) frames =
      let t = record s { reader = (next s.reader).1 } in
      IsPast-frame s ev evs more (on_frame lib ev.payload t) h (on_frame-Reads lib ev t frames.0)
        (on_frame-Keeps lib ev.payload t) (decode_loop lib s h.live ∙ rw (some_more, given) refl) d
        (λ u o d'. IsPast-frames evs more u o d' frames.1)
