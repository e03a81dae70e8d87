-- ===== src/Gemini/Reach.antt =====
-- The terminal event and the flags of the decoder.
use skyl.Prelude.{
  suc, String, ◌≡◌, refl, Bool, true, not, ◌&&◌, ◌||◌, List, [], ◌∷◌, ◌++◌, null, Option, none,
  some, is_empty, Bool-cases, inl, inr, Bytes, arith,
}
use skyl.Errors.{GoError, is_nil}
use skyl.Message.{Part, text, image, tool_call, tool_result, nil}
use skyl.Stream.{StreamEvent, is_terminal}
use skyl.Sse.{Reader}
use skyl.Sse.Supply.{supply}
use skyl.Sse.Pump.{Progress, After, pump-After, run}
use skyl.Gemini.{Library, WireResponse, Candidate, parts_from_candidate}
use skyl.Gemini.Decoder.{
  Decoder, new_decoder, with_usage, with_reason, serve, part_events, on_candidate, on_candidates,
  on_error, on_chunk, on_frame, at_end, machine, from_queue, decode_next, decoder_close,
}

-- The states that a caller brings about from a state, by `Next` and `Close` in any order.
pub data Reaches (lib : Library) (s : Decoder) : Decoder → Type 0 where
  start : Reaches lib s s
  read_on : (t : Decoder) → Reaches lib s t → Reaches lib s (decode_next lib t).1
  shut : (t : Decoder) → Reaches lib s t → Reaches lib s (decoder_close t).1

-- No event of the queue is terminal.
abbrev plain : List StreamEvent → Bool
plain [] = true
plain (ev ∷ evs) = not (is_terminal ev.kind) && plain evs

-- The terminal event was given only with its flag set, the flag was set only behind a finish reason,
-- and no terminal event waits.
abbrev honest : Decoder → Bool
honest s =
    (not s.flushed || s.saw_terminal)
    && (not (is_terminal s.event.kind) || s.flushed)
    && plain s.queued

abbrev IsHonest : Decoder → Type 0
IsHonest s = honest s ≡ true

plain-append : (p q : List StreamEvent) → plain p ≡ true → plain q ≡ true → plain (p ++ q) ≡ true
plain-append [] q hp hq = hq
plain-append (e ∷ p) q hp hq = ground (arith, plain-append p q)

module _ (lib : Library) where
  plain-part_events : (frame : Bytes) (ps : List Part) → plain (part_events lib frame ps) ≡ true
  unfolding part_events
  plain-part_events frame [] = refl
  plain-part_events frame (text t ∷ ps) = plain-part_events frame ps
  plain-part_events frame (tool_call c ∷ ps) = plain-part_events frame ps
  plain-part_events frame (image v ∷ ps) = plain-part_events frame ps
  plain-part_events frame (tool_result r ∷ ps) = plain-part_events frame ps
  plain-part_events frame (nil ∷ ps) = plain-part_events frame ps

  abbrev HonestAfter : Progress Decoder → Type 0
  HonestAfter p = After (machine lib) IsHonest p

  serve-IsHonest :
      (evs : List StreamEvent) (s : Decoder)
      → IsHonest s
      → plain evs ≡ true
      → HonestAfter (serve evs s)
  unfolding serve
  serve-IsHonest [] s h q = (ground arith)
  serve-IsHonest (ev ∷ evs) s h q = (ground arith)

  with_reason-IsHonest :
      (reason : String) (b : Bool) (s : Decoder) → IsHonest s → IsHonest (with_reason reason b s)
  unfolding with_reason
  with_reason-IsHonest reason b s h = elim (Bool-cases (is_empty reason)) [
    | inl e ↦ rw e h
    | inr e ↦ rw e (ground arith)
  ]

  on_candidates-IsHonest :
      (frame : Bytes) (cs : List Candidate) (s : Decoder)
      → IsHonest s
      → HonestAfter (on_candidates lib frame cs s)
  unfolding on_candidates on_candidate
  on_candidates-IsHonest frame [] s h = h
  on_candidates-IsHonest frame (c ∷ cs) s h =
      serve-IsHonest _ _ (with_reason-IsHonest c.finish_reason _ s h) (
        plain-append s.queued _ (ground arith)
          (plain-part_events frame (parts_from_candidate c.content).0))

  on_error-IsHonest :
      (frame : Bytes) (e : Option String) (w : WireResponse) (s : Decoder)
      → IsHonest s
      → HonestAfter (on_error lib frame e w s)
  unfolding on_error with_usage
  on_error-IsHonest frame (some msg) w s h = h
  on_error-IsHonest frame none w s h =
      on_candidates-IsHonest frame w.candidates (with_usage w.usage s) (ground arith)

  on_chunk-IsHonest :
      (frame : Bytes) (w : Option WireResponse) (s : Decoder)
      → IsHonest s
      → HonestAfter (on_chunk lib frame w s)
  unfolding on_chunk
  on_chunk-IsHonest frame none s h = h
  on_chunk-IsHonest frame (some w) s h = on_error-IsHonest frame w.error w s h

  on_frame-IsHonest :
      (frame : Bytes) (r : Reader) (s : Decoder)
      → IsHonest s
      → HonestAfter (on_frame lib frame (record s { reader = r }))
  unfolding on_frame
  on_frame-IsHonest frame r s h = elim (Bool-cases (null frame)) [
    | inl e ↦ rw e h
    | inr e ↦ rw e (on_chunk-IsHonest frame (lib.decode_response frame) (record s { reader = r }) h)
  ]

  at_end-IsHonest :
      (r : Reader) (s : Decoder) → IsHonest s → IsHonest (at_end lib (record s { reader = r })).1
  unfolding at_end
  at_end-IsHonest r s h = elim (Bool-cases (not (is_nil r.err))) [
    | inl e ↦ rw e h
    | inr e ↦ elim (Bool-cases (not s.saw_terminal && not s.flushed)) [
      | inl cut ↦ rw (e, cut) h
      | inr whole ↦ elim (Bool-cases (not s.flushed)) [
        | inl f ↦ rw (e, whole, f) (ground arith)
        | inr f ↦ rw (e, whole, f) h
      ]
    ]
  ]

  from_queue-IsHonest :
      (q : List StreamEvent) (s : Decoder)
      → IsHonest s
      → plain q ≡ true
      → IsHonest (from_queue lib q s).1
  unfolding from_queue run
  from_queue-IsHonest [] s h p =
      pump-After (machine lib) IsHonest on_frame-IsHonest at_end-IsHonest (suc (supply s.reader)) s
        h
  from_queue-IsHonest (ev ∷ evs) s h p = (ground arith)

  decode_next-IsHonest : (s : Decoder) → IsHonest s → IsHonest (decode_next lib s).1
  unfolding decode_next
  decode_next-IsHonest s h = elim (Bool-cases (s.done || not (is_nil s.err))) [
    | inl e ↦ rw e h
    | inr e ↦ rw e (from_queue-IsHonest s.queued s h (ground arith))
  ]

  decoder_close-IsHonest : (s : Decoder) → IsHonest s → IsHonest (decoder_close s).1
  unfolding decoder_close
  decoder_close-IsHonest s h = elim (Bool-cases s.closed) [ inl e ↦ rw e h | inr e ↦ rw e h ]

  Reaches-IsHonest : (s t : Decoder) → Reaches lib s t → IsHonest s → IsHonest t
  Reaches-IsHonest s _ start h = h
  Reaches-IsHonest s _ (read_on t r) h = decode_next-IsHonest t (Reaches-IsHonest s t r h)
  Reaches-IsHonest s _ (shut t r) h = decoder_close-IsHonest t (Reaches-IsHonest s t r h)

  -- The terminal event is shown only with the flag set.
  pub done-Reaches :
      (close_err : GoError) (reader : Reader) (t : Decoder)
      → Reaches lib (new_decoder close_err reader) t
      → is_terminal t.event.kind ≡ true
      → t.saw_terminal ≡ true
  unfolding new_decoder
  done-Reaches close_err reader t r e =
      let h = Reaches-IsHonest (new_decoder close_err reader) t r refl in ground arith
