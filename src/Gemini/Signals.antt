-- ===== src/Gemini/Signals.antt =====
-- A reply of the Gemini API is complete only if its chunks have said so.
use mathlib.Core.Path.{subst}
use skyl.Prelude.{
  ℕ, zero, suc, String, ◌≡◌, refl, sym, Bool, true, false, not, ◌&&◌, ◌||◌, List, [], ◌∷◌, null,
  Option, none, some, is_empty, Bool-cases, inl, inr, Bytes, arith,
}
use skyl.Errors.{GoError, is_nil}
use skyl.Stream.{StreamEvent, is_terminal}
use skyl.Sse.{Event, Reader, next}
use skyl.Sse.Supply.{supply}
use skyl.Sse.History.{Given-true, Given, nothing, further}
use skyl.Sse.Pump.{Progress, After, go_on, return, proceed, on_read, pump, run}
use skyl.Gemini.{Library, WireResponse, Candidate}
use skyl.Gemini.Decoder.{
  Decoder, new_decoder, with_usage, with_reason, serve, on_candidate, on_candidates, on_error,
  on_chunk, on_frame, at_end, machine, from_queue, decode_next, decoder_close,
}
use skyl.Gemini.Reach.{Reaches, start, read_on, shut, done-Reaches}

-- A chunk that ends a reply: its first candidate has a finish reason.
abbrev pub candidates_end : List Candidate → Bool
candidates_end [] = false
candidates_end (c ∷ cs) = not (is_empty c.finish_reason)

abbrev pub chunk_ends : Option WireResponse → Bool
chunk_ends none = false
chunk_ends (some w) = candidates_end w.candidates

abbrev pub is_signal : Library → Event → Bool
is_signal lib ev = chunk_ends (lib.decode_response ev.payload)

-- The reader stands at `r`, and the flag is set only if `k`.
abbrev IsMarked : Reader → Bool → Decoder → Type 0
IsMarked r k s = (s.reader ≡ r) × ((not s.saw_terminal || k) ≡ true)

module _ (r : Reader) (k : Bool) (lib : Library) where
  abbrev MarkedAfter : Progress Decoder → Type 0
  MarkedAfter p = After (machine lib) (IsMarked r k) p

  serve-IsMarked :
      (evs : List StreamEvent) (s : Decoder) → IsMarked r k s → MarkedAfter (serve evs s)
  unfolding serve
  serve-IsMarked [] s h = h
  serve-IsMarked (ev ∷ evs) s h = h

  on_candidates-IsMarked :
      (frame : Bytes) (cs : List Candidate) (s : Decoder)
      → IsMarked r k s
      → (not (candidates_end cs) || k) ≡ true
      → MarkedAfter (on_candidates lib frame cs s)
  unfolding on_candidates on_candidate with_reason
  on_candidates-IsMarked frame [] s h e = h
  on_candidates-IsMarked frame (c ∷ cs) s h e =
      serve-IsMarked _ _ (elim (Bool-cases (is_empty c.finish_reason)) [
        | inl q ↦ rw q h
        | inr q ↦ rw q (h.0, ground arith)
      ])

  on_error-IsMarked :
      (frame : Bytes) (e : Option String) (w : WireResponse) (s : Decoder)
      → IsMarked r k s
      → (not (candidates_end w.candidates) || k) ≡ true
      → MarkedAfter (on_error lib frame e w s)
  unfolding on_error with_usage
  on_error-IsMarked frame (some msg) w s h e = h
  on_error-IsMarked frame none w s h e =
      on_candidates-IsMarked frame w.candidates (with_usage w.usage s) (ground arith) e

  on_chunk-IsMarked :
      (frame : Bytes) (w : Option WireResponse) (s : Decoder)
      → IsMarked r k s
      → (not (chunk_ends w) || k) ≡ true
      → MarkedAfter (on_chunk lib frame w s)
  unfolding on_chunk
  on_chunk-IsMarked frame none s h e = h
  on_chunk-IsMarked frame (some w) s h e = on_error-IsMarked frame w.error w s h e

  on_frame-IsMarked :
      (frame : Bytes) (s : Decoder)
      → IsMarked r k s
      → (not (chunk_ends (lib.decode_response frame)) || k) ≡ true
      → MarkedAfter (on_frame lib frame s)
  unfolding on_frame
  on_frame-IsMarked frame s h e = elim (Bool-cases (null frame)) [
    | inl n ↦ rw n h
    | inr n ↦ rw n (on_chunk-IsMarked frame (lib.decode_response frame) s h e)
  ]

  at_end-IsMarked : (s : Decoder) → IsMarked r k s → IsMarked r k (at_end lib s).1
  unfolding at_end
  at_end-IsMarked s h = elim (Bool-cases (not (is_nil s.reader.err))) [
    | inl e ↦ rw e h
    | inr e ↦ elim (Bool-cases (not s.saw_terminal && not s.flushed)) [
      | inl cut ↦ rw (e, cut) h
      | inr whole ↦ elim (Bool-cases (not s.flushed)) [
        | inl f ↦ rw (e, whole, f) h
        | inr f ↦ rw (e, whole, f) h
      ]
    ]
  ]

-- What the decoder's reader has given since it stood at `r` accounts for the flag.
pub record IsFounded (lib : Library) (r : Reader) (s : Decoder) : Type 0 where
  pub seen : Bool
  pub given : Given (is_signal lib) r s.reader seen
  pub flag : (not s.saw_terminal || seen) ≡ true

module _ (lib : Library) (r : Reader) where
  founded :
      (q : Reader) (k : Bool) (s : Decoder)
      → Given (is_signal lib) r q k
      → IsMarked q k s
      → IsFounded lib r s
  founded q k s g h = record {
    seen = k;
    given = subst (λ x. Given (is_signal lib) r x k) (sym h.0) g;
    flag = h.1;
  }

  proceed-IsFounded :
      (q : Reader) (k : Bool) (p : Progress Decoder) (loop : Decoder → Bool × Decoder)
      → Given (is_signal lib) r q k
      → MarkedAfter q k lib p
      → ((t : Decoder) → IsFounded lib r t → IsFounded lib r (loop t).1)
      → IsFounded lib r (proceed p loop).1
  proceed-IsFounded q k (go_on s) loop g h ih = ih s (founded q k s g h)
  proceed-IsFounded q k (return more s) loop g h ih = founded q k s g h

  on_read-IsFounded :
      (b : Bool) (q : Reader) (k : Bool) (s : Decoder) (loop : Decoder → Bool × Decoder)
      → Given (is_signal lib) r q (k || (b && is_signal lib q.event))
      → (not s.saw_terminal || k) ≡ true
      → ((t : Decoder) → IsFounded lib r t → IsFounded lib r (loop t).1)
      → IsFounded lib r (on_read (machine lib) b q s loop).1
  on_read-IsFounded true q k s loop g h ih =
      proceed-IsFounded q (k || is_signal lib q.event) _ loop g
        (on_frame-IsMarked q (k || is_signal lib q.event) lib q.event.payload
          (record s { reader = q }) (refl, ground arith) (ground arith))
        ih
  on_read-IsFounded false q k s loop g h ih =
      founded q (k || false) _ g
        (at_end-IsMarked q (k || false) lib (record s { reader = q }) (refl, ground arith))

  pump-IsFounded :
      (n : ℕ) (s : Decoder) → IsFounded lib r s → IsFounded lib r (pump (machine lib) n s).1
  unfolding pump
  pump-IsFounded zero s h = h
  pump-IsFounded (suc n) s h =
      on_read-IsFounded (next s.reader).0 (next s.reader).1 h.seen s (pump (machine lib) n)
        (further s.reader h.seen h.given) h.flag (pump-IsFounded n)

  from_queue-IsFounded :
      (q : List StreamEvent) (s : Decoder)
      → IsFounded lib r s
      → IsFounded lib r (from_queue lib q s).1
  unfolding from_queue run
  from_queue-IsFounded [] s h = pump-IsFounded (suc (supply s.reader)) s h
  from_queue-IsFounded (ev ∷ evs) s h = record { seen = h.seen; given = h.given; flag = h.flag }

  decode_next-IsFounded : (s : Decoder) → IsFounded lib r s → IsFounded lib r (decode_next lib s).1
  unfolding decode_next
  decode_next-IsFounded s h = elim (Bool-cases (s.done || not (is_nil s.err))) [
    | inl e ↦ rw e h
    | inr e ↦ rw e (from_queue-IsFounded s.queued s h)
  ]

  decoder_close-IsFounded : (s : Decoder) → IsFounded lib r s → IsFounded lib r (decoder_close s).1
  unfolding decoder_close
  decoder_close-IsFounded s h = elim (Bool-cases s.closed) [
    | inl e ↦ rw e (record { seen = h.seen; given = h.given; flag = h.flag })
    | inr e ↦ rw e (record { seen = h.seen; given = h.given; flag = h.flag })
  ]

  Reaches-IsFounded : (s t : Decoder) → Reaches lib s t → IsFounded lib r s → IsFounded lib r t
  Reaches-IsFounded s _ start h = h
  Reaches-IsFounded s _ (read_on t p) h = decode_next-IsFounded t (Reaches-IsFounded s t p h)
  Reaches-IsFounded s _ (shut t p) h = decoder_close-IsFounded t (Reaches-IsFounded s t p h)

-- Whatever the server sends, broken off, malformed or with an error in it, and however the caller
-- mixes `Next` and `Close`: a decoder of the Gemini API shows the terminal event of a complete reply
-- only if, of the events that its reader has given by then, one is a chunk whose first candidate has
-- a finish reason.
pub Given-Reaches :
    (lib : Library) (close_err : GoError) (reader : Reader) (t : Decoder)
    → Reaches lib (new_decoder close_err reader) t
    → is_terminal t.event.kind ≡ true
    → Given (is_signal lib) reader t.reader true
unfolding new_decoder
Given-Reaches lib close_err reader t p e =
    let h =
      Reaches-IsFounded lib reader (new_decoder close_err reader) t p
        (record { seen = false; given = nothing; flag = refl }) in
    let set = done-Reaches lib close_err reader t p e in
    Given-true (is_signal lib) reader t.reader h.seen (ground (arith, h.flag)) h.given
