-- ===== src/Oai/Signals.antt =====
-- A reply is complete only if its frames have said so: the decoder's flag follows what was read.
use mathlib.Core.Path.{subst}
use skyl.Prelude.{
  ℕ, zero, suc, String, ◌≡◌, refl, sym, Bool, true, false, not, ◌&&◌, ◌||◌, List, [], ◌∷◌, null,
  Option, none, some, is_empty, Bool-cases, inl, inr, Bytes, codes, arith,
}
use skyl.Errors.{GoError, is_nil}
use skyl.Stream.{is_terminal}
use skyl.Sse.{Event, Reader, next}
use skyl.Sse.Fields.{equal}
use skyl.Sse.Supply.{supply}
use skyl.Sse.History.{Given-true, Given, nothing, further}
use skyl.Oai.{Library, WireResponse, WireChoice, text_from_content}
use skyl.Oai.Decoder.{
  Decoder, Drained, emitted, emptied, Progress, go_on, return, drain_calls, finish, finish_drained,
  with_usage, with_reason, with_calls, new_decoder,
}
use skyl.Oai.Loop.{
  on_choice, on_choices, on_error, on_chunk, on_frame, at_end, proceed, on_read, pump, decode_next,
  decoder_close,
}
use skyl.Oai.Reach.{Reaches, start, read_on, shut, terminal-Reaches}

-- A choice that has a finish reason, and a chunk whose first choice has one.
abbrev pub chooses_end : List WireChoice → Bool
chooses_end [] = false
chooses_end (c ∷ cs) = not (is_empty c.finish_reason)

abbrev pub chunk_ends : Option WireResponse → Bool
chunk_ends none = false
chunk_ends (some w) = chooses_end w.choices

-- The terminal signals: the end marker, and a chunk with a finish reason.
abbrev pub is_signal : Library → Event → Bool
is_signal lib ev = equal ev.payload (codes "[DONE]") || chunk_ends (lib.decode_response ev.payload)

-- The reader stands at `r`, and the flag is set only if `k`.
abbrev IsMarked : Reader → Bool → Decoder → Type 0
IsMarked r k s = (s.reader ≡ r) × ((not s.saw_terminal || k) ≡ true)

abbrev MarkedProgress : Reader → Bool → Progress → Type 0
MarkedProgress r k (go_on s) = IsMarked r k s
MarkedProgress r k (return more s) = IsMarked r k s

module _ (r : Reader) (k : Bool) where
  finish_drained-IsMarked :
      (s : Decoder) (x : Drained) → IsMarked r k s → IsMarked r k (finish_drained s x).1
  unfolding finish_drained
  finish_drained-IsMarked s (emitted c p order) h = h
  finish_drained-IsMarked s (emptied p) h = elim (Bool-cases s.flushed) [
    | inl e ↦ rw e h
    | inr e ↦ rw e h
  ]

  with_usage-IsMarked : (u : _) (s : Decoder) → IsMarked r k s → IsMarked r k (with_usage u s)
  unfolding with_usage
  with_usage-IsMarked u s h = (ground arith)

  module _ (lib : Library) where
    on_choice-MarkedProgress :
        (frame : Bytes) (c : WireChoice) (s : Decoder)
        → IsMarked r k s
        → (is_empty c.finish_reason || k) ≡ true
        → MarkedProgress r k (on_choice lib frame c s)
    unfolding on_choice with_reason with_calls
    on_choice-MarkedProgress frame c s h e =
        elim (Bool-cases (is_empty (text_from_content c.delta.content))) [
          | inl t ↦ elim (Bool-cases (is_empty c.finish_reason)) [
            | inl q ↦ rw (t, q) h
            | inr q ↦ rw (t, q) (h.0, ground arith)
          ]
          | inr t ↦ elim (Bool-cases (is_empty c.finish_reason)) [
            | inl q ↦ rw (t, q) h
            | inr q ↦ rw (t, q) (h.0, ground arith)
          ]
        ]

    on_choices-MarkedProgress :
        (frame : Bytes) (cs : List WireChoice) (s : Decoder)
        → IsMarked r k s
        → (not (chooses_end cs) || k) ≡ true
        → MarkedProgress r k (on_choices lib frame cs s)
    unfolding on_choices
    on_choices-MarkedProgress frame [] s h e = h
    on_choices-MarkedProgress frame (c ∷ cs) s h e =
        on_choice-MarkedProgress frame c s h (ground arith)

    on_error-MarkedProgress :
        (frame : Bytes) (e : Option String) (w : WireResponse) (s : Decoder)
        → IsMarked r k s
        → (not (chooses_end w.choices) || k) ≡ true
        → MarkedProgress r k (on_error lib frame e w s)
    unfolding on_error
    on_error-MarkedProgress frame (some msg) w s h e = h
    on_error-MarkedProgress frame none w s h e =
        on_choices-MarkedProgress frame w.choices (with_usage w.usage s)
          (with_usage-IsMarked w.usage s h) e

    on_chunk-MarkedProgress :
        (frame : Bytes) (w : Option WireResponse) (s : Decoder)
        → IsMarked r k s
        → (not (chunk_ends w) || k) ≡ true
        → MarkedProgress r k (on_chunk lib frame w s)
    unfolding on_chunk
    on_chunk-MarkedProgress frame none s h e = h
    on_chunk-MarkedProgress frame (some w) s h e = on_error-MarkedProgress frame w.error w s h e

    on_frame-MarkedProgress :
        (ev : Event) (s : Decoder)
        → IsMarked r k s
        → (not (is_signal lib ev) || k) ≡ true
        → MarkedProgress r k (on_frame lib ev.payload s)
    unfolding on_frame finish
    on_frame-MarkedProgress ev s h e = elim (Bool-cases (null ev.payload)) [
      | inl n ↦ rw n h
      | inr n ↦ elim (Bool-cases (equal ev.payload (codes "[DONE]"))) [
        | inl d ↦
            rw (n, d)
              (finish_drained-IsMarked (record s { saw_terminal = true })
                (drain_calls s.pending s.order) (h.0, ground arith))
        | inr d ↦
            rw (n, d)
              (on_chunk-MarkedProgress ev.payload (lib.decode_response ev.payload) s h
                (ground arith))
      ]
    ]

    at_end-IsMarked : (s : Decoder) → IsMarked r k s → IsMarked r k (at_end lib s).1
    unfolding at_end finish
    at_end-IsMarked s h = elim (Bool-cases (not (is_nil s.reader.err))) [
      | inl e ↦ rw e h
      | inr e ↦ elim (Bool-cases (not s.saw_terminal && not s.flushed)) [
        | inl cut ↦ rw (e, cut) h
        | inr whole ↦ rw (e, whole) (finish_drained-IsMarked s (drain_calls s.pending s.order) h)
      ]
    ]

-- What the decoder's reader has given since it stood at `r` accounts for the flag.
pub record IsFounded (lib : Library) (r : Reader) (s : Decoder) : Type 0 where
  pub seen : Bool
  pub given : Given (is_signal lib) r s.reader seen
  pub flag : (not s.saw_terminal || seen) ≡ true

module _ (lib : Library) (r : Reader) where
  founded :
      (q : Reader) (k : Bool) (s : Decoder)
      → Given (is_signal lib) r q k
      → IsMarked q k s
      → IsFounded lib r s
  founded q k s g h = record {
    seen = k;
    given = subst (λ x. Given (is_signal lib) r x k) (sym h.0) g;
    flag = h.1;
  }

  proceed-IsFounded :
      (q : Reader) (k : Bool) (p : Progress) (loop : Decoder → Bool × Decoder)
      → Given (is_signal lib) r q k
      → MarkedProgress q k p
      → ((t : Decoder) → IsFounded lib r t → IsFounded lib r (loop t).1)
      → IsFounded lib r (proceed lib p loop).1
  unfolding proceed
  proceed-IsFounded q k (go_on s) loop g h ih = ih s (founded q k s g h)
  proceed-IsFounded q k (return more s) loop g h ih = founded q k s g h

  on_read-IsFounded :
      (b : Bool) (q : Reader) (k : Bool) (s : Decoder) (loop : Decoder → Bool × Decoder)
      → Given (is_signal lib) r q (k || (b && is_signal lib q.event))
      → (not s.saw_terminal || k) ≡ true
      → ((t : Decoder) → IsFounded lib r t → IsFounded lib r (loop t).1)
      → IsFounded lib r (on_read lib b q s loop).1
  unfolding on_read
  on_read-IsFounded true q k s loop g h ih =
      proceed-IsFounded q (k || is_signal lib q.event) _ loop g
        (on_frame-MarkedProgress q (k || is_signal lib q.event) lib q.event
          (record s { reader = q }) (refl, ground arith) (ground arith))
        ih
  on_read-IsFounded false q k s loop g h ih =
      founded q (k || false) _ g
        (at_end-IsMarked q (k || false) lib (record s { reader = q }) (refl, ground arith))

  pump-IsFounded : (n : ℕ) (s : Decoder) → IsFounded lib r s → IsFounded lib r (pump lib n s).1
  unfolding pump
  pump-IsFounded zero s h = h
  pump-IsFounded (suc n) s h =
      on_read-IsFounded (next s.reader).0 (next s.reader).1 h.seen s (pump lib n)
        (further s.reader h.seen h.given) h.flag (pump-IsFounded n)

  decode_next-IsFounded : (s : Decoder) → IsFounded lib r s → IsFounded lib r (decode_next lib s).1
  unfolding decode_next
  decode_next-IsFounded s h = elim (Bool-cases (s.done || not (is_nil s.err))) [
    | inl e ↦ rw e h
    | inr e ↦ rw e (pump-IsFounded (suc (supply s.reader)) s h)
  ]

  decoder_close-IsFounded : (s : Decoder) → IsFounded lib r s → IsFounded lib r (decoder_close s).1
  unfolding decoder_close
  decoder_close-IsFounded s h = elim (Bool-cases s.closed) [
    | inl e ↦ rw e (record { seen = h.seen; given = h.given; flag = h.flag })
    | inr e ↦ rw e (record { seen = h.seen; given = h.given; flag = h.flag })
  ]

  Reaches-IsFounded : (s t : Decoder) → Reaches lib s t → IsFounded lib r s → IsFounded lib r t
  Reaches-IsFounded s _ start h = h
  Reaches-IsFounded s _ (read_on t p) h = decode_next-IsFounded t (Reaches-IsFounded s t p h)
  Reaches-IsFounded s _ (shut t p) h = decoder_close-IsFounded t (Reaches-IsFounded s t p h)

-- Whatever the server sends, broken off, malformed or with an error in it, and however the caller
-- mixes `Next` and `Close`: a decoder shows the terminal event of a complete reply only if, of the
-- events that its reader has given by then, one is a terminal signal: the end marker, or a chunk whose
-- first choice has a finish reason.
pub Reaches-Given :
    (lib : Library) (provider : String) (close_err : GoError) (reader : Reader) (t : Decoder)
    → Reaches lib (new_decoder provider close_err reader) t
    → is_terminal t.event.kind ≡ true
    → Given (is_signal lib) reader t.reader true
unfolding new_decoder
Reaches-Given lib provider close_err reader t p e =
    let h =
      Reaches-IsFounded lib reader (new_decoder provider close_err reader) t p
        (record { seen = false; given = nothing; flag = refl }) in
    let set = terminal-Reaches lib provider close_err reader t p e in
    Given-true (is_signal lib) reader t.reader h.seen (ground (arith, h.flag)) h.given
