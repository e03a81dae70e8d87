-- ===== src/Oai/Reach.antt =====
-- The terminal event and the flags of the decoder.
use skyl.Prelude.{
  ℕ, zero, suc, String, ◌≡◌, refl, Bool, true, false, not, ◌&&◌, ◌||◌, List, [], ◌∷◌, null, Option,
  none, some, is_empty, Bool-cases, inl, inr, Bytes, codes, arith,
}
use skyl.Errors.{GoError, is_nil}
use skyl.Stream.{is_terminal}
use skyl.Sse.{Reader, next}
use skyl.Sse.Fields.{equal}
use skyl.Sse.Supply.{supply}
use skyl.Oai.{Library, WireResponse, WireChoice, text_from_content}
use skyl.Oai.Decoder.{
  Decoder, Drained, emitted, emptied, Progress, go_on, return, drain_calls, finish, finish_drained,
  with_usage, with_reason, with_calls, new_decoder,
}
use skyl.Oai.Loop.{
  on_choice, on_choices, on_error, on_chunk, on_frame, at_end, proceed, on_read, pump, decode_next,
  decoder_close,
}

-- The states that a caller brings about from a state, by `Next` and `Close` in any order.
pub data Reaches (lib : Library) (s : Decoder) : Decoder → Type 0 where
  start : Reaches lib s s
  read_on : (t : Decoder) → Reaches lib s t → Reaches lib s (decode_next lib t).1
  shut : (t : Decoder) → Reaches lib s t → Reaches lib s (decoder_close t).1

-- The terminal event was given only with its flag set, and the flag was set only behind a signal.
abbrev honest : Decoder → Bool
honest s = (not s.flushed || s.saw_terminal) && (not (is_terminal s.event.kind) || s.flushed)

abbrev IsHonest : Decoder → Type 0
IsHonest s = honest s ≡ true

abbrev HonestProgress : Progress → Type 0
HonestProgress (go_on s) = IsHonest s
HonestProgress (return more s) = IsHonest s

finish_drained-IsHonest :
    (s : Decoder) (x : Drained)
    → IsHonest s
    → (s.saw_terminal || s.flushed) ≡ true
    → IsHonest (finish_drained s x).1
unfolding finish_drained
finish_drained-IsHonest s (emitted c p order) h t = (ground arith)
finish_drained-IsHonest s (emptied p) h t = (ground arith)

module _ (lib : Library) where
  with_usage-IsHonest : (u : _) (s : Decoder) → IsHonest s → IsHonest (with_usage u s)
  unfolding with_usage
  with_usage-IsHonest u s h = (ground arith)

  on_choice-HonestProgress :
      (frame : Bytes) (c : WireChoice) (s : Decoder)
      → IsHonest s
      → HonestProgress (on_choice lib frame c s)
  unfolding on_choice with_reason with_calls
  on_choice-HonestProgress frame c s h =
      elim (Bool-cases (is_empty (text_from_content c.delta.content))) [
        | inl e ↦ rw e (ground arith)
        | inr e ↦ rw e (ground arith)
      ]

  on_choices-HonestProgress :
      (frame : Bytes) (cs : List WireChoice) (s : Decoder)
      → IsHonest s
      → HonestProgress (on_choices lib frame cs s)
  unfolding on_choices
  on_choices-HonestProgress frame [] s h = h
  on_choices-HonestProgress frame (c ∷ cs) s h = on_choice-HonestProgress frame c s h

  on_error-HonestProgress :
      (frame : Bytes) (e : Option String) (w : WireResponse) (s : Decoder)
      → IsHonest s
      → HonestProgress (on_error lib frame e w s)
  unfolding on_error
  on_error-HonestProgress frame (some msg) w s h = h
  on_error-HonestProgress frame none w s h =
      on_choices-HonestProgress frame w.choices (with_usage w.usage s)
        (with_usage-IsHonest w.usage s h)

  on_chunk-HonestProgress :
      (frame : Bytes) (w : Option WireResponse) (s : Decoder)
      → IsHonest s
      → HonestProgress (on_chunk lib frame w s)
  unfolding on_chunk
  on_chunk-HonestProgress frame none s h = h
  on_chunk-HonestProgress frame (some w) s h = on_error-HonestProgress frame w.error w s h

  on_frame-HonestProgress :
      (frame : Bytes) (s : Decoder) → IsHonest s → HonestProgress (on_frame lib frame s)
  unfolding on_frame finish
  on_frame-HonestProgress frame s h = elim (Bool-cases (null frame)) [
    | inl e ↦ rw e h
    | inr e ↦ elim (Bool-cases (equal frame (codes "[DONE]"))) [
      | inl d ↦
          rw (e, d)
            (finish_drained-IsHonest (record s { saw_terminal = true })
              (drain_calls s.pending s.order) (ground arith) refl)
      | inr d ↦ rw (e, d) (on_chunk-HonestProgress frame (lib.decode_response frame) s h)
    ]
  ]

  at_end-IsHonest : (s : Decoder) → IsHonest s → IsHonest (at_end lib s).1
  unfolding at_end finish
  at_end-IsHonest s h = elim (Bool-cases (not (is_nil s.reader.err))) [
    | inl e ↦ rw e h
    | inr e ↦ elim (Bool-cases (not s.saw_terminal && not s.flushed)) [
      | inl cut ↦ rw (e, cut) h
      | inr whole ↦
          rw (e, whole) (finish_drained-IsHonest s (drain_calls s.pending s.order) h (ground arith))
    ]
  ]

  proceed-IsHonest :
      (p : Progress) (loop : Decoder → Bool × Decoder)
      → HonestProgress p
      → ((s : Decoder) → IsHonest s → IsHonest (loop s).1)
      → IsHonest (proceed lib p loop).1
  unfolding proceed
  proceed-IsHonest (go_on s) loop h k = k s h
  proceed-IsHonest (return more s) loop h k = h

  on_read-IsHonest :
      (b : Bool) (r : Reader) (s : Decoder) (loop : Decoder → Bool × Decoder)
      → IsHonest s
      → ((t : Decoder) → IsHonest t → IsHonest (loop t).1)
      → IsHonest (on_read lib b r s loop).1
  unfolding on_read
  on_read-IsHonest true r s loop h k =
      proceed-IsHonest _ loop (on_frame-HonestProgress r.event.payload (record s { reader = r }) h)
        k
  on_read-IsHonest false r s loop h k = at_end-IsHonest (record s { reader = r }) h

  pump-IsHonest : (n : ℕ) (s : Decoder) → IsHonest s → IsHonest (pump lib n s).1
  unfolding pump
  pump-IsHonest zero s h = h
  pump-IsHonest (suc n) s h =
      on_read-IsHonest (next s.reader).0 (next s.reader).1 s (pump lib n) h (pump-IsHonest n)

  decode_next-IsHonest : (s : Decoder) → IsHonest s → IsHonest (decode_next lib s).1
  unfolding decode_next
  decode_next-IsHonest s h = elim (Bool-cases (s.done || not (is_nil s.err))) [
    | inl e ↦ rw e h
    | inr e ↦ rw e (pump-IsHonest (suc (supply s.reader)) s h)
  ]

  decoder_close-IsHonest : (s : Decoder) → IsHonest s → IsHonest (decoder_close s).1
  unfolding decoder_close
  decoder_close-IsHonest s h = elim (Bool-cases s.closed) [ inl e ↦ rw e h | inr e ↦ rw e h ]

  Reaches-IsHonest : (s t : Decoder) → Reaches lib s t → IsHonest s → IsHonest t
  Reaches-IsHonest s _ start h = h
  Reaches-IsHonest s _ (read_on t r) h = decode_next-IsHonest t (Reaches-IsHonest s t r h)
  Reaches-IsHonest s _ (shut t r) h = decoder_close-IsHonest t (Reaches-IsHonest s t r h)

  -- The terminal event is shown only with the flag set.
  pub terminal-Reaches :
      (provider : String) (close_err : GoError) (reader : Reader) (t : Decoder)
      → Reaches lib (new_decoder provider close_err reader) t
      → is_terminal t.event.kind ≡ true
      → t.saw_terminal ≡ true
  unfolding new_decoder
  terminal-Reaches provider close_err reader t r e =
      let h = Reaches-IsHonest (new_decoder provider close_err reader) t r refl in ground arith
