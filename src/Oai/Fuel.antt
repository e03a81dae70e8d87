-- ===== src/Oai/Fuel.antt =====
-- The fuel of the decoder's loop never runs out, so that `decode_next` obeys the equation of the loop.
use skyl.Prelude.{
  ltb_ℤ, pos, ℕ, String, zero, suc, ◌<◌, ◌≡◌, refl, sym, ap, ◌∙◌, Bool, true, false, not, ◌||◌,
  List, [], ◌∷◌, null, Option, none, some, is_empty, if◌then◌else◌, Bool-cases, inl, inr, Bytes,
  codes, arith,
}
use skyl.Errors.{GoError, is_nil}
use skyl.Sse.{Reader, next}
use skyl.Sse.Fields.{equal}
use skyl.Sse.Supply.{supply, next-supply}
use skyl.Oai.{Library, WireResponse, WireChoice, text_from_content}
use skyl.Oai.Decoder.{Decoder, Progress, go_on, return, with_usage, with_reason, with_calls}
use skyl.Oai.Loop.{
  on_choice, on_choices, on_error, on_chunk, on_frame, proceed, on_read, pump, decode_next,
}

-- A frame that asks for another round leaves the reader and the latches alone.
pub record IsKept (s s' : Decoder) : Type 0 where
  pub reader : s'.reader ≡ s.reader
  pub err : s'.err ≡ s.err
  pub over : s'.done ≡ s.done
  pub flushed : s'.flushed ≡ s.flushed

abbrev pub Keeps : Decoder → Progress → Type 0
Keeps s (go_on s') = IsKept s s'
Keeps s (return more s') = Unit

unchanged : (s : Decoder) → IsKept s s
unchanged s = record { reader = refl; err = refl; over = refl; flushed = refl }

Keeps-from : (s t : Decoder) (p : Progress) → IsKept s t → Keeps t p → Keeps s p
Keeps-from s t (go_on u) h k = record {
  reader = k.reader ∙ h.reader;
  err = k.err ∙ h.err;
  over = k.over ∙ h.over;
  flushed = k.flushed ∙ h.flushed;
}
Keeps-from s t (return more u) h k = tt

module _ (lib : Library) where
  on_choice-Keeps :
      (frame : Bytes) (choice : WireChoice) (s : Decoder) → Keeps s (on_choice lib frame choice s)
  unfolding on_choice with_reason with_calls
  on_choice-Keeps frame choice s =
      elim (Bool-cases (is_empty (text_from_content choice.delta.content))) [
        | inl e ↦ elim (Bool-cases (is_empty choice.finish_reason)) [
          | inl r ↦ rw (e, r) (record { reader = refl; err = refl; over = refl; flushed = refl })
          | inr r ↦ rw (e, r) (record { reader = refl; err = refl; over = refl; flushed = refl })
        ]
        | inr e ↦ rw e tt
      ]

  on_choices-Keeps :
      (frame : Bytes) (choices : List WireChoice) (s : Decoder)
      → Keeps s (on_choices lib frame choices s)
  unfolding on_choices
  on_choices-Keeps frame [] s = unchanged s
  on_choices-Keeps frame (choice ∷ more) s = on_choice-Keeps frame choice s

  on_error-Keeps :
      (frame : Bytes) (e : Option String) (chunk : WireResponse) (s : Decoder)
      → Keeps s (on_error lib frame e chunk s)
  unfolding on_error with_usage
  on_error-Keeps frame (some msg) chunk s = tt
  on_error-Keeps frame none chunk s =
      elim (Bool-cases
        (ltb_ℤ (pos 0) chunk.usage.prompt_tokens || ltb_ℤ (pos 0) chunk.usage.completion_tokens)) [
          | inl u ↦ rw u (
              Keeps-from s _ _ (record { reader = refl; err = refl; over = refl; flushed = refl })
                (on_choices-Keeps frame chunk.choices _))
          | inr u ↦ rw u (on_choices-Keeps frame chunk.choices s)
        ]

  on_chunk-Keeps :
      (frame : Bytes) (chunk : Option WireResponse) (s : Decoder)
      → Keeps s (on_chunk lib frame chunk s)
  unfolding on_chunk
  on_chunk-Keeps frame none s = unchanged s
  on_chunk-Keeps frame (some chunk) s = on_error-Keeps frame chunk.error chunk s

  pub on_frame-Keeps : (frame : Bytes) (s : Decoder) → Keeps s (on_frame lib frame s)
  unfolding on_frame
  on_frame-Keeps frame s = elim (Bool-cases (null frame)) [
    | inl e ↦ rw e (unchanged s)
    | inr e ↦ elim (Bool-cases (equal frame (codes "[DONE]"))) [
      | inl d ↦ rw (e, d) tt
      | inr d ↦ rw (e, d) (on_chunk-Keeps frame (lib.decode_response frame) s)
    ]
  ]

  proceed_agree :
      (s : Decoder) (p : Progress) (f g : Decoder → Bool × Decoder)
      → Keeps s p
      → ((s' : Decoder) → IsKept s s' → f s' ≡ g s')
      → proceed lib p f ≡ proceed lib p g
  unfolding proceed
  proceed_agree s (go_on s') f g k same = same s' k
  proceed_agree s (return more s') f g k same = refl

  on_read_agree :
      (b : Bool) (r : Reader) (s : Decoder) (f g : Decoder → Bool × Decoder)
      → (b ≡ true → (s' : Decoder) → IsKept (record s { reader = r }) s' → f s' ≡ g s')
      → on_read lib b r s f ≡ on_read lib b r s g
  unfolding on_read
  on_read_agree true r s f g same =
      proceed_agree (record s { reader = r }) _ f g
        (on_frame-Keeps r.event.payload (record s { reader = r })) (same refl)
  on_read_agree false r s f g same = refl

  -- Any two amounts of fuel beyond the reader's supply give the same result.
  pub pump_enough :
      (n m : ℕ) (s : Decoder)
      → supply s.reader < n
      → supply s.reader < m
      → pump lib n s ≡ pump lib m s
  unfolding pump
  pump_enough zero m s hn hm = absurd (omega arith)
  pump_enough (suc n) zero s hn hm = absurd (omega arith)
  pump_enough (suc n) (suc m) s hn hm =
      on_read_agree (next s.reader).0 (next s.reader).1 s (pump lib n) (pump lib m) (λ more s' k.
        let less = next-supply s.reader more in
        pump_enough n m s' (rw k.reader (omega arith)) (rw k.reader (omega arith)))

  abbrev pub Live : Decoder → Type 0
  Live s = (s.done ≡ false) × (s.err ≡ GoError.nil)

  pub decode-Live :
      (s : Decoder) (n : ℕ) → Live s → supply s.reader < n → decode_next lib s ≡ pump lib n s
  unfolding decode_next is_nil
  decode-Live s n h enough =
      ap (λ b. if b || not (is_nil s.err) then (false, s) else pump lib (suc (supply s.reader)) s)
        h.0
      ∙ ap (λ e. if not (is_nil e) then (false, s) else pump lib (suc (supply s.reader)) s) h.1
      ∙ pump_enough (suc (supply s.reader)) n s (omega arith) enough

  -- The equation of the loop: on a live decoder, `Next` reads one event and, where that frame asks
  -- for another round, does what `Next` does from there.
  pub decode_loop :
      (s : Decoder)
      → Live s
      → decode_next lib s ≡ on_read lib (next s.reader).0 (next s.reader).1 s (decode_next lib)
  unfolding pump
  decode_loop s h =
      decode-Live s (suc (supply s.reader)) h (omega arith)
      ∙ on_read_agree (next s.reader).0 (next s.reader).1 s (pump lib (supply s.reader))
          (decode_next lib)
          (λ more s' k.
            let less = next-supply s.reader more in
            sym (decode-Live s' (supply s.reader) (k.over ∙ h.0, k.err ∙ h.1) (rw k.reader less)))
