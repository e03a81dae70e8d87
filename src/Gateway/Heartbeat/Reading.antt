-- ===== src/Gateway/Heartbeat/Reading.antt =====
-- From the response of the gateway to the events that a reader of internal/sse/sse.go takes from it.
use mathlib.Core.Path.{subst}
use skyl.Prelude.{
  ℤ, ℕ, ◌≡◌, refl, ap, sym, ◌∙◌, Bool, true, false, List, [], ◌∷◌, ◌++◌, map, inr, any, Bytes,
  codes, append_assoc, All, arith, ◌==◌,
}
use skyl.Errors.{GoError}
use skyl.Sse.{
  Event, Reader, Scanned, found, ended, read_record, next, conclude, new_reader, max_event_bytes,
}
use skyl.Sse.Fields.{no_record, trim_right_cr}
use skyl.Sse.Lines.{new_scanner, drop_cr}
use skyl.Sse.Records.{NoCr, data_line, comment_line, read_record_blank, read_record-comment_line}
use skyl.Sse.Encoding.{Delivers, read_record-encode, next_live, Delivers-encode_all}
use skyl.Sse.Serial.{serialize, IsLine, new_scanner-serialize}
use skyl.Gateway.Heartbeat.{
  Frame, data_frame, keep_alive, frame_bytes, Session, start_heartbeat, Reaches,
}
use skyl.Gateway.Heartbeat.Exclusion.{is_returned}
use skyl.Gateway.Heartbeat.Frames.{bytes_of, events_of}
use skyl.Gateway.Heartbeat.Delivery.{sent-bytes_of}

abbrev beat_line : Bytes
beat_line = comment_line (codes " keep-alive")

-- The lines of frames.
abbrev lines_of : List Frame → List Bytes
lines_of [] = []
lines_of (data_frame json ∷ fs) = data_line json ∷ [] ∷ lines_of fs
lines_of (keep_alive ∷ fs) = beat_line ∷ [] ∷ lines_of fs

-- What is asked of the JSON of an event, which stands on one line.
pub record IsJsonLine (json : Bytes) : Type 0 where
  pub line : IsLine max_event_bytes (data_line json)
  pub clean : NoCr json

abbrev pub unnamed : Bytes → Event
unnamed json = record { name = []; payload = json }

bytes_of-lines_of : (fs : List Frame) → bytes_of fs ≡ serialize (lines_of fs)
unfolding frame_bytes
bytes_of-lines_of [] = refl
bytes_of-lines_of (data_frame json ∷ fs) =
    append_assoc (data_line json) (codes "\n\n") (bytes_of fs)
    ∙ ap (λ x. data_line json ++ (b'\n' ∷ b'\n' ∷ x)) (bytes_of-lines_of fs)
bytes_of-lines_of (keep_alive ∷ fs) =
    ap (λ x. beat_line ++ (b'\n' ∷ b'\n' ∷ x)) (bytes_of-lines_of fs)

-- Of a list that no element passes the test, every element fails it.
pub any-All : (p : ℕ → Bool) (l : Bytes) → any p l ≡ false → All (λ c. p c ≡ false) l
any-All p [] h = tt
any-All p (c ∷ cs) h = (ground arith, any-All p cs (ground arith))

beat_line-IsLine : IsLine max_event_bytes beat_line
unfolding drop_cr
beat_line-IsLine = record {
  one_line = any-All (λ c. c == b'\n') beat_line refl;
  no_cr = refl;
  fits = omega arith;
}

blank-IsLine : IsLine max_event_bytes []
unfolding drop_cr
blank-IsLine = record { one_line = tt; no_cr = refl; fits = omega arith }

lines_of-IsLine :
    (fs : List Frame) → All IsJsonLine (events_of fs) → All (IsLine max_event_bytes) (lines_of fs)
lines_of-IsLine [] h = tt
lines_of-IsLine (data_frame json ∷ fs) h = (h.0.line, (blank-IsLine, lines_of-IsLine fs h.1))
lines_of-IsLine (keep_alive ∷ fs) h = (beat_line-IsLine, (blank-IsLine, lines_of-IsLine fs h))

-- A reader is asked for its next event: only its lines tell it.
conclude-lines :
    (r : Reader) (ls : List Bytes) (x : Scanned)
    → conclude r x ≡ conclude (record r { lines = ls }) x
unfolding conclude
conclude-lines r ls (found ev more) = refl
conclude-lines r ls (ended f) = refl

Delivers-next :
    (r q : Reader) (evs : List Event) → next r ≡ next q → Delivers q evs → Delivers r evs
Delivers-next r q [] e d = subst (λ x. (x.0 ≡ false) × (x.1.err ≡ GoError.nil)) (sym e) d
Delivers-next r q (ev ∷ evs) e d =
    subst (λ x. (x.0 ≡ true) × (x.1.event ≡ ev) × Delivers x.1 evs) (sym e) d

next_beat :
    (r : Reader) (rest : List Bytes)
    → r.done ≡ false
    → r.lines ≡ beat_line ∷ [] ∷ rest
    → next r ≡ next (record r { lines = rest })
next_beat r rest d l =
    next_live r d
    ∙ ap (λ (ls : List Bytes). conclude r (read_record no_record ls)) l
    ∙ ap (conclude r) (
        read_record-comment_line no_record (codes " keep-alive") ([] ∷ rest)
        ∙ read_record_blank no_record rest)
    ∙ conclude-lines r rest (read_record no_record rest)
    ∙ sym (next_live (record r { lines = rest }) d)

empty-NoCr : NoCr []
unfolding trim_right_cr
empty-NoCr = refl

next_data :
    (r : Reader) (json : Bytes) (rest : List Bytes)
    → NoCr json
    → r.done ≡ false
    → r.lines ≡ data_line json ∷ [] ∷ rest
    → next r ≡ (true, record r { lines = rest; event = unnamed json })
unfolding conclude
next_data r json rest h d l =
    next_live r d
    ∙ ap (λ (ls : List Bytes). conclude r (read_record no_record ls)) l
    ∙ ap (conclude r) (
        read_record-encode (record { name = []; first = json; more = [] }) rest
          (record { name_line = empty-NoCr; data_lines = (h, tt); starts = inr refl }))

Delivers-lines_of :
    (fs : List Frame) (r : Reader)
    → All IsJsonLine (events_of fs)
    → r.lines ≡ lines_of fs
    → r.scan_err ≡ GoError.nil
    → r.err ≡ GoError.nil
    → r.done ≡ false
    → Delivers r (map unnamed (events_of fs))
Delivers-lines_of [] r h l s e d = Delivers-encode_all [] r tt l s e d
Delivers-lines_of (data_frame json ∷ fs) r h l s e d =
    let step = next_data r json (lines_of fs) h.0.clean d l in
    rw step (refl, refl, Delivers-lines_of fs _ h.1 refl s e d)
Delivers-lines_of (keep_alive ∷ fs) r h l s e d =
    Delivers-next r (record r { lines = lines_of fs }) (map unnamed (events_of fs))
      (next_beat r (lines_of fs) d l)
      (Delivers-lines_of fs (record r { lines = lines_of fs }) h refl s e d)

-- Whatever the heartbeat did: if the handler has returned, no write has failed, and every frame that
-- the handler had to send is one line of JSON that fits the buffer of 8 MiB, then the reader takes
-- exactly these from the response, in their order, and then the end without error.
pub Delivers-start_heartbeat :
    (interval : ℤ) (frames : List Bytes) (s : Session)
    → Reaches (start_heartbeat interval frames) s
    → is_returned s.loop ≡ true
    → s.broken ≡ false
    → All IsJsonLine frames
    → Delivers (new_reader (new_scanner max_event_bytes s.sent GoError.nil)) (map unnamed frames)
unfolding new_reader
Delivers-start_heartbeat interval frames s r h ok lines =
    let (fs, sent, events) = sent-bytes_of frames interval s r h ok in
    let fine = subst (All IsJsonLine) (sym events) lines in
    subst
      (λ evs.
        Delivers (new_reader (new_scanner max_event_bytes s.sent GoError.nil)) (map unnamed evs))
      events
      (rw
        (
          sent ∙ bytes_of-lines_of fs,
          new_scanner-serialize max_event_bytes (lines_of fs) GoError.nil (lines_of-IsLine fs fine),
        )
        (Delivers-lines_of fs _ fine refl refl refl refl))
