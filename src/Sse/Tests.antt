-- ===== src/Sse/Tests.antt =====
-- Tests of internal/sse/sse.go, and the theorems at concrete inputs.
use skyl.Prelude.{◌≡◌, refl, true, false, List, [], ◌∷◌, map, inl, inr, Bytes, codes, arith, All}
use skyl.Errors.{GoError}
use skyl.Sse.{Reader, found, read_record, next, new_reader, max_event_bytes}
use skyl.Sse.Encoding.{Message, IsSendable, encode, encode_all, event_of, Delivers}
use skyl.Sse.Fields.{no_record, trim_right_cr, apply_line}
use skyl.Sse.Latch.{read_record_empty_first}
use skyl.Sse.Lines.{new_scanner, drop_cr}
use skyl.Sse.Serial.{serialize, IsLine, Delivers-serialize}

abbrev body : Bytes
body = codes ": hi\nevent: delta\r\ndata: {}\ndata: 2\n\n\nid: 4\ndata:last"

abbrev reader : Reader
reader = record {
  lines = [];
  scan_err = GoError.nil;
  event = record { name = []; payload = [] };
  err = GoError.nil;
  done = true;
}

scanned :
    (new_scanner 100 body GoError.nil).lines
    ≡ codes ": hi"
      ∷ codes "event: delta"
      ∷ codes "data: {}"
      ∷ codes "data: 2"
      ∷ []
      ∷ []
      ∷ codes "id: 4"
      ∷ codes "data:last"
      ∷ []
unfolding new_scanner
scanned = refl

first_event :
    read_record no_record
      (codes ": hi" ∷ codes "event: delta" ∷ codes "data: {}" ∷ codes "data: 2" ∷ [] ∷ [])
    ≡ found (record { name = codes "delta"; payload = codes "{}\n2" }) []
unfolding read_record apply_line
first_event = refl

abbrev sent : List Message
sent =
    record { name = codes "delta"; first = codes "{"; more = codes "}" ∷ [] }
    ∷ record { name = []; first = codes "[DONE]"; more = [] }
    ∷ []

sent-IsSendable : All IsSendable sent
unfolding trim_right_cr
sent-IsSendable = (
  record { name_line = refl; data_lines = (refl, (refl, tt)); starts = inl (λ e. cc) },
  (record { name_line = refl; data_lines = (refl, tt); starts = inr refl }, tt),
)

-- The lines of the body of `sent` fit the buffer.
sent_fit : All (IsLine max_event_bytes) (encode_all sent [])
unfolding drop_cr
sent_fit = ground arith

Delivers-serialize_example :
    Delivers
      (new_reader (new_scanner max_event_bytes (serialize (encode_all sent [])) GoError.nil))
      (map event_of sent)
Delivers-serialize_example = Delivers-serialize sent sent-IsSendable sent_fit

abbrev empty_reader : Reader
empty_reader = record reader { done = false }

empty_reader_ends : (next empty_reader).0 ≡ false
unfolding next read_record
empty_reader_ends = refl

read_record_empty_first_example :
    read_record no_record
      (encode (record { name = codes "delta"; first = []; more = codes "x" ∷ [] }) [])
    ≡ read_record no_record
        (encode (record { name = codes "delta"; first = codes "x"; more = [] }) [])
unfolding trim_right_cr
read_record_empty_first_example = read_record_empty_first (codes "delta") (codes "x") [] [] refl
