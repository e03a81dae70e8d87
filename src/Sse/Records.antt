-- ===== src/Sse/Records.antt =====
-- What single lines do to a record.
use skyl.Prelude.{◌≡◌, refl, true, List, [], ◌∷◌, ◌++◌, if◌then◌else◌, Bytes, codes}
use skyl.Sse.{found, as_event, read_record}
use skyl.Sse.Fields.{Record, no_record, trim_right_cr, append_line, apply_line}

-- The line ends in no carriage return.
abbrev pub NoCr : Bytes → Type 0
NoCr v = trim_right_cr v ≡ v

abbrev pub data_line : Bytes → Bytes
data_line v = codes "data: " ++ v

abbrev pub event_line : Bytes → Bytes
event_line v = codes "event: " ++ v

abbrev pub comment_line : Bytes → Bytes
comment_line v = b':' ∷ v

pub apply_line-data_line :
    (f : Record) (v : Bytes)
    → NoCr v
    → apply_line f (data_line v) ≡ record f { payload = append_line f.payload v; seen = true }
unfolding apply_line trim_right_cr
apply_line-data_line f v h = rw (h, trim_right_cr) (unfold append_line in refl)

pub apply_line-event_line :
    (f : Record) (v : Bytes)
    → NoCr v
    → apply_line f (event_line v) ≡ record f { name = v; seen = true }
unfolding apply_line trim_right_cr
apply_line-event_line f v h = rw (h, trim_right_cr) refl

-- A comment changes nothing.
pub read_record-comment_line :
    (f : Record) (v : Bytes) (ls : List Bytes)
    → read_record f (comment_line v ∷ ls) ≡ read_record f ls
unfolding read_record apply_line trim_right_cr
read_record-comment_line f v ls = refl

pub read_record-data_line :
    (f : Record) (v : Bytes) (ls : List Bytes)
    → NoCr v
    → read_record f (data_line v ∷ ls)
      ≡ read_record (record f { payload = append_line f.payload v; seen = true }) ls
unfolding read_record trim_right_cr
read_record-data_line f v ls h = rw (apply_line-data_line f v h)

pub read_record-event_line :
    (f : Record) (v : Bytes) (ls : List Bytes)
    → NoCr v
    → read_record f (event_line v ∷ ls) ≡ read_record (record f { name = v; seen = true }) ls
unfolding read_record trim_right_cr
read_record-event_line f v ls h = rw (apply_line-event_line f v h)

-- A blank line ends a record, and is skipped where there is none.
pub read_record_blank :
    (f : Record) (ls : List Bytes)
    → read_record f ([] ∷ ls) ≡ (if f.seen then found (as_event f) ls else read_record no_record ls)
unfolding read_record trim_right_cr
read_record_blank f ls = refl
