-- ===== src/Sse/Encoding.antt =====
-- The reader gives back what a server sent: events as lines, and their payloads line by line.
use skyl.Prelude.{
  ◌≡◌, ◌≢◌, refl, ap, ◌∙◌, Bool, true, false, List, [], ◌∷◌, ◌++◌, map, null, ◌⊎◌, inl, inr,
  Bool-cases, if◌then◌else◌, Bytes, codes, append_assoc, All,
}
use skyl.Errors.{GoError, is_nil}
use skyl.Sse.{Event, Reader, found, read_record, next, conclude}
use skyl.Sse.Fields.{no_record, append_line}
use skyl.Sse.Records.{
  NoCr, data_line, event_line, comment_line, read_record-data_line, read_record-event_line,
  read_record_blank, read_record-comment_line,
}

-- Lines joined by newlines, as the SSE specification joins the data lines of a record.
abbrev pub join : Bytes → List Bytes → Bytes
join v [] = v
join v (w ∷ ws) = v ++ (b'\n' ∷ join w ws)

-- An event to be sent: its name and the lines of its payload, of which there is at least one.
pub record Message : Type 0 where
  pub name : Bytes
  pub first : Bytes
  pub more : List Bytes

-- The lines that stand for an event: its name, unless that is empty, its data, and a blank line.
abbrev pub encode : Message → List Bytes → List Bytes
encode m rest =
    let behind = map data_line (m.first ∷ m.more) ++ ([] ∷ rest) in
    if null m.name then behind else event_line m.name ∷ behind

-- No line of it ends in a carriage return, and the first data line is not empty unless it is the
-- only one.
pub record IsSendable (m : Message) : Type 0 where
  pub name_line : NoCr m.name
  pub data_lines : All NoCr (m.first ∷ m.more)
  pub starts : (m.first ≢ []) ⊎ (m.more ≡ [])

abbrev pub event_of : Message → Event
event_of m = record { name = m.name; payload = join m.first m.more }

join_line : (p w : Bytes) (ws : List Bytes) → join (p ++ (b'\n' ∷ w)) ws ≡ p ++ (b'\n' ∷ join w ws)
join_line p w [] = refl
join_line p w (u ∷ us) = append_assoc p (b'\n' ∷ w) (b'\n' ∷ join u us)

null-nil {ℓ} : {A : Type ℓ} (xs : List A) → null xs ≡ true → xs ≡ []
null-nil [] h = refl
null-nil (x ∷ xs) h = cc

-- The data lines behind the first.
read_record_more :
    (ws : List Bytes) (n p : Bytes) (rest : List Bytes)
    → All NoCr ws
    → (p ≢ []) ⊎ (ws ≡ [])
    → read_record (record { name = n; payload = p; seen = true }) (map data_line ws ++ ([] ∷ rest))
      ≡ found (record { name = n; payload = join p ws }) rest
unfolding append_line
read_record_more [] n p rest h s = read_record_blank _ rest
read_record_more (w ∷ ws) n [] rest h s = elim s [ inl ne ↦ absurd (ne refl) | inr e ↦ cc ]
read_record_more (w ∷ ws) n (b ∷ bs) rest h s =
    let p = (b ∷ bs) ++ (b'\n' ∷ w) in
    read_record-data_line (record { name = n; payload = b ∷ bs; seen = true }) w _ h.0
    ∙ read_record_more ws n p rest h.1 (inl (λ e. cc))
    ∙ ap (λ t. found (record { name = n; payload = t }) rest) (join_line (b ∷ bs) w ws)

read_record_data :
    (n v : Bytes) (ws : List Bytes) (seen : Bool) (rest : List Bytes)
    → All NoCr (v ∷ ws)
    → (v ≢ []) ⊎ (ws ≡ [])
    → read_record
        (record { name = n; payload = []; seen = seen })
        (map data_line (v ∷ ws) ++ ([] ∷ rest))
      ≡ found (record { name = n; payload = join v ws }) rest
unfolding append_line
read_record_data n v ws seen rest h s =
    read_record-data_line (record { name = n; payload = []; seen = seen }) v _ h.0
    ∙ read_record_more ws n v rest h.1 s

-- The reader decodes an event that was sent, whatever lines follow it.
pub read_record-encode :
    (m : Message) (rest : List Bytes)
    → IsSendable m
    → read_record no_record (encode m rest) ≡ found (event_of m) rest
read_record-encode m rest h = elim (Bool-cases (null m.name)) [
  | inl unnamed ↦ rw unnamed (
      rw (null-nil m.name unnamed)
        (read_record_data [] m.first m.more false rest h.data_lines h.starts))
  | inr named ↦ rw named (
      read_record-event_line no_record m.name _ h.name_line
      ∙ read_record_data m.name m.first m.more true rest h.data_lines h.starts)
]

-- A stream of events with comments, one behind each event.
abbrev pub encode_all : List Message → List Bytes → List Bytes
encode_all [] rest = rest
encode_all (m ∷ ms) rest = comment_line (codes " keep-alive") ∷ encode m (encode_all ms rest)

-- The events that `Next` gives, and whether it then reports the end without error.
abbrev pub Delivers : Reader → List Event → Type 0
Delivers r [] = ((next r).0 ≡ false) × ((next r).1.err ≡ GoError.nil)
Delivers r (ev ∷ evs) = ((next r).0 ≡ true) × ((next r).1.event ≡ ev) × Delivers (next r).1 evs

pub next_live : (r : Reader) → r.done ≡ false → next r ≡ conclude r (read_record no_record r.lines)
unfolding next
next_live r d = ap (λ b. if b then (false, r) else conclude r (read_record no_record r.lines)) d

next_end :
    (r : Reader)
    → r.done ≡ false
    → r.lines ≡ []
    → r.scan_err ≡ GoError.nil
    → r.err ≡ GoError.nil
    → ((next r).0 ≡ false) × ((next r).1.err ≡ GoError.nil)
unfolding conclude read_record is_nil
next_end r d l s e =
    rw (next_live r d ∙ ap (λ (ls : List Bytes). conclude r (read_record no_record ls)) l)
      (rw s (refl, e))

next-encode :
    (m : Message) (rest : List Bytes) (r : Reader)
    → IsSendable m
    → r.lines ≡ comment_line (codes " keep-alive") ∷ encode m rest
    → r.done ≡ false
    → next r ≡ (true, record r { lines = rest; event = event_of m })
unfolding conclude
next-encode m rest r h l d =
    next_live r d
    ∙ ap (λ (ls : List Bytes). conclude r (read_record no_record ls)) l
    ∙ ap (conclude r) (
        read_record-comment_line no_record (codes " keep-alive") (encode m rest)
        ∙ read_record-encode m rest h)

-- A stream of sent events, with keep-alive comments between them, is delivered event by event, in
-- order, and ends without error.
pub Delivers-encode_all :
    (ms : List Message) (r : Reader)
    → All IsSendable ms
    → r.lines ≡ encode_all ms []
    → r.scan_err ≡ GoError.nil
    → r.err ≡ GoError.nil
    → r.done ≡ false
    → Delivers r (map event_of ms)
Delivers-encode_all [] r h l s e d = next_end r d l s e
Delivers-encode_all (m ∷ ms) r h l s e d =
    let step = next-encode m (encode_all ms []) r h.0 l d in
    rw step (refl, refl, Delivers-encode_all ms _ h.1 refl s e d)
