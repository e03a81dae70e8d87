-- ===== src/Sse/Latch.antt =====
-- The end of the reader, and three corners of its record format.
use skyl.Prelude.{
  ℕ, zero, suc, ◌+◌, ◌*◌, ◌≤◌, ◌≡◌, refl, sym, ap, ◌∙◌, Bool, true, false, List, [], ◌∷◌, ◌++◌, map,
  inl, inr, Bool-cases, if◌then◌else◌, Bytes, codes, arith, All, length,
}
use skyl.Sse.{Reader, Scanned, found, ended, read_record, next, conclude}
use skyl.Sse.Encoding.{Message, IsSendable, encode, event_of, join, read_record-encode, next_live}
use skyl.Sse.Fields.{Record, no_record, append_line, trim_right_cr, apply_line}
use skyl.Sse.Records.{
  NoCr, data_line, event_line, read_record-data_line, read_record-event_line, read_record_blank,
}

conclude-done : (r : Reader) (s : Scanned) → (conclude r s).0 ≡ false → (conclude r s).1.done ≡ true
unfolding conclude
conclude-done r (found ev ls) h = cc
conclude-done r (ended f) h = ground arith

next_done : (r : Reader) → r.done ≡ true → next r ≡ (false, r)
unfolding next
next_done r d = ap (λ b. if b then (false, r) else conclude r (read_record no_record r.lines)) d

ended-done : (r : Reader) → (next r).0 ≡ false → (next r).1.done ≡ true
ended-done r h = elim (Bool-cases r.done) [
  | inl over ↦ rw (next_done r over) over
  | inr live ↦
      rw (next_live r live)
        (conclude-done r (read_record no_record r.lines) (rw (next_live r live) at h))
]

-- Once `Next` has reported the end, it reports the end again and changes nothing: neither the last
-- event nor the error.
pub next_latches : (r : Reader) → (next r).0 ≡ false → next (next r).1 ≡ (false, (next r).1)
next_latches r h = next_done (next r).1 (ended-done r h)

-- whether something was seen before a data line does not matter
seen_before_data :
    (f : Record) (b : Bool) (v : Bytes) (ls : List Bytes)
    → read_record (record f { seen = b }) (data_line v ∷ ls)
      ≡ read_record (record f { seen = true }) (data_line v ∷ ls)
unfolding read_record apply_line trim_right_cr
seen_before_data f b v ls = refl

empty_first :
    (n v : Bytes) (seen : Bool) (ls : List Bytes)
    → read_record (record { name = n; payload = []; seen = seen }) (data_line [] ∷ data_line v ∷ ls)
      ≡ read_record (record { name = n; payload = []; seen = seen }) (data_line v ∷ ls)
unfolding append_line
empty_first n v seen ls =
    let f : Record = record { name = n; payload = []; seen = seen } in
    read_record-data_line f [] (data_line v ∷ ls) (unfold trim_right_cr in refl)
    ∙ sym (seen_before_data f seen v ls)

-- The first data line of a record is lost if it is empty and another one follows: the reader gives
-- the event that it gives without that line.
pub read_record_empty_first :
    (n v : Bytes) (ws rest : List Bytes)
    → NoCr n
    → read_record no_record (encode (record { name = n; first = []; more = v ∷ ws }) rest)
      ≡ read_record no_record (encode (record { name = n; first = v; more = ws }) rest)
read_record_empty_first [] v ws rest h = empty_first [] v false (map data_line ws ++ ([] ∷ rest))
read_record_empty_first (c ∷ cs) v ws rest h =
    let behind = map data_line ws ++ ([] ∷ rest) in
    read_record-event_line no_record (c ∷ cs) (data_line [] ∷ data_line v ∷ behind) h
    ∙ empty_first (c ∷ cs) v true behind
    ∙ sym (read_record-event_line no_record (c ∷ cs) (data_line v ∷ behind) h)

-- A record with an event name and no data is delivered, as an event with an empty payload.
pub read_record_bare_name :
    (n : Bytes) (rest : List Bytes)
    → NoCr n
    → read_record no_record (event_line n ∷ [] ∷ rest)
      ≡ found (record { name = n; payload = [] }) rest
read_record_bare_name n rest h =
    read_record-event_line no_record n ([] ∷ rest) h ∙ read_record_blank _ rest

abbrev copies : ℕ → Bytes → List Bytes
copies zero v = []
copies (suc n) v = v ∷ copies n v

-- An event of `n + 1` data lines of one byte.
abbrev pub long_message : ℕ → Message
long_message n = record { name = []; first = codes "x"; more = copies n (codes "x") }

join-copies : (n : ℕ) → length (join (codes "x") (copies n (codes "x"))) ≡ 2 * n + 1
join-copies zero = refl
join-copies (suc n) = omega (arith, join-copies n)

copies-NoCr : (n : ℕ) → All NoCr (copies n (codes "x"))
unfolding trim_right_cr
copies-NoCr zero = tt
copies-NoCr (suc n) = (refl, copies-NoCr n)

short_copies : (n : ℕ) → All (λ l. length l ≤ 7) (map data_line (copies n (codes "x")) ++ ([] ∷ []))
short_copies zero = (omega arith, tt)
short_copies (suc n) = (omega arith, short_copies n)

long_message-IsSendable : (n : ℕ) → IsSendable (long_message n)
unfolding trim_right_cr
long_message-IsSendable n = record {
  name_line = refl;
  data_lines = (refl, copies-NoCr n);
  starts = inl (λ e. cc);
}

-- The bound on a line is no bound on an event: lines of at most seven bytes give an event of any
-- odd number of bytes.
pub event_unbounded :
    (n : ℕ) (rest : List Bytes)
    → (read_record no_record (encode (long_message n) rest)
        ≡ found (event_of (long_message n)) rest)
      × (length (event_of (long_message n)).payload ≡ 2 * n + 1)
      × All (λ l. length l ≤ 7) (encode (long_message n) [])
event_unbounded n rest = (
  read_record-encode (long_message n) rest (long_message-IsSendable n),
  join-copies n,
  (omega arith, short_copies n),
)
