-- ===== src/Sse/Serial.antt =====
-- From the bytes of a body to its events.
use skyl.Prelude.{
  ℕ, ◌<◌, ◌≡◌, refl, sym, ap, ◌∙◌, false, List, [], ◌∷◌, ◌++◌, map, length, leb, ◌==◌, Bytes, arith,
  All, append_assoc, append-nil,
}
use skyl.Errors.{GoError}
use skyl.Sse.{new_reader, max_event_bytes}
use skyl.Sse.Encoding.{Message, IsSendable, encode_all, event_of, Delivers, Delivers-encode_all}
use skyl.Sse.Lines.{split_lines, drop_cr, bounded, new_scanner}

-- Lines written one after the other, each with its newline.
abbrev pub serialize : List Bytes → Bytes
serialize [] = []
serialize (l ∷ ls) = l ++ (b'\n' ∷ serialize ls)

-- No newline inside, no carriage return at the end, and room in the buffer.
pub record IsLine (limit : ℕ) (l : Bytes) : Type 0 where
  pub one_line : All (λ c. (c == b'\n') ≡ false) l
  pub no_cr : drop_cr l ≡ l
  pub fits : length l < limit

split_lines-append :
    (l cur rest : Bytes)
    → All (λ c. (c == b'\n') ≡ false) l
    → split_lines cur (l ++ (b'\n' ∷ rest)) ≡ (cur ++ l) ∷ split_lines [] rest
unfolding split_lines
split_lines-append [] cur rest h = ap (λ t. t ∷ split_lines [] rest) (sym (append-nil cur))
split_lines-append (c ∷ cs) cur rest h =
    rw (h.0, split_lines)
      (split_lines-append cs (cur ++ (c ∷ [])) rest h.1
        ∙ ap (λ t. t ∷ split_lines [] rest) (append_assoc cur (c ∷ []) cs))

split_lines-serialize :
    (limit : ℕ) (ls : List Bytes) → All (IsLine limit) ls → split_lines [] (serialize ls) ≡ ls
unfolding split_lines
split_lines-serialize limit [] h = refl
split_lines-serialize limit (l ∷ ls) h =
    split_lines-append l [] (serialize ls) h.0.one_line
    ∙ ap (λ t. l ∷ t) (split_lines-serialize limit ls h.1)

bounded-lines :
    (limit : ℕ) (ls : List Bytes) (err : GoError)
    → All (IsLine limit) ls
    → bounded limit ls err ≡ record { lines = ls; err = err }
unfolding bounded
bounded-lines limit [] err h = refl
bounded-lines limit (l ∷ ls) err h =
    let small : leb limit (length l) ≡ false = ground (arith, h.0.fits) in
    rw (small, bounded-lines limit ls err h.1, h.0.no_cr)

-- The scanner gives back the lines that were written, and then the error that ended the reading.
pub new_scanner-serialize :
    (limit : ℕ) (ls : List Bytes) (err : GoError)
    → All (IsLine limit) ls
    → new_scanner limit (serialize ls) err ≡ record { lines = ls; err = err }
unfolding new_scanner
new_scanner-serialize limit ls err h =
    rw (split_lines-serialize limit ls h) (bounded-lines limit ls err h)

-- A body that holds sent events, with a keep-alive comment in front of each, is read as exactly
-- these events, in order and without error, if every line fits the buffer of 8 MiB, no name and no
-- data line ends in a carriage return, and the first data line of an event is empty only if it is the
-- only one.
pub Delivers-serialize :
    (ms : List Message)
    → All IsSendable ms
    → All (IsLine max_event_bytes) (encode_all ms [])
    → Delivers
        (new_reader (new_scanner max_event_bytes (serialize (encode_all ms [])) GoError.nil))
        (map event_of ms)
unfolding new_reader
Delivers-serialize ms sendable fit =
    rw (new_scanner-serialize max_event_bytes (encode_all ms []) GoError.nil fit)
      (Delivers-encode_all ms _ sendable refl refl refl refl)
