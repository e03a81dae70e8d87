-- ===== src/Sse/Supply.antt =====
-- How many events a reader can still give, and that reading one uses up a part of that.
use skyl.Prelude.{
  ℕ, suc, ◌<◌, ◌≡◌, ap, true, false, ◌&&◌, List, [], ◌∷◌, length, if◌then◌else◌, Bool-cases, inl,
  inr, Bytes, arith,
}
use skyl.Errors.{is_nil}
use skyl.Sse.{Reader, Scanned, found, ended, read_record, conclude, next}
use skyl.Sse.Fields.{Record, no_record, blank, apply_line}
use skyl.Sse.Encoding.{next_live}

-- Every event takes a line of the reader, except one that the end of the input closes.
abbrev pub supply : Reader → ℕ
supply r = if r.done then 0 else suc (length r.lines)

-- An event that is found leaves fewer lines.
abbrev IsShorter : List Bytes → Scanned → Type 0
IsShorter lines (found ev ls) = length ls < length lines
IsShorter lines (ended f) = Unit

IsShorter-more :
    (l : Bytes) (lines : List Bytes) (x : Scanned) → IsShorter lines x → IsShorter (l ∷ lines) x
IsShorter-more l lines (found ev ls) h = omega arith
IsShorter-more l lines (ended f) h = tt

read_record-IsShorter : (f : Record) (lines : List Bytes) → IsShorter lines (read_record f lines)
unfolding read_record
read_record-IsShorter f [] = tt
read_record-IsShorter f (l ∷ ls) = elim (Bool-cases (blank l && f.seen)) [
  | inl e ↦ rw e (omega arith)
  | inr e ↦ rw e (
      IsShorter-more l ls _
        (read_record-IsShorter (if blank l then no_record else apply_line f l) ls))
]

conclude-supply :
    (r : Reader) (x : Scanned)
    → r.done ≡ false
    → IsShorter r.lines x
    → (conclude r x).0 ≡ true
    → supply (conclude r x).1 < supply r
unfolding conclude
conclude-supply r (found ev ls) d h e = rw d (omega arith)
conclude-supply r (ended f) d h e = elim (Bool-cases (is_nil r.scan_err)) [
  | inl n ↦ elim (Bool-cases f.seen) [
    | inl seen ↦ rw (n, seen, d) (omega arith)
    | inr unseen ↦ cc (rw (n, unseen) at e)
  ]
  | inr n ↦ (ground arith)
]

next_done : (r : Reader) → r.done ≡ true → next r ≡ (false, r)
unfolding next
next_done r d = ap (λ b. if b then (false, r) else conclude r (read_record no_record r.lines)) d

-- Reading an event uses up a part of the reader's supply.
pub next-supply : (r : Reader) → (next r).0 ≡ true → supply (next r).1 < supply r
next-supply r e = elim (Bool-cases r.done) [
  | inl d ↦ cc (rw (next_done r d) at e)
  | inr d ↦ rw (next_live r d) (
      conclude-supply r (read_record no_record r.lines) d (read_record-IsShorter no_record r.lines)
        (rw (next_live r d) at e))
]
