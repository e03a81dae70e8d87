-- ===== src/Sse.antt =====
-- internal/sse/sse.go: the reader of server-sent events, over the lines that `bufio.Scanner` gives.
pub mod Lines
pub mod Fields
pub mod Records
pub mod Encoding
pub mod Latch
pub mod Serial
pub mod Supply
pub mod Pump
pub mod History
pub mod Tests
use skyl.Prelude.{
  ℕ, ◌*◌, ◌^◌, Bool, true, false, not, ◌&&◌, List, [], ◌∷◌, ◌++◌, null, ◌==◌, if◌then◌else◌, Bytes,
}
use skyl.Errors.{GoError, is_nil}
use Lines.{Scanner}
use Fields.{Record, no_record, blank, apply_line}

pub record Event : Type 0 where
  pub name : Bytes
  pub payload : Bytes

pub record Reader : Type 0 where
  pub lines : List Bytes
  pub scan_err : GoError
  pub event : Event
  pub err : GoError
  pub done : Bool

-- 8 << 20
abbrev pub max_event_bytes : ℕ
max_event_bytes = 8 * 2 ^ 20

-- `NewReader`, over a scanner that gives `s.lines` and then ends with `s.err`.
unfoldable pub new_reader : Scanner → Reader
new_reader s = record {
  lines = s.lines;
  scan_err = s.err;
  event = record { name = []; payload = [] };
  err = GoError.nil;
  done = false;
}

-- How the loop over `Scan` ends: at a blank line behind a record, with the lines left, or at the
-- end of the lines, with what was read of a record.
pub data Scanned : Type 0 where
  found : Event → List Bytes → Scanned
  ended : Record → Scanned

abbrev pub as_event : Record → Event
as_event f = record { name = f.name; payload = f.payload }

-- The loop of `Next`, from what is read of the record so far.
unfoldable pub read_record : Record → List Bytes → Scanned
unfolding blank
read_record f [] = ended f
read_record f (l ∷ ls) =
    let rest = read_record (if blank l then no_record else apply_line f l) ls in
    if blank l && f.seen then found (as_event f) ls else rest

-- `Next` after its loop.
unfoldable pub conclude : Reader → Scanned → Bool × Reader
unfolding is_nil
conclude r (found ev ls) = (true, record r { lines = ls; event = ev })
conclude r (ended f) =
    if not (is_nil r.scan_err)
    then (false, record r { lines = []; done = true; err = r.scan_err })
    else if f.seen
    then (true, record r { lines = []; done = true; event = as_event f })
    else (false, record r { lines = []; done = true })

unfoldable pub next : Reader → Bool × Reader
unfolding conclude
next r = if r.done then (false, r) else conclude r (read_record no_record r.lines)
