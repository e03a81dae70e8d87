-- ===== src/Sse/Lines.antt =====
-- `bufio.Scanner` with `ScanLines` and a bound on a line, as internal/sse/sse.go sets it up.
use skyl.Prelude.{ℕ, List, [], ◌∷◌, ◌++◌, null, length, ◌==◌, leb, if◌then◌else◌, Bytes}
use skyl.Errors.{GoError, opaque}

-- The lines that are still to come, and the error behind them (nil at the end of the input).
pub record Scanner : Type 0 where
  pub lines : List Bytes
  pub err : GoError

-- The lines of a text: each up to a newline, and what is left behind the last newline, if anything.
unfoldable pub split_lines : Bytes → Bytes → List Bytes
split_lines line [] = if null line then [] else line ∷ []
split_lines line (c ∷ cs) =
    let rest = split_lines (if c == b'\n' then [] else line ++ (c ∷ [])) cs in
    if c == b'\n' then line ∷ rest else rest

-- One carriage return at the end of a line is dropped.
unfoldable pub drop_cr : Bytes → Bytes
drop_cr [] = []
drop_cr (c ∷ []) = if c == b'\r' then [] else c ∷ []
drop_cr (c ∷ cs) = c ∷ drop_cr cs

abbrev pub too_long : GoError
too_long = opaque "bufio.Scanner: token too long"

-- Scanning stops with an error at the first line that does not fit the buffer.
unfoldable pub bounded : ℕ → List Bytes → GoError → Scanner
unfolding drop_cr
bounded limit [] err = record { lines = []; err = err }
bounded limit (l ∷ ls) err =
    let rest = bounded limit ls err in
    if leb limit (length l)
    then record { lines = []; err = too_long }
    else record { lines = drop_cr l ∷ rest.lines; err = rest.err }

-- The scanner over a body of these bytes whose reading ends with `err`.
unfoldable pub new_scanner : ℕ → Bytes → GoError → Scanner
unfolding split_lines bounded
new_scanner limit body err = bounded limit (split_lines [] body) err
