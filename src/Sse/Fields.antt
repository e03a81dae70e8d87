-- ===== src/Sse/Fields.antt =====
-- internal/sse/sse.go: what one line does to the record that is being read.
use skyl.Prelude.{
  Bool, true, false, not, ◌&&◌, [], ◌∷◌, ◌++◌, null, ◌==◌, if◌then◌else◌, Bytes, codes,
}

-- The local variables of `Next`. A nil `data` and an empty one are not told apart: the code appends
-- to nil, so `data` is nil exactly if it is empty.
pub record Record : Type 0 where
  pub name : Bytes
  pub payload : Bytes
  pub seen : Bool

abbrev pub no_record : Record
no_record = record { name = []; payload = []; seen = false }

-- `bytes.TrimRight(line, "\r")`
unfoldable pub trim_right_cr : Bytes → Bytes
trim_right_cr [] = []
trim_right_cr (c ∷ cs) =
    let rest = trim_right_cr cs in if c == b'\r' && null rest then [] else c ∷ rest

unfoldable pub blank : Bytes → Bool
unfolding trim_right_cr
blank line = null (trim_right_cr line)

-- `bytes.Cut(line, ":")`: before and behind the first colon; the whole line and nothing without one.
unfoldable pub cut_colon : Bytes → Bytes × Bytes
cut_colon [] = ([], [])
cut_colon (c ∷ cs) =
    let (before, behind) = cut_colon cs in if c == b':' then ([], cs) else (c ∷ before, behind)

-- `bytes.TrimPrefix(value, " ")`
unfoldable pub trim_space : Bytes → Bytes
trim_space [] = []
trim_space (c ∷ cs) = if c == b' ' then cs else c ∷ cs

unfoldable pub equal : Bytes → Bytes → Bool
equal [] word = null word
equal (c ∷ field) [] = false
equal (c ∷ field) (d ∷ word) = if c == d then equal field word else false

-- `case "data"`: joined by a newline unless `data` is still nil.
unfoldable pub append_line : Bytes → Bytes → Bytes
append_line payload value = if not (null payload) then payload ++ (b'\n' ∷ value) else value

unfoldable pub set_field : Record → Bytes → Bytes → Record
unfolding equal append_line
set_field f field value =
    if equal field (codes "event")
    then record f { name = value; seen = true }
    else if equal field (codes "data")
    then record f { payload = append_line f.payload value; seen = true }
    else f

abbrev pub starts_with_colon : Bytes → Bool
starts_with_colon [] = false
starts_with_colon (c ∷ cs) = c == b':'

-- A line that is not blank.
unfoldable pub apply_line : Record → Bytes → Record
unfolding trim_right_cr cut_colon trim_space set_field
apply_line f raw =
    let line = trim_right_cr raw in
    if starts_with_colon line
    then f
    else let (field, value) = cut_colon line in set_field f field (trim_space value)
