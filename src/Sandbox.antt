-- ===== src/Sandbox.antt =====
-- internal/sandbox/sandbox.go: the model of the sandbox, which answers without a provider. A text that
-- is cut by words or runes is a list of code points.
pub mod Words
pub mod Chunks
pub mod Tools
pub mod Schema
pub mod Faults
pub mod Tests
use skyl.Prelude.{
  ℕ, zero, suc, ◌≤◌, String, Bool, true, false, not, ◌&&◌, ◌||◌, List, [], ◌∷◌, ◌++◌, null, length,
  take, ltb, leb, ◌==◌, if◌then◌else◌, str_eq, Option, none, some, ℤ, pos, leb_ℤ, pos_part, any,
}

abbrev pub Runes : Type 0
Runes = List ℕ

-- `unicode.IsSpace`
unfoldable pub is_space : ℕ → Bool
is_space c =
    (leb 9 c && leb c 13)
    || (c == 32)
    || (c == 0x85)
    || (c == 0xa0)
    || (c == 0x1680)
    || (leb 0x2000 c && leb c 0x200a)
    || (c == 0x2028)
    || (c == 0x2029)
    || (c == 0x202f)
    || (c == 0x205f)
    || (c == 0x3000)

-- `strings.Fields`, from what is read of a word.
unfoldable pub fields_from : Runes → Runes → List Runes
fields_from w [] = if null w then [] else w ∷ []
fields_from w (c ∷ cs) =
    let rest = fields_from (if is_space c then [] else w ++ (c ∷ [])) cs in
    if is_space c && not (null w) then w ∷ rest else rest

abbrev pub fields : Runes → List Runes
fields s = fields_from [] s

-- `strings.Join(words, " ")`
abbrev pub join_words : List Runes → Runes
join_words [] = []
join_words (w ∷ []) = w
join_words (w ∷ v ∷ ws) = w ++ (32 ∷ join_words (v ∷ ws))

-- `truncate`: the answer, and whether it was cut.
unfoldable pub truncate : Runes → ℤ → Runes × Bool
unfolding fields_from
truncate answer max_tokens =
    let words = fields answer in
    if leb_ℤ max_tokens (pos 0) || leb (length words) (pos_part max_tokens)
    then (answer, false)
    else (join_words (take (pos_part max_tokens) words), true)

unfoldable pub count_tokens : Runes → ℕ
unfolding fields_from
count_tokens s = let n = length (fields s) in if n == 0 then 1 else n

abbrev pub max_chunk_runes : ℕ
max_chunk_runes = 7

abbrev pub drop : ℕ → Runes → Runes
drop zero s = s
drop (suc n) [] = []
drop (suc n) (c ∷ cs) = drop n cs

-- The inner loop of `chunk`, on fuel for its turns: a word in pieces of seven runes at most.
unfoldable pub pieces : ℕ → Runes → List Runes
pieces zero r = r ∷ []
pieces (suc fuel) r =
    let rest = pieces fuel (drop max_chunk_runes r) in
    if ltb max_chunk_runes (length r) then take max_chunk_runes r ∷ rest else r ∷ []

-- The loop of `chunk` over the words, all but the last with a space behind them.
unfoldable pub chunk_words : List Runes → List Runes
unfolding pieces
chunk_words [] = []
chunk_words (w ∷ []) = pieces (length w) w
chunk_words (w ∷ v ∷ ws) =
    let spaced = w ++ (32 ∷ []) in pieces (length spaced) spaced ++ chunk_words (v ∷ ws)

unfoldable pub chunk : Runes → List Runes
unfolding chunk_words fields_from
chunk s = chunk_words (fields s)
