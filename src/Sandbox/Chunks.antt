-- ===== src/Sandbox/Chunks.antt =====
-- What a streamed answer of the sandbox adds up to.
use skyl.Prelude.{
  ℕ, zero, suc, ◌+◌, ◌≤◌, ◌<◌, ◌≡◌, refl, ap, sym, ◌∙◌, false, List, [], ◌∷◌, ◌++◌, null, length,
  take, ltb, All, append-nil, append_assoc, Bool-cases, inl, inr, arith,
}
use skyl.Sandbox.{Runes, fields, join_words, drop, pieces, chunk_words, chunk, max_chunk_runes}
use skyl.Sandbox.Words.{IsWord, fields_from-IsWord}

-- Pieces put together.
abbrev pub together : List Runes → Runes
together [] = []
together (c ∷ cs) = c ++ together cs

-- A piece is not empty and has seven runes at most.
abbrev pub IsPiece : Runes → Type 0
IsPiece c = (0 < length c) × (length c ≤ max_chunk_runes)

together-append : (a b : List Runes) → together (a ++ b) ≡ together a ++ together b
together-append [] b = refl
together-append (c ∷ cs) b =
    ap (λ x. c ++ x) (together-append cs b) ∙ sym (append_assoc c (together cs) (together b))

All-join : (a b : List Runes) → All IsPiece a → All IsPiece b → All IsPiece (a ++ b)
All-join [] b h k = k
All-join (c ∷ cs) b h k = (h.0, All-join cs b h.1 k)

pub take-drop : (n : ℕ) (r : Runes) → take n r ++ drop n r ≡ r
take-drop zero r = refl
take-drop (suc n) [] = refl
take-drop (suc n) (c ∷ cs) = ap (λ x. c ∷ x) (take-drop n cs)

length-drop : (n : ℕ) (r : Runes) → n ≤ length r → length (drop n r) + n ≡ length r
length-drop zero r h = omega arith
length-drop (suc n) [] h = absurd (omega arith)
length-drop (suc n) (c ∷ cs) h = let e = length-drop n cs (omega arith) in omega arith

length-take_exact : (n : ℕ) (r : Runes) → n ≤ length r → length (take n r) ≡ n
length-take_exact zero r h = refl
length-take_exact (suc n) [] h = absurd (omega arith)
length-take_exact (suc n) (c ∷ cs) h = ap suc (length-take_exact n cs (omega arith))

-- A word is cut into pieces, for which its length is fuel enough.
pieces_lem :
    (fuel : ℕ) (r : Runes)
    → 0 < length r
    → length r ≤ fuel
    → (together (pieces fuel r) ≡ r) × All IsPiece (pieces fuel r)
unfolding pieces
pieces_lem zero r h f = absurd (omega arith)
pieces_lem (suc fuel) r h f = elim (Bool-cases (ltb max_chunk_runes (length r))) [
  | inr short ↦ rw short (append-nil r, ((h, ground arith), tt))
  | inl long ↦
      let left = length-drop max_chunk_runes r (ground arith) in
      let (same, all) = pieces_lem fuel (drop max_chunk_runes r) (ground arith) (ground arith) in
      let first = length-take_exact max_chunk_runes r (ground arith) in
      rw long (
        ap (λ x. take max_chunk_runes r ++ x) same ∙ take-drop max_chunk_runes r,
        ((omega arith, omega arith), all),
      )
]

word_length : (w : Runes) → null w ≡ false → 0 < length w
word_length [] h = absurd (cc h)
word_length (c ∷ cs) h = omega arith

length-append : (a b : Runes) → length (a ++ b) ≡ length a + length b
length-append [] b = omega arith
length-append (c ∷ a) b = let e = length-append a b in omega arith

chunk_words_lem :
    (ws : List Runes)
    → All IsWord ws
    → (together (chunk_words ws) ≡ join_words ws) × All IsPiece (chunk_words ws)
unfolding chunk_words
chunk_words_lem [] h = (refl, tt)
chunk_words_lem (w ∷ []) h = pieces_lem (length w) w (word_length w h.0.filled) (omega arith)
chunk_words_lem (w ∷ v ∷ ws) h =
    let spaced = w ++ (32 ∷ []) in
    let size = length-append w (32 ∷ []) in
    let (same, all) = pieces_lem (length spaced) spaced (omega arith) (omega arith) in
    let (rest, more) = chunk_words_lem (v ∷ ws) h.1 in
    (
      together-append (pieces (length spaced) spaced) (chunk_words (v ∷ ws))
          ∙ ap (λ x. x ++ together (chunk_words (v ∷ ws))) same
          ∙ ap (λ x. spaced ++ x) rest
          ∙ append_assoc w (32 ∷ []) (join_words (v ∷ ws)),
      All-join (pieces (length spaced) spaced) (chunk_words (v ∷ ws)) all more,
    )

-- The deltas of an answer add up to its words with one space between them, which is the answer only
-- if it has no other white space; and no delta is empty or longer than seven runes.
pub chunk-fields :
    (answer : Runes)
    → (together (chunk answer) ≡ join_words (fields answer)) × All IsPiece (chunk answer)
unfolding chunk
chunk-fields answer = chunk_words_lem (fields answer) (fields_from-IsWord [] answer tt)
