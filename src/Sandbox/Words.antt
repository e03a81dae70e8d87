-- ===== src/Sandbox/Words.antt =====
-- The words of texts: what a limit on tokens makes of an answer.
use skyl.Prelude.{
  ℕ, zero, suc, ◌≤◌, ◌<◌, ◌≡◌, refl, ap, sym, ◌∙◌, false, not, ◌&&◌, List, [], ◌∷◌, ◌++◌, null,
  length, take, leb, All, append-nil, append_assoc, Bool-cases, inl, inr, arith, pos, leb_ℤ, ◌==◌,
  if◌then◌else◌,
}
use skyl.Sandbox.{Runes, is_space, fields_from, fields, join_words, truncate, count_tokens}

-- A word: it has no white space, and is not empty.
pub record IsWord (w : Runes) : Type 0 where
  pub solid : All (λ c. is_space c ≡ false) w
  pub filled : null w ≡ false

null-append : (w v : Runes) → null (w ++ v) ≡ (null w && null v)
null-append [] v = refl
null-append (c ∷ w) v = refl

All-append :
    (w : Runes) (c : ℕ)
    → All (λ d. is_space d ≡ false) w
    → is_space c ≡ false
    → All (λ d. is_space d ≡ false) (w ++ (c ∷ []))
All-append [] c h e = (e, tt)
All-append (d ∷ w) c h e = (h.0, All-append w c h.1 e)

pub fields_from-IsWord :
    (w s : Runes) → All (λ c. is_space c ≡ false) w → All IsWord (fields_from w s)
unfolding fields_from
fields_from-IsWord w [] h = elim (Bool-cases (null w)) [
  | inl e ↦ rw e tt
  | inr e ↦ rw e (record { solid = h; filled = e }, tt)
]
fields_from-IsWord w (c ∷ cs) h = elim (Bool-cases (is_space c)) [
  | inr e ↦ rw e (fields_from-IsWord (w ++ (c ∷ [])) cs (All-append w c h e))
  | inl e ↦ elim (Bool-cases (null w)) [
    | inl f ↦ rw (e, f) (fields_from-IsWord [] cs tt)
    | inr f ↦ rw (e, f) (record { solid = h; filled = f }, fields_from-IsWord [] cs tt)
  ]
]

-- A solid stretch is read into the word.
fields_from-append :
    (w v rest : Runes)
    → All (λ c. is_space c ≡ false) v
    → fields_from w (v ++ rest) ≡ fields_from (w ++ v) rest
unfolding fields_from
fields_from-append w [] rest h = ap (λ x. fields_from x rest) (sym (append-nil w))
fields_from-append w (c ∷ cs) rest h =
    rw (h.0, fields_from)
      (fields_from-append (w ++ (c ∷ [])) cs rest h.1
        ∙ ap (λ x. fields_from x rest) (append_assoc w (c ∷ []) cs))

-- Words that are joined are read back.
pub fields-join_words : (ws : List Runes) → All IsWord ws → fields (join_words ws) ≡ ws
unfolding fields_from is_space
fields-join_words [] h = refl
fields-join_words (w ∷ []) h =
    ap (λ x. fields_from [] x) (sym (append-nil w))
    ∙ fields_from-append [] w [] h.0.solid
    ∙ rw (h.0.filled, fields_from) refl
fields-join_words (w ∷ v ∷ ws) h =
    fields_from-append [] w (32 ∷ join_words (v ∷ ws)) h.0.solid
    ∙ rw (h.0.filled, fields_from) (ap (λ x. w ∷ x) (fields-join_words (v ∷ ws) h.1))

All-take : (n : ℕ) (ws : List Runes) → All IsWord ws → All IsWord (take n ws)
All-take zero ws h = tt
All-take (suc n) [] h = tt
All-take (suc n) (w ∷ ws) h = (h.0, All-take n ws h.1)

length-take_few : (n : ℕ) (ws : List Runes) → n ≤ length ws → length (take n ws) ≡ n
length-take_few zero ws h = refl
length-take_few (suc n) [] h = absurd (omega arith)
length-take_few (suc n) (w ∷ ws) h = ap suc (length-take_few n ws (omega arith))

take_all : (n : ℕ) (ws : List Runes) → length ws ≤ n → take n ws ≡ ws
take_all zero [] h = refl
take_all zero (w ∷ ws) h = absurd (omega arith)
take_all (suc n) [] h = refl
take_all (suc n) (w ∷ ws) h = ap (λ x. w ∷ x) (take_all n ws (omega arith))

length-take_most : (n : ℕ) (ws : List Runes) → length (take n ws) ≤ n
length-take_most zero ws = omega arith
length-take_most (suc n) [] = omega arith
length-take_most (suc n) (w ∷ ws) = let h = length-take_most n ws in omega arith

positive : (n : ℕ) → 0 < n → leb_ℤ (pos n) (pos 0) ≡ false
positive n p = ground arith

fields-join_words-take :
    (n : ℕ) (answer : Runes) → fields (join_words (take n (fields answer))) ≡ take n (fields answer)
fields-join_words-take n answer =
    fields-join_words (take n (fields answer))
      (All-take n (fields answer) (fields_from-IsWord [] answer tt))

truncate_lem :
    (answer : Runes) (n : ℕ)
    → 0 < n
    → (fields (truncate answer (pos n)).0 ≡ take n (fields answer))
      × ((truncate answer (pos n)).1 ≡ not (leb (length (fields answer)) n))
unfolding truncate
truncate_lem answer n p = elim (Bool-cases (leb (length (fields answer)) n)) [
  | inl few ↦ rw (positive n p, few) (sym (take_all n (fields answer) (ground arith)), refl)
  | inr many ↦ rw (positive n p, many) (fields-join_words-take n answer, refl)
]

one_or : (m n : ℕ) → m ≤ n → 0 < n → (if m == 0 then 1 else m) ≤ n
one_or m n h p = elim (Bool-cases (m == 0)) [ inl e ↦ rw e p | inr e ↦ rw e h ]

-- Under a positive limit an answer keeps its first words, as many as the limit allows; it is reported
-- as cut exactly if it had more; and the tokens that are counted of it are not over the limit.
pub count_tokens-truncate :
    (answer : Runes) (n : ℕ)
    → 0 < n
    → (fields (truncate answer (pos n)).0 ≡ take n (fields answer))
      × ((truncate answer (pos n)).1 ≡ not (leb (length (fields answer)) n))
      × (count_tokens (truncate answer (pos n)).0 ≤ n)
unfolding count_tokens
count_tokens-truncate answer n p =
    let (kept, cut) = truncate_lem answer n p in
    (
      kept,
      cut,
      rw kept (one_or (length (take n (fields answer))) n (length-take_most n (fields answer)) p),
    )
