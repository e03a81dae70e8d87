-- ===== src/Oai/Fragments.antt =====
-- The fragments of several tool calls may arrive interleaved: each call is put together from its own.
use skyl.Prelude.{
  ◌≡◌, refl, sym, ap, ◌∙◌, Bool, true, false, ◌||◌, List, [], ◌∷◌, ◌++◌, any, append-nil,
  append_assoc, Option, none, some, if◌then◌else◌, Bool-cases, Option-cases, inl, inr, ℤ, pos,
  negsuc, arith,
}
use skyl.Message.{ToolCall}
use skyl.Oai.{WireToolCall}
use skyl.Oai.Decoder.{
  PendingCall, Pending, eq_ℤ, find_call, put_call, delete_call, index_of, merge_call, accumulate_at,
  accumulate, accumulate_all, whole_call,
}
use skyl.Oai.Finish.{or_dropped, whole_calls}

pub eq_ℤ-≡ : (a b : ℤ) → eq_ℤ a b ≡ true → a ≡ b
eq_ℤ-≡ (pos n) (pos m) h = ap pos (ground arith)
eq_ℤ-≡ (pos n) (negsuc m) h = absurd (ground arith)
eq_ℤ-≡ (negsuc n) (pos m) h = absurd (ground arith)
eq_ℤ-≡ (negsuc n) (negsuc m) h = ap negsuc (ground arith)

eq_ℤ-sym : (a b : ℤ) → eq_ℤ a b ≡ eq_ℤ b a
eq_ℤ-sym a b = ground arith

pub eq_ℤ-refl : (a : ℤ) → eq_ℤ a a ≡ true
eq_ℤ-refl a = ground arith

find_call-put_call :
    (i j : ℤ) (c : PendingCall) (p : Pending)
    → find_call i (put_call j c p) ≡ (if eq_ℤ j i then some c else find_call i p)
unfolding find_call put_call
find_call-put_call i j c [] = refl
find_call-put_call i j c ((k, d) ∷ p) = elim (Bool-cases (eq_ℤ k j)) [
  | inl same ↦
      rw (same, find_call)
        (rw (ap (λ x. eq_ℤ x i) (eq_ℤ-≡ k j same))
          (elim (Bool-cases (eq_ℤ j i)) [ inl e ↦ rw e refl | inr e ↦ rw e refl ]))
  | inr other ↦
      rw (other, find_call)
        (elim (Bool-cases (eq_ℤ j i)) [
          | inl e ↦
              rw (e, sym (ap (eq_ℤ k) (eq_ℤ-≡ j i e)) ∙ other)
                (find_call-put_call i j c p ∙ rw e refl)
          | inr e ↦
              rw e
                (ap (λ x. if eq_ℤ k i then some d else x) (find_call-put_call i j c p ∙ rw e refl))
        ])
]

find_call-delete_call :
    (i j : ℤ) (p : Pending) → eq_ℤ j i ≡ false → find_call i (delete_call j p) ≡ find_call i p
unfolding find_call delete_call
find_call-delete_call i j [] h = refl
find_call-delete_call i j ((k, d) ∷ p) h = elim (Bool-cases (eq_ℤ k j)) [
  | inl same ↦ rw (same, ap (λ x. eq_ℤ x i) (eq_ℤ-≡ k j same) ∙ h) refl
  | inr other ↦
      rw (other, find_call)
        (ap (λ x. if eq_ℤ k i then some d else x) (find_call-delete_call i j p h))
]

abbrev pub or_new : Option PendingCall → PendingCall
or_new none = record { id = ""; name = ""; args = "" }
or_new (some c) = c

abbrev pub key : WireToolCall → ℤ
key w = index_of w.index

-- The fragments of one call.
abbrev pub own : ℤ → List WireToolCall → List WireToolCall
own i [] = []
own i (w ∷ ws) = if eq_ℤ (key w) i then w ∷ own i ws else own i ws

-- A call put together from its fragments: the last identifier and the last name that are not empty,
-- and all pieces of the arguments one behind the other.
abbrev pub assembled : Option PendingCall → List WireToolCall → Option PendingCall
unfolding merge_call
assembled c [] = c
assembled c (w ∷ ws) = assembled (some (merge_call w (or_new c))) ws

find_call-accumulate :
    (i : ℤ) (w : WireToolCall) (s : Pending × List ℤ)
    → find_call i (accumulate w s).0 ≡ (
        if eq_ℤ (key w) i
        then some (merge_call w (or_new (find_call (key w) s.0)))
        else find_call i s.0)
unfolding accumulate accumulate_at
find_call-accumulate i w s = elim (Option-cases (find_call (key w) s.0)) [
  | inl e ↦ rw (e, accumulate_at) (find_call-put_call i (key w) _ s.0)
  | inr (c, e) ↦ rw (e, accumulate_at) (find_call-put_call i (key w) _ s.0)
]

find_call-accumulate_all :
    (i : ℤ) (ws : List WireToolCall) (s : Pending × List ℤ)
    → find_call i (accumulate_all ws s).0 ≡ assembled (find_call i s.0) (own i ws)
unfolding accumulate_all
find_call-accumulate_all i [] s = refl
find_call-accumulate_all i (w ∷ ws) s =
    find_call-accumulate_all i ws (accumulate w s) ∙ elim (Bool-cases (eq_ℤ (key w) i)) [
      | inl e ↦ rw (find_call-accumulate i w s, e, eq_ℤ-≡ (key w) i e) refl
      | inr e ↦ rw (find_call-accumulate i w s, e) refl
    ]

abbrev pub has : ℤ → List ℤ → Bool
has i is = any (λ j. eq_ℤ j i) is

has-snoc : (i j : ℤ) (is : List ℤ) → has i (is ++ (j ∷ [])) ≡ (has i is || eq_ℤ j i)
has-snoc i j [] = ground arith
has-snoc i j (k ∷ is) = ground (arith, has-snoc i j is)

abbrev pub Distinct : List ℤ → Type 0
Distinct [] = Unit
Distinct (i ∷ is) = (has i is ≡ false) × Distinct is

Distinct-snoc : (i : ℤ) (is : List ℤ) → has i is ≡ false → Distinct is → Distinct (is ++ (i ∷ []))
Distinct-snoc i [] h d = (refl, tt)
Distinct-snoc i (k ∷ is) h d =
    (ground (arith, has-snoc k i is, eq_ℤ-sym i k), Distinct-snoc i is (ground arith) d.1)

-- The indices in the order of their first fragments, without those that were seen before.
abbrev pub new_indices : List ℤ → List WireToolCall → List ℤ
new_indices seen [] = []
new_indices seen (w ∷ ws) =
    if has (key w) seen then new_indices seen ws else key w ∷ new_indices (seen ++ (key w ∷ [])) ws

abbrev is_there : Option PendingCall → Bool
is_there none = false
is_there (some c) = true

-- The order lists the keys of the map, each once.
record IsTracked (s : Pending × List ℤ) : Type 0 where
  keys : (i : ℤ) → is_there (find_call i s.0) ≡ has i s.1
  once : Distinct s.1

order_after :
    (w : WireToolCall) (s : Pending × List ℤ)
    → IsTracked s
    → (accumulate w s).1 ≡ (if has (key w) s.1 then s.1 else s.1 ++ (key w ∷ []))
unfolding accumulate accumulate_at
order_after w s h = elim (Option-cases (find_call (key w) s.0)) [
  | inl e ↦ rw (e, accumulate_at, sym (h.keys (key w)) ∙ ap is_there e) refl
  | inr (c, e) ↦ rw (e, accumulate_at, sym (h.keys (key w)) ∙ ap is_there e) refl
]

accumulate-IsTracked :
    (w : WireToolCall) (s : Pending × List ℤ) → IsTracked s → IsTracked (accumulate w s)
accumulate-IsTracked w s h = record {
  keys = λ i.
      rw (find_call-accumulate i w s, order_after w s h)
        (elim (Bool-cases (eq_ℤ (key w) i)) [
          | inl e ↦ elim (Bool-cases (has (key w) s.1)) [
            | inl old ↦ rw (e, old) (sym (ap (λ j. has j s.1) (sym (eq_ℤ-≡ (key w) i e)) ∙ old))
            | inr new ↦ rw (e, new) (ground (arith, has-snoc i (key w) s.1))
          ]
          | inr e ↦ elim (Bool-cases (has (key w) s.1)) [
            | inl old ↦ rw (e, old) (h.keys i)
            | inr new ↦ rw (e, new) (ground (arith, has-snoc i (key w) s.1, h.keys i))
          ]
        ]);
  once = rw (order_after w s h) (elim (Bool-cases (has (key w) s.1)) [
    | inl old ↦ rw old h.once
    | inr new ↦ rw new (Distinct-snoc (key w) s.1 new h.once)
  ]);
}

-- Behind all fragments, the map and the order are still in step, and the order has grown by the
-- indices that are new.
order_after_all :
    (ws : List WireToolCall) (s : Pending × List ℤ)
    → IsTracked s
    → ((accumulate_all ws s).1 ≡ s.1 ++ new_indices s.1 ws) × IsTracked (accumulate_all ws s)
unfolding accumulate_all
order_after_all [] s h = (sym (append-nil s.1), h)
order_after_all (w ∷ ws) s h =
    let (grown, tracked) = order_after_all ws (accumulate w s) (accumulate-IsTracked w s h) in
    (
      grown
          ∙ rw (order_after w s h) (elim (Bool-cases (has (key w) s.1)) [
            | inl old ↦ rw old refl
            | inr new ↦ rw new (append_assoc s.1 (key w ∷ []) _)
          ]),
      tracked,
    )

-- The whole calls at some indices, each put together from its own fragments.
unfoldable pub calls_at : List WireToolCall → List ℤ → List ToolCall
unfolding whole_call
calls_at ws [] = []
calls_at ws (i ∷ is) = or_dropped (whole_call (assembled none (own i ws))) (calls_at ws is)

clash : false ≡ true → ⊥
clash e = absurd (cc e)

-- Taking the calls out one by one is the same as reading each in the whole map, as long as the map
-- holds the assembled call at each index.
whole_calls-calls_at :
    (ws : List WireToolCall) (p : Pending) (is : List ℤ)
    → Distinct is
    → ((i : ℤ) → has i is ≡ true → find_call i p ≡ assembled none (own i ws))
    → whole_calls p is ≡ calls_at ws is
unfolding calls_at whole_calls
whole_calls-calls_at ws p [] d h = refl
whole_calls-calls_at ws p (i ∷ is) d h =
    let apart : (j : ℤ) → has j is ≡ true → eq_ℤ i j ≡ false = λ j at.
      elim (Bool-cases (eq_ℤ i j)) [
        | inl e ↦ absurd (clash (sym d.0 ∙ ap (λ k. has k is) (eq_ℤ-≡ i j e) ∙ at))
        | inr e ↦ e
      ] in
    rw (h i (ground (arith, eq_ℤ-refl i))) (
      ap (or_dropped (whole_call (assembled none (own i ws)))) (
        whole_calls-calls_at ws (delete_call i p) is d.1
          (λ j at. find_call-delete_call j i p (apart j at) ∙ h j (ground arith))))

-- The calls that are given are those that are assembled at the indices, in the order of their first
-- fragments.
pub accumulate_all-calls_at :
    (ws : List WireToolCall)
    → (let s = accumulate_all ws ([], []) in whole_calls s.0 s.1) ≡ calls_at ws (new_indices [] ws)
unfolding find_call
accumulate_all-calls_at ws =
    let (grown, tracked) = order_after_all ws ([], []) (record { keys = λ i. refl; once = tt }) in
    whole_calls-calls_at ws (accumulate_all ws ([], [])).0 (accumulate_all ws ([], [])).1
      tracked.once (λ i at. find_call-accumulate_all i ws ([], []))
    ∙ ap (calls_at ws) grown
