-- ===== src/Gateway/Listed.antt =====
-- The callers that the variable SKYL_AUTH_TOKENS lists, read off its items: a later pair with the same
-- label replaces an earlier one.
use skyl.Prelude.{
  String, ◌≡◌, refl, sym, ap, ◌∙◌, Bool, true, false, not, ◌&&◌, ◌||◌, if◌then◌else◌, List, [], ◌∷◌,
  any, Option, none, some, is_empty, str_eq, Bool-cases, inl, inr, arith, eq_iff,
}
use mathlib.Core.Path.{subst}
use skyl.Result.{Result, ok, err, and_then}
use skyl.Gateway.{Entries, bearer}
use skyl.Gateway.Access.{HasLabels, presents}
use skyl.Gateway.Environment.{
  Environment, put_entry, trimmed, split_list, trim_both, add_pair, add_pairs,
  parse_labelled_tokens, auth_tokens_from_env,
}

abbrev pub repeated : String → Entries String → Bool
repeated label pairs = any (λ p. str_eq p.0 label) pairs

-- A header is the bearer form of a token whose label no later pair repeats.
abbrev pub opens : String → Entries String → Bool
opens got [] = false
opens got ((label, token) ∷ pairs) =
    (not (repeated label pairs) && str_eq got (bearer token)) || opens got pairs

-- The same of a table, whose entries the pairs still replace.
abbrev kept : String → Entries String → Entries String → Bool
kept got pairs [] = false
kept got pairs ((label, token) ∷ out) =
    (not (repeated label pairs) && str_eq got (bearer token)) || kept got pairs out

abbrev IsDistinct : Entries String → Type 0
IsDistinct [] = Unit
IsDistinct ((label, token) ∷ m) = (repeated label m ≡ false) × IsDistinct m

str_eq_sym : (a b : String) → str_eq a b ≡ str_eq b a
str_eq_sym a b = elim (Bool-cases (str_eq a b)) [
  | inl e ↦ rw ((eq_iff a b).0 e) refl
  | inr e ↦ elim (Bool-cases (str_eq b a)) [
    | inl d ↦ rw ((eq_iff b a).0 d) refl
    | inr d ↦ e ∙ sym d
  ]
]

repeated-put_entry :
    (k label token : String) (m : Entries String)
    → repeated k (put_entry label token m) ≡ (str_eq label k || repeated k m)
unfolding put_entry
repeated-put_entry k label token [] = refl
repeated-put_entry k label token ((j, w) ∷ m) = elim (Bool-cases (str_eq j label)) [
  | inl e ↦ rw (e, (eq_iff j label).0 e) (ground arith)
  | inr e ↦ rw e (ground (arith, repeated-put_entry k label token m))
]

put_entry-IsDistinct :
    (label token : String) (m : Entries String)
    → IsDistinct m
    → IsDistinct (put_entry label token m)
unfolding put_entry
put_entry-IsDistinct label token [] d = (refl, tt)
put_entry-IsDistinct label token ((j, w) ∷ m) d = elim (Bool-cases (str_eq j label)) [
  | inl e ↦ rw e (rw ((eq_iff j label).0 e) at d)
  | inr e ↦ rw e (
    repeated-put_entry j label token m ∙ ground (arith, str_eq_sym label j, d.0),
    put_entry-IsDistinct label token m d.1,
  )
]

pub put_entry-HasLabels :
    (label token : String) (m : Entries String)
    → is_empty label ≡ false
    → HasLabels m
    → HasLabels (put_entry label token m)
unfolding put_entry
put_entry-HasLabels label token [] h n = (h, tt)
put_entry-HasLabels label token ((l, t) ∷ m) h n = elim (Bool-cases (str_eq l label)) [
  | inl e ↦ rw e (h, n.1)
  | inr e ↦ rw e (n.0, put_entry-HasLabels label token m h n.1)
]

or_false : (a b : Bool) → (a || b) ≡ false → b ≡ false
or_false a b h = ground (arith, h)

kept-unrepeated :
    (got label token : String) (pairs m : Entries String)
    → repeated label m ≡ false
    → kept got ((label, token) ∷ pairs) m ≡ kept got pairs m
kept-unrepeated got label token pairs [] h = refl
kept-unrepeated got label token pairs ((j, w) ∷ m) h = ground (
  arith,
  h,
  str_eq_sym label j,
  kept-unrepeated got label token pairs m (or_false (str_eq j label) (repeated label m) h),
)

kept-put_entry :
    (got label token : String) (pairs m : Entries String)
    → IsDistinct m
    → kept got pairs (put_entry label token m) ≡ (
        (not (repeated label pairs) && str_eq got (bearer token))
        || kept got ((label, token) ∷ pairs) m)
unfolding put_entry
kept-put_entry got label token pairs [] d = refl
kept-put_entry got label token pairs ((j, w) ∷ m) d = elim (Bool-cases (str_eq j label)) [
  | inl e ↦
      let same = (eq_iff j label).0 e in
      rw e (
        ground
          (arith, e, str_eq_sym label j, kept-unrepeated got label token pairs m (rw same at d.0)))
  | inr e ↦ rw e (ground (arith, e, str_eq_sym label j, kept-put_entry got label token pairs m d.1))
]

kept-presents : (got : String) (m : Entries String) → presents got m ≡ kept got [] m
kept-presents got [] = refl
kept-presents got ((l, t) ∷ m) = ap (λ b. str_eq got (bearer t) || b) (kept-presents got m)

module _ (env : Environment) where
  abbrev is_pair : Option (String × String) → Bool
  is_pair none = false
  is_pair (some (label, token)) =
      not (is_empty (env.trim_space label)) && not (is_empty (env.trim_space token))

  abbrev pair_before : Option (String × String) → Entries String → Entries String
  pair_before none pairs = pairs
  pair_before (some (label, token)) pairs = (env.trim_space label, env.trim_space token) ∷ pairs

  -- Each item that is not blank has a colon, with a label and a token around it.
  abbrev pub well_formed : List String → Bool
  well_formed [] = true
  well_formed (item ∷ items) =
      (is_empty (env.trim_space item) || is_pair (env.cut_colon (env.trim_space item)))
      && well_formed items

  -- The labels and tokens of the items that are not blank, in their order.
  abbrev pub listed : List String → Entries String
  listed [] = []
  listed (item ∷ items) =
      if is_empty (env.trim_space item)
      then listed items
      else pair_before (env.cut_colon (env.trim_space item)) (listed items)

  -- A table that a loop gives has labels, its items are well formed, and it presents what it should.
  abbrev pub OkTable : String → Bool → Bool → Result (Entries String) → Type 0
  OkTable got formed presented (ok m) = HasLabels m × (formed ≡ true) × (presents got m ≡ presented)
  OkTable got formed presented (err e) = Unit

  -- The loop over some items, from every table that it can start with.
  abbrev IsRead : String → List String → Type 0
  IsRead got items =
      (out : Entries String)
      → HasLabels out
      → IsDistinct out
      → OkTable got (well_formed items) (kept got (listed items) out || opens got (listed items))
          (add_pairs env (trimmed env items) out)

  add_pair-OkTable :
      (got item : String) (items : List String) (cut : Option (String × String))
      (out : Entries String)
      → IsRead got items
      → HasLabels out
      → IsDistinct out
      → OkTable got
          (is_pair cut && well_formed items)
          (kept got (pair_before cut (listed items)) out
            || opens got (pair_before cut (listed items)))
          (and_then (add_pair env item (trim_both env cut) out) (add_pairs env (trimmed env items)))
  unfolding add_pair
  add_pair-OkTable got item items none out go h d = tt
  add_pair-OkTable got item items (some (l, t)) out go h d =
      let label = env.trim_space l in
      let token = env.trim_space t in
      elim (Bool-cases (is_empty label)) [
        | inl e ↦ rw e tt
        | inr e ↦ elim (Bool-cases (is_empty token)) [
          | inl n ↦ rw (e, n) tt
          | inr n ↦
              rw (e, n)
                (subst
                  (λ b.
                    OkTable got (well_formed items) b
                      (add_pairs env (trimmed env items) (put_entry label token out)))
                  (ground (arith, kept-put_entry got label token (listed items) out d))
                  (go (put_entry label token out) (put_entry-HasLabels label token out e h)
                    (put_entry-IsDistinct label token out d)))
        ]
      ]

  add_pairs-IsRead : (got : String) (items : List String) → IsRead got items
  unfolding add_pairs trimmed
  add_pairs-IsRead got [] out h d = (h, refl, ground (arith, kept-presents got out))
  add_pairs-IsRead got (item ∷ items) out h d = elim (Bool-cases (is_empty (env.trim_space item))) [
    | inl e ↦ rw e (add_pairs-IsRead got items out h d)
    | inr e ↦ rw e (
        add_pair-OkTable got (env.trim_space item) items (env.cut_colon (env.trim_space item)) out
          (add_pairs-IsRead got items) h d)
  ]

  -- The items of the variable; there is none if it is empty or not set.
  abbrev pub items_of : String → List String
  items_of raw = if is_empty raw then [] else env.split_commas raw

  pub tokens-OkTable :
      (got : String)
      → OkTable got
          (well_formed (items_of (env.getenv "SKYL_AUTH_TOKENS")))
          (opens got (listed (items_of (env.getenv "SKYL_AUTH_TOKENS"))))
          (auth_tokens_from_env env)
  unfolding auth_tokens_from_env parse_labelled_tokens split_list
  tokens-OkTable got = elim (Bool-cases (is_empty (env.getenv "SKYL_AUTH_TOKENS"))) [
    | inl e ↦ rw e (tt, refl, refl)
    | inr e ↦
        rw e (add_pairs-IsRead got (env.split_commas (env.getenv "SKYL_AUTH_TOKENS")) [] tt tt)
  ]
