-- ===== src/Gateway/Access.antt =====
-- Who is let in: exactly the callers that present a configured token.
use skyl.Prelude.{
  String, ◌≡◌, refl, ap, ◌∙◌, Bool, true, false, not, ◌&&◌, ◌||◌, [], ◌∷◌, null, any, Option, none,
  some, str_eq, is_empty, Bool-cases, inl, inr, arith, eq_iff,
}
use mathlib.Core.Path.{subst}
use skyl.Gateway.{
  Entries, GatewayConfig, Server, Misconfigured, Built, built, refused, bearer, put_token,
  add_tokens, no_auth_token, matching_label, authenticate, with_tokens, new_server, is_registered,
}

-- A header that presents one of the configured tokens.
abbrev pub presents : String → Entries String → Bool
presents got tokens = any (λ e. str_eq got (bearer e.1)) tokens

abbrev pub credential : {C : Type 0} → GatewayConfig C → String → Bool
credential cfg got = str_eq got (bearer cfg.auth_token) || presents got cfg.auth_tokens

-- Every further token has a label that is not empty.
abbrev pub HasLabels : Entries String → Type 0
HasLabels [] = Unit
HasLabels ((l, t) ∷ m) = (is_empty l ≡ false) × HasLabels m

-- Every label of a table, which stands behind its key, is not empty.
abbrev pub IsNamed : Entries String → Type 0
IsNamed [] = Unit
IsNamed ((k, l) ∷ m) = (is_empty l ≡ false) × IsNamed m

abbrev known : String → Entries String → Bool
known got [] = false
known got ((k, l) ∷ m) = str_eq got k || known got m

-- No further token is empty.
abbrev pub IsFilled : Entries String → Type 0
IsFilled [] = Unit
IsFilled ((l, t) ∷ m) = (is_empty t ≡ false) × IsFilled m

matching_label_lem :
    (got : String) (table : Entries String) (label : String)
    → IsNamed table
    → is_empty (matching_label got table label) ≡ (not (known got table) && is_empty label)
unfolding matching_label
matching_label_lem got [] label h = ground arith
matching_label_lem got ((k, l) ∷ m) label h = elim (Bool-cases (str_eq got k)) [
  | inl e ↦ rw e (matching_label_lem got m l h.1 ∙ (ground (arith, h.0)))
  | inr e ↦ rw e (matching_label_lem got m label h.1)
]

known-put_token :
    (got key label : String) (m : Entries String)
    → known got (put_token key label m) ≡ (str_eq got key || known got m)
unfolding put_token
known-put_token got key label [] = refl
known-put_token got key label ((k, l) ∷ m) = elim (Bool-cases (str_eq k key)) [
  | inl e ↦ rw (e, (eq_iff k key).0 e) (ground arith)
  | inr e ↦ rw e (ground (arith, known-put_token got key label m))
]

put_token-IsNamed :
    (key label : String) (m : Entries String)
    → is_empty label ≡ false
    → IsNamed m
    → IsNamed (put_token key label m)
unfolding put_token
put_token-IsNamed key label [] h n = (h, tt)
put_token-IsNamed key label ((k, l) ∷ m) h n = elim (Bool-cases (str_eq k key)) [
  | inl e ↦ rw e (h, n.1)
  | inr e ↦ rw e (n.0, put_token-IsNamed key label m h n.1)
]

abbrev or_table : Option (Entries String) → Entries String
or_table none = []
or_table (some t) = t

abbrev pub is_some {ℓ} : {A : Type ℓ} → Option A → Bool
is_some none = false
is_some (some a) = true

clash : false ≡ true → ⊥
clash e = absurd (cc e)

-- The loop over the further tokens, where it builds a table.
add_tokens_lem :
    (got : String) (more table : Entries String) (e e' : Misconfigured) (all : Entries String)
    → add_tokens more table e ≡ (some all, e')
    → HasLabels more
    → IsNamed table
    → (known got all ≡ (known got table || presents got more)) × IsNamed all × IsFilled more
unfolding add_tokens
add_tokens_lem got [] table e e' all h n t =
    subst (λ x. (known got x ≡ (known got table || false)) × IsNamed x × Unit)
      (ap (λ x. or_table x.0) h) (ground arith, t, tt)
add_tokens_lem got ((l, k) ∷ more) table e e' all h n t = elim (Bool-cases (is_empty k)) [
  | inl empty ↦ absurd (clash (ap (λ x. is_some x.0) (rw empty at h)))
  | inr filled ↦
      let (same, named, rest) =
        add_tokens_lem got more (put_token (bearer k) l table) e e' all (rw filled at h) n.1
          (put_token-IsNamed (bearer k) l table n.0 t) in
      (same ∙ ground (arith, known-put_token got (bearer k) l table), named, (filled, rest))
]

module _ {C : Type 0} where
  abbrev or_server : Built C → Option (Server C)
  or_server (built s) = some s
  or_server (refused e) = none

  abbrev tokens_of : Option (Server C) → Option (Entries String)
  tokens_of none = none
  tokens_of (some s) = some s.tokens

  -- The server that the last step builds has a table that the loop has built.
  with_tokens_lem :
      (cfg : GatewayConfig C) (r : Option (Entries String) × Misconfigured) (s : Server C)
      → with_tokens cfg r ≡ built s
      → r.0 ≡ some s.tokens
  unfolding with_tokens
  with_tokens_lem cfg (none, e) s h = absurd (clash (ap (λ x. is_some (or_server x)) h))
  with_tokens_lem cfg (some table, e) s h = ap (λ x. tokens_of (or_server x)) h

  authenticate-is :
      (s : Server C) (got : String)
      → IsNamed s.tokens
      → is_some (authenticate s got) ≡ known got s.tokens
  unfolding authenticate
  authenticate-is s got n =
      let same = matching_label_lem got s.tokens "" n in
      elim (Bool-cases (is_empty (matching_label got s.tokens ""))) [
        | inl e ↦ rw e (ground (arith, same))
        | inr e ↦ rw e (ground (arith, same))
      ]

  credential_lem :
      (cfg : GatewayConfig C) (s : Server C) (got : String)
      → is_empty cfg.auth_token ≡ false
      → with_tokens cfg
          (add_tokens cfg.auth_tokens ((bearer cfg.auth_token, "default") ∷ []) no_auth_token)
        ≡ built s
      → HasLabels cfg.auth_tokens
      → (is_some (authenticate s got) ≡ credential cfg got)
        × (is_empty cfg.auth_token ≡ false)
        × IsFilled cfg.auth_tokens
  credential_lem cfg s got filled h n =
      let start = (bearer cfg.auth_token, "default") ∷ [] in
      let r = add_tokens cfg.auth_tokens start no_auth_token in
      let (same, named, rest) =
        add_tokens_lem got cfg.auth_tokens start no_auth_token r.1 s.tokens
          (ap (λ x. (x, r.1)) (with_tokens_lem cfg r s h)) n (refl, tt) in
      (authenticate-is s got named ∙ same ∙ ground arith, filled, rest)

  -- A server is built only if no configured token is empty; and if every further token has a label,
  -- then a caller is let in exactly if the header is the bearer form of a configured token.
  pub authenticate-credential :
      (cfg : GatewayConfig C) (s : Server C) (got : String)
      → new_server cfg ≡ built s
      → HasLabels cfg.auth_tokens
      → (is_some (authenticate s got) ≡ credential cfg got)
        × (is_empty cfg.auth_token ≡ false)
        × IsFilled cfg.auth_tokens
  unfolding new_server
  authenticate-credential cfg s got h n = elim (Bool-cases (null cfg.providers)) [
    | inl e ↦ absurd (clash (ap (λ x. is_some (or_server x)) (rw e at h)))
    | inr p ↦ elim (Bool-cases (is_empty cfg.auth_token)) [
      | inl e ↦ absurd (clash (ap (λ x. is_some (or_server x)) (rw (p, e) at h)))
      | inr filled ↦
          elim (Bool-cases
            (is_empty cfg.default_provider || is_registered cfg.default_provider cfg.providers)) [
              | inr e ↦ absurd (clash (ap (λ x. is_some (or_server x)) (rw (p, filled, e) at h)))
              | inl found ↦ credential_lem cfg s got filled (rw (p, filled, found) at h) n
            ]
    ]
  ]
