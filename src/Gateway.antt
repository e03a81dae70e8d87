-- ===== src/Gateway.antt =====
-- gateway/server.go: the configuration, who is let in, which provider is meant, and how a failure of
-- a provider is answered.
pub mod Wire
pub mod Requests
pub mod Chat
pub mod Guard
pub mod Streaming
pub mod Relayed
pub mod Messages
pub mod Access
pub mod Statuses
pub mod Environment
pub mod Listed
pub mod Startup
pub mod Heartbeat
pub mod Routing
pub mod Tests
use skyl.Prelude.{
  sort_strings, ℕ, String, Bool, true, false, List, [], ◌∷◌, ◌++◌, null, map, Option, none, some,
  str_eq, is_empty, ◌<>◌, ◌||◌, if◌then◌else◌,
}
use skyl.Errors.{GoError, Sentinel, is, kind_of}

-- The entries of a `map[string]V`, in the order in which Go visits them.
abbrev pub Entries : Type 0 → Type 0
Entries V = List (String × V)

abbrev pub entry : {V : Type 0} → String → Entries V → Option V
entry k [] = none
entry k ((j, v) ∷ m) = if str_eq j k then some v else entry k m

abbrev pub names_of : {V : Type 0} → Entries V → List String
names_of [] = []
names_of ((k, v) ∷ m) = k ∷ names_of m

-- The fields of `Config` that decide who may call and which provider answers, for clients `C`.
pub record GatewayConfig (C : Type 0) : Type 0 where
  pub providers : Entries C
  pub default_provider : String
  pub auth_token : String
  pub auth_tokens : Entries String

pub record Server (C : Type 0) : Type 0 where
  pub clients : Entries C
  pub default_name : String
  pub names : List String
  pub tokens : Entries String
  pub draining : Bool

-- The configurations that `NewServer` refuses.
pub data Misconfigured : Type 0 where
  no_providers no_auth_token : Misconfigured
  unknown_default empty_token : String → Misconfigured

pub data Built (C : Type 0) : Type 0 where
  built : Server C → Built C
  refused : Misconfigured → Built C

abbrev pub bearer : String → String
bearer token = "Bearer " <> token

-- `tokens["Bearer "+tok] = label`
unfoldable pub put_token : String → String → Entries String → Entries String
put_token key label [] = (key, label) ∷ []
put_token key label ((k, l) ∷ m) =
    if str_eq k key then (k, label) ∷ m else (k, l) ∷ put_token key label m

-- The loop over the further tokens: the table, or the label of the first token that is empty.
unfoldable pub add_tokens :
    Entries String → Entries String → Misconfigured → Option (Entries String) × Misconfigured
unfolding put_token
add_tokens [] table e = (some table, e)
add_tokens ((label, token) ∷ more) table e =
    let rest = add_tokens more (put_token (bearer token) label table) e in
    if is_empty token then (none, empty_token label) else rest

-- `names[0]` of the sorted names; there is one, since there is a provider.
abbrev pub first_name : List String → String
first_name [] = ""
first_name (n ∷ ns) = n

unfoldable pub default_of : String → List String → String
default_of def names = if is_empty def then first_name names else def

-- The loop of `authenticate`: the label of the last token that is equal to the header.
unfoldable pub matching_label : String → Entries String → String → String
matching_label got [] label = label
matching_label got ((want, name) ∷ more) label =
    matching_label got more (if str_eq got want then name else label)

module _ {C : Type 0} where
  abbrev pub is_registered : String → Entries C → Bool
  is_registered name [] = false
  is_registered name ((k, c) ∷ m) = str_eq k name || is_registered name m

  unfoldable pub with_tokens : GatewayConfig C → Option (Entries String) × Misconfigured → Built C
  unfolding sort_strings default_of
  with_tokens cfg (none, e) = refused e
  with_tokens cfg (some table, e) =
      let sorted = sort_strings (names_of cfg.providers) in
      built (record {
        clients = cfg.providers;
        default_name = default_of cfg.default_provider sorted;
        names = sorted;
        tokens = table;
        draining = false;
      })

  unfoldable pub new_server : GatewayConfig C → Built C
  unfolding add_tokens with_tokens
  new_server cfg =
      if null cfg.providers
      then refused no_providers
      else if is_empty cfg.auth_token
      then refused no_auth_token
      else if is_empty cfg.default_provider || is_registered cfg.default_provider cfg.providers
      then with_tokens cfg
          (add_tokens cfg.auth_tokens ((bearer cfg.auth_token, "default") ∷ []) no_auth_token)
      else refused (unknown_default cfg.default_provider)

  -- `authenticate`: the caller's label, or nothing for an answer of 401.
  unfoldable pub authenticate : Server C → String → Option String
  unfolding matching_label
  authenticate s got =
      let label = matching_label got s.tokens "" in if is_empty label then none else some label

  unfoldable pub resolve : Server C → String → Option (C × String)
  resolve s name =
      let meant = if is_empty name then s.default_name else name in
      elim (entry meant s.clients) [ none ↦ none | some c ↦ some (c, meant) ]

  unfoldable pub start_draining : Server C → Server C
  start_draining s = record s { draining = true }

  -- The status of `handleReady`.
  unfoldable pub handle_ready : Server C → ℕ
  handle_ready s = if s.draining then 503 else 200

-- The status of `writeUpstreamError`.
unfoldable pub upstream_status : GoError → ℕ
unfolding is
upstream_status e =
    if is e (kind_of Sentinel.auth)
    then 502
    else if is e (kind_of Sentinel.rate_limit)
    then 429
    else if is e (kind_of Sentinel.not_found)
    then 404
    else if is e (kind_of Sentinel.bad_request) || is e (kind_of Sentinel.unsupported)
    then 400
    else if is e (kind_of Sentinel.refusal)
    then 422
    else 502

-- `kindOf`
unfoldable pub error_kind : GoError → String
unfolding is
error_kind e =
    if is e (kind_of Sentinel.auth)
    then "auth"
    else if is e (kind_of Sentinel.rate_limit)
    then "rate_limit"
    else if is e (kind_of Sentinel.not_found)
    then "not_found"
    else if is e (kind_of Sentinel.bad_request)
    then "bad_request"
    else if is e (kind_of Sentinel.unsupported)
    then "unsupported"
    else if is e (kind_of Sentinel.refusal)
    then "refusal"
    else if is e (kind_of Sentinel.server)
    then "server"
    else "unknown"
