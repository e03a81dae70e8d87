-- ===== src/Gateway/Tests.antt =====
-- The gateway on small inputs, and witnesses of its properties.
use Prim.Native.Char.{code}
use skyl.Result.{ok}
use skyl.Prelude.{
  ◌||◌, Option, str_eq, sort_strings, pos, none, zero, suc, ◌+◌, ◌==◌, ap, sym, ◌∙◌, Bool-cases,
  eq_iff, ℕ, String, ◌≡◌, refl, true, false, [], ◌∷◌, null, some, is_empty, Bytes, inl, inr, arith,
  if◌then◌else◌,
}
use skyl.Errors.{GoError}
use skyl.Message.{Message, text, image, tool_call, valid}
use skyl.Request.{validate_part}
use skyl.Gateway.Environment.{Environment, EnvConfig, NewClient, Adapter, config_from_env}
use skyl.Gateway.Listed.{well_formed, opens}
use skyl.Gateway.Startup.{config_from_env-credential}
use skyl.Gateway.{GatewayConfig, Server, built, new_server, authenticate, resolve, put_token}
use skyl.Gateway.Access.{is_some}
use skyl.Gateway.Streaming.{Writer}
use skyl.Gateway.Wire.{Base64, to_skyl_message, from_skyl_message, accepted}
use skyl.Gateway.Messages.{to_skyl-from_skyl}

abbrev config : GatewayConfig ℕ
config = record {
  providers = ("openai", 1) ∷ ("gemini", 2) ∷ [];
  default_provider = "";
  auth_token = "old";
  auth_tokens = ("team", "new") ∷ [];
}

abbrev pub server : Server ℕ
server = record {
  clients = ("openai", 1) ∷ ("gemini", 2) ∷ [];
  default_name = "gemini";
  names = "gemini" ∷ "openai" ∷ [];
  tokens = ("Bearer old", "default") ∷ ("Bearer new", "team") ∷ [];
  draining = false;
}

server_built : new_server config ≡ built server
unfolding new_server sort_strings put_token
server_built = refl

resolve_default : resolve server "" ≡ some (2, "gemini")
unfolding resolve
resolve_default = refl

-- A code for bytes that reads back: each byte in unary, closed by a bar.
abbrev tallied : ℕ → String → String
tallied zero s = String.◌∷◌ "|" s
tallied (suc n) s = String.◌∷◌ "1" (tallied n s)

abbrev tally_all : Bytes → String
tally_all [] = ""
tally_all (n ∷ b) = tallied n (tally_all b)

abbrev count : ℕ → String → Bytes
count n String.[] = []
count n (String.◌∷◌ c s) =
    let more = count (suc n) s in
    let next_one = count 0 s in if code c == b'1' then more else n ∷ next_one

count-tallied : (n k : ℕ) (s : String) → count n (tallied k s) ≡ (n + k) ∷ count 0 s
count-tallied n zero s = ap (λ m. m ∷ count 0 s) (omega arith)
count-tallied n (suc k) s = count-tallied (suc n) k s ∙ ap (λ m. m ∷ count 0 s) (omega arith)

null_lem : false ≡ true → ⊥
null_lem e = absurd (cc e)

abbrev pub unary : Base64
unary = record { encode = tally_all; decode = λ s. some (count 0 s) }

count-tally_all : (b : Bytes) → count 0 (tally_all b) ≡ b
count-tally_all [] = refl
count-tally_all (n ∷ b) =
    count-tallied 0 n (tally_all b)
    ∙ ap (λ m. m ∷ count 0 (tally_all b)) (omega arith)
    ∙ ap (λ c. n ∷ c) (count-tally_all b)

tally_all-empty : (b : Bytes) → null b ≡ false → is_empty (tally_all b) ≡ false
tally_all-empty b h = elim (Bool-cases (is_empty (tally_all b))) [
  | inr e ↦ e
  | inl e ↦
      let nothing = sym (count-tally_all b) ∙ ap (count 0) ((eq_iff (tally_all b) "").0 e) in
      absurd (null_lem (sym h ∙ ap null nothing))
]

abbrev turn : Message
turn = record {
  role = "assistant";
  parts =
      text "see"
      ∷ image (record { media_type = "image/png"; bytes = 3 ∷ 0 ∷ []; url = "" })
      ∷ tool_call (record { id = "1"; name = "f"; arguments = "{}" })
      ∷ [];
}

to_skyl-from_skyl_example : to_skyl_message unary 0 (from_skyl_message unary turn) ≡ accepted turn
unfolding valid validate_part
to_skyl-from_skyl_example =
    to_skyl-from_skyl unary (λ b. ap some (count-tally_all b)) tally_all-empty 0 turn refl
      (
        record { passes = refl; single = tt },
        (record { passes = refl; single = inl refl }, (record { passes = refl; single = tt }, tt)),
      )

abbrev steady : Writer
steady = record { encodes = λ p. true; writes = λ n. true; error_text = λ e. "" }

-- An environment with one provider, one token and three further pairs, the last of which replaces the
-- first.
abbrev variables : String → String
variables name =
    if str_eq name "OPENAI_API_KEY"
    then "k"
    else if str_eq name "SKYL_AUTH_TOKEN"
    then "s"
    else if str_eq name "SKYL_AUTH_TOKENS"
    then "ci:t,ops:u, ,ci:v"
    else ""

abbrev pairs : String → Option (String × String)
pairs item =
    if str_eq item "ci:t"
    then some ("ci", "t")
    else if str_eq item "ops:u"
    then some ("ops", "u")
    else if str_eq item "ci:v"
    then some ("ci", "v")
    else none

abbrev environment : Environment
environment = record {
  getenv = variables;
  parse_bool = λ t. ok true;
  atoi = λ t. ok (pos 1);
  parse_duration = λ t. ok (pos 1);
  split_commas = λ t. "ci:t" ∷ "ops:u" ∷ " " ∷ "ci:v" ∷ [];
  cut_colon = pairs;
  trim_space = λ t. if str_eq t " " then "" else t;
  new_telemetry = ok 0;
  bad_pair = λ t. GoError.opaque t;
}

abbrev configured : EnvConfig
configured = record {
  access = record {
    providers = ("openai", (Adapter.openai "k", [])) ∷ [];
    default_provider = "";
    auth_token = "s";
    auth_tokens = ("ci", "v") ∷ ("ops", "u") ∷ [];
  };
  metrics = none;
  request_timeout = pos 0;
  include_raw = false;
  max_concurrent = pos 0;
  heartbeat_interval = pos 0;
  allowed_origins = [];
}

abbrev started : Server NewClient
started = record {
  clients = configured.access.providers;
  default_name = "openai";
  names = "openai" ∷ [];
  tokens = ("Bearer s", "default") ∷ ("Bearer v", "ci") ∷ ("Bearer u", "ops") ∷ [];
  draining = false;
}

config_from_env-credential_example :
    (is_empty "s" ≡ false)
    × (well_formed environment (environment.split_commas "") ≡ true)
    × (is_some (authenticate started "Bearer u") ≡ (
        str_eq "Bearer u" "Bearer s"
        || opens "Bearer u" (("ci", "t") ∷ ("ops", "u") ∷ ("ci", "v") ∷ [])))
unfolding config_from_env new_server sort_strings put_token
config_from_env-credential_example =
    config_from_env-credential environment configured started "Bearer u" refl refl
