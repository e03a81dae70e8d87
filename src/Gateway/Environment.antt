-- ===== src/Gateway/Environment.antt =====
-- gateway/config.go: the configuration of the gateway from environment variables.
use skyl.Prelude.{
  String, Bool, true, false, ◌||◌, List, [], ◌∷◌, ◌++◌, Option, none, some, is_empty, str_eq, ◌<>◌,
  if◌then◌else◌, ℤ, pos, ltb_ℤ,
}
use skyl.Errors.{GoError, wrapped}
use skyl.Result.{Result, ok, err, and_then, map_ok}
use skyl.Client.{
  Hook, ClientOption, with_max_retries, with_retry_delay, with_retry_after_cap, with_timeout,
  with_hook,
}
use skyl.Gateway.{Entries, GatewayConfig}

-- The provider that `skyl.New` is called with, by the package that makes it and its arguments.
pub data Adapter : Type 0 where
  anthropic openai gemini : String → Adapter
  compatible : String → String → String → Adapter

-- `skyl.New(adapter, opts...)`
abbrev pub NewClient : Type 0
NewClient = Adapter × List ClientOption

-- The fields of `Config` that the environment sets.
pub record EnvConfig : Type 0 where
  pub access : GatewayConfig NewClient
  pub metrics : Option Hook
  pub request_timeout : ℤ
  pub include_raw : Bool
  pub max_concurrent : ℤ
  pub heartbeat_interval : ℤ
  pub allowed_origins : List String

-- What the code takes from Go's library and from the process: the variables (empty where unset), the
-- readers of Booleans, numbers and durations, the splitting and trimming of texts, and the metrics.
pub record Environment : Type 0 where
  pub getenv : String → String
  pub parse_bool : String → Result Bool
  pub atoi : String → Result ℤ
  pub parse_duration : String → Result ℤ
  pub split_commas : String → List String
  pub cut_colon : String → Option (String × String)
  pub trim_space : String → String
  pub new_telemetry : Result Hook
  pub bad_pair : String → GoError

-- `m[k] = v`
unfoldable pub put_entry : {V : Type 0} → String → V → Entries V → Entries V
put_entry k v [] = (k, v) ∷ []
put_entry k v ((j, w) ∷ m) = if str_eq j k then (k, v) ∷ m else (j, w) ∷ put_entry k v m

-- A parse error names its variable.
abbrev pub named : {A : Type 0} → String → Result A → Result A
named name (ok a) = ok a
named name (err e) = err (wrapped (name <> ": ") e)

module _ (env : Environment) where
  -- `if raw := os.Getenv(name); raw != ""`, with what the code does with the text; `unset` stands for
  -- the zero value that is left else.
  unfoldable pub setting : {A : Type 0} → String → A → (String → Result A) → Result A
  setting name unset parse =
      let raw = env.getenv name in if is_empty raw then ok unset else named name (parse raw)

  unfoldable pub duration_env : String → Result ℤ
  unfolding setting
  duration_env name = setting name (pos 0) env.parse_duration

  -- The body of the loop over the items.
  abbrev keep_item : String → List String → List String
  keep_item item out = if is_empty item then out else item ∷ out

  unfoldable pub trimmed : List String → List String
  trimmed [] = []
  trimmed (item ∷ items) = keep_item (env.trim_space item) (trimmed items)

  unfoldable pub split_list : String → List String
  unfolding trimmed
  split_list raw = trimmed (env.split_commas raw)

  abbrev pub trim_both : Option (String × String) → Option (String × String)
  trim_both none = none
  trim_both (some (label, token)) = some (env.trim_space label, env.trim_space token)

  -- One pair, with the table so far.
  unfoldable pub add_pair :
      String → Option (String × String) → Entries String → Result (Entries String)
  unfolding put_entry
  add_pair pair none out = err (env.bad_pair pair)
  add_pair pair (some (label, token)) out =
      if is_empty label || is_empty token
      then err (env.bad_pair pair)
      else ok (put_entry label token out)

  unfoldable pub add_pairs : List String → Entries String → Result (Entries String)
  unfolding add_pair
  add_pairs [] out = ok out
  add_pairs (pair ∷ pairs) out =
      and_then (add_pair pair (trim_both (env.cut_colon pair)) out) (add_pairs pairs)

  unfoldable pub parse_labelled_tokens : String → Result (Entries String)
  unfolding split_list add_pairs
  parse_labelled_tokens raw = add_pairs (split_list raw) []

  -- An option that is given only for a positive duration.
  abbrev positive_option : (ℤ → ClientOption) → ℤ → List ClientOption
  positive_option option d = if ltb_ℤ (pos 0) d then option d ∷ [] else []

  abbrev delay_options : ℤ → ℤ → List ClientOption
  delay_options base max_delay =
      if ltb_ℤ (pos 0) base || ltb_ℤ (pos 0) max_delay
      then with_retry_delay base max_delay ∷ []
      else []

  unfoldable pub client_options_from_env : Result (List ClientOption)
  unfolding setting duration_env
  client_options_from_env =
      and_then
        (setting "SKYL_MAX_RETRIES" []
          (λ raw. map_ok (λ n. with_max_retries n ∷ []) (env.atoi raw)))
        λ retries. and_then (duration_env "SKYL_RETRY_BASE_DELAY") λ base.
          and_then (duration_env "SKYL_RETRY_MAX_DELAY") λ max_delay.
            and_then (duration_env "SKYL_RETRY_AFTER_CAP") λ cap.
              map_ok
                (λ timeout.
                  retries
                  ++ delay_options base max_delay
                  ++ positive_option with_retry_after_cap cap
                  ++ positive_option with_timeout timeout)
                (duration_env "SKYL_ATTEMPT_TIMEOUT")

  -- `NewTelemetry`, if the variable asks for it; its error is passed on as it is.
  abbrev telemetry_if : Bool → Result (Option Hook)
  telemetry_if false = ok none
  telemetry_if true = map_ok some env.new_telemetry

  unfoldable pub metrics_from_env : Result (Option Hook)
  unfolding setting
  metrics_from_env = and_then (setting "SKYL_METRICS" false env.parse_bool) telemetry_if

  abbrev hook_option : Option Hook → List ClientOption
  hook_option none = []
  hook_option (some h) = with_hook (some h) ∷ []

  -- A provider is registered for a variable that is set.
  abbrev register :
      String
      → (String → Adapter)
      → String
      → List ClientOption
      → Entries NewClient
      → Entries NewClient
  register raw make name opts m = if is_empty raw then m else put_entry name (make raw, opts) m

  abbrev or_compat : String → String
  or_compat name = if is_empty name then "compat" else name

  unfoldable pub providers_from_env : List ClientOption → Entries NewClient
  unfolding put_entry
  providers_from_env opts =
      let name = or_compat (env.getenv "SKYL_COMPAT_NAME") in
      register (env.getenv "SKYL_COMPAT_BASE_URL")
        (λ base_url. compatible base_url (env.getenv "SKYL_COMPAT_API_KEY") name) name opts
        (register (env.getenv "GEMINI_API_KEY") gemini "gemini" opts (
          register (env.getenv "OPENAI_API_KEY") openai "openai" opts
            (register (env.getenv "ANTHROPIC_API_KEY") anthropic "anthropic" opts [])))

  -- `if raw := os.Getenv(EnvAuthTokens); raw != ""`: its error names the variable itself.
  unfoldable pub auth_tokens_from_env : Result (Entries String)
  unfolding parse_labelled_tokens
  auth_tokens_from_env =
      let raw = env.getenv "SKYL_AUTH_TOKENS" in
      if is_empty raw then ok [] else parse_labelled_tokens raw

  abbrev origins_from_env : List String
  unfolding split_list
  origins_from_env =
      let raw = env.getenv "SKYL_ALLOWED_ORIGINS" in if is_empty raw then [] else split_list raw

  -- The settings behind the providers, in the order in which the code reads them.
  unfoldable pub settings_from_env : Option Hook → List ClientOption → Result EnvConfig
  unfolding setting providers_from_env auth_tokens_from_env origins_from_env
  settings_from_env metrics opts =
      and_then (setting "SKYL_REQUEST_TIMEOUT" (pos 0) env.parse_duration) λ request_timeout.
        and_then (setting "SKYL_INCLUDE_RAW" false env.parse_bool) λ include_raw.
          and_then (setting "SKYL_MAX_CONCURRENT" (pos 0) env.atoi) λ max_concurrent.
            and_then (setting "SKYL_HEARTBEAT_INTERVAL" (pos 0) env.parse_duration) λ heartbeat.
              map_ok
                (λ tokens. record {
                  access = record {
                    providers = providers_from_env opts;
                    default_provider = env.getenv "SKYL_DEFAULT_PROVIDER";
                    auth_token = env.getenv "SKYL_AUTH_TOKEN";
                    auth_tokens = tokens;
                  };
                  metrics = metrics;
                  request_timeout = request_timeout;
                  include_raw = include_raw;
                  max_concurrent = max_concurrent;
                  heartbeat_interval = heartbeat;
                  allowed_origins = origins_from_env;
                })
                auth_tokens_from_env

  unfoldable pub config_from_env : Result EnvConfig
  unfolding client_options_from_env metrics_from_env settings_from_env
  config_from_env = and_then client_options_from_env λ opts.
      and_then metrics_from_env λ metrics. settings_from_env metrics (opts ++ hook_option metrics)

  -- `Addr`
  unfoldable pub listen_address : String
  listen_address = let a = env.getenv "SKYL_ADDR" in if is_empty a then ":8080" else a
