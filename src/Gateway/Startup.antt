-- ===== src/Gateway/Startup.antt =====
-- A gateway that is configured by its environment.
use skyl.Prelude.{
  String, ◌≡◌, refl, ◌∙◌, true, false, ◌||◌, List, Option, is_empty, str_eq, inl, inr, pos,
}
use skyl.Result.{Result-cases, Result, ok, err}
use skyl.Client.{Hook, ClientOption}
use skyl.Gateway.{Server, bearer, built, new_server, authenticate}
use skyl.Gateway.Access.{is_some, authenticate-credential}
use skyl.Gateway.Listed.{well_formed, listed, items_of, opens, tokens-OkTable}
use skyl.Gateway.Environment.{
  Environment, EnvConfig, NewClient, setting, auth_tokens_from_env, settings_from_env,
  config_from_env, client_options_from_env, metrics_from_env,
}

module _ (env : Environment) where
  -- The tokens of a configuration are those of the environment.
  abbrev OkAccess : Result EnvConfig → Type 0
  OkAccess (ok cfg) =
      (cfg.access.auth_token ≡ env.getenv "SKYL_AUTH_TOKEN")
      × (auth_tokens_from_env env ≡ ok cfg.access.auth_tokens)
  OkAccess (err e) = Unit

  settings-OkAccess :
      (metrics : Option Hook) (opts : List ClientOption)
      → OkAccess (settings_from_env env metrics opts)
  unfolding settings_from_env
  settings-OkAccess metrics opts =
      elim (Result-cases (setting env "SKYL_REQUEST_TIMEOUT" (pos 0) env.parse_duration)) [
        | inr (x, e) ↦ rw e tt
        | inl (timeout, a) ↦
            elim (Result-cases (setting env "SKYL_INCLUDE_RAW" false env.parse_bool)) [
              | inr (x, e) ↦ rw (a, e) tt
              | inl (raw, b) ↦
                  elim (Result-cases (setting env "SKYL_MAX_CONCURRENT" (pos 0) env.atoi)) [
                    | inr (x, e) ↦ rw (a, b, e) tt
                    | inl (most, c) ↦
                        elim (Result-cases
                          (setting env "SKYL_HEARTBEAT_INTERVAL" (pos 0) env.parse_duration)) [
                            | inr (x, e) ↦ rw (a, b, c, e) tt
                            | inl (beat, d) ↦ elim (Result-cases (auth_tokens_from_env env)) [
                              | inr (x, e) ↦ rw (a, b, c, d, e) tt
                              | inl (tokens, e) ↦ rw (a, b, c, d, e) (refl, e)
                            ]
                          ]
                  ]
            ]
      ]

  config-OkAccess : OkAccess (config_from_env env)
  unfolding config_from_env
  config-OkAccess = elim (Result-cases (client_options_from_env env)) [
    | inr (x, e) ↦ rw e tt
    | inl (opts, a) ↦ elim (Result-cases (metrics_from_env env)) [
      | inr (x, e) ↦ rw (a, e) tt
      | inl (metrics, b) ↦ rw (a, b) (settings-OkAccess metrics _)
    ]
  ]

  -- If the environment gives a configuration and that a server, then SKYL_AUTH_TOKEN is not empty,
  -- every item of SKYL_AUTH_TOKENS that is not blank has a colon with a label and a token around it,
  -- and a caller is let in exactly if the header is the bearer form of SKYL_AUTH_TOKEN or of the token
  -- of such an item whose label no later item repeats.
  pub config_from_env-credential :
      (cfg : EnvConfig) (s : Server NewClient) (got : String)
      → config_from_env env ≡ ok cfg
      → new_server cfg.access ≡ built s
      → (is_empty (env.getenv "SKYL_AUTH_TOKEN") ≡ false)
        × (well_formed env (items_of env (env.getenv "SKYL_AUTH_TOKENS")) ≡ true)
        × (is_some (authenticate s got) ≡ (
            str_eq got (bearer (env.getenv "SKYL_AUTH_TOKEN"))
            || opens got (listed env (items_of env (env.getenv "SKYL_AUTH_TOKENS")))))
  config_from_env-credential cfg s got read made =
      let (token, tokens) = rw read at config-OkAccess in
      let (labels, formed, presented) = rw tokens at (tokens-OkTable env got) in
      let (same, filled, rest) = authenticate-credential cfg.access s got made labels in
      (rw token at filled, formed, same ∙ rw (token, presented) refl)
