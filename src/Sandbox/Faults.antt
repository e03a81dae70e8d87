-- ===== src/Sandbox/Faults.antt =====
-- internal/sandbox/sandbox.go: what a model's name asks the sandbox to do.
use skyl.Prelude.{
  ℕ, String, Bool, ◌||◌, List, [], ◌∷◌, Option, none, some, str_eq, is_empty, if◌then◌else◌, ltb,
  ◌<>◌, any,
}

-- `strings.HasPrefix` and `strings.CutPrefix`
abbrev pub cut_prefix : String → String → Option String
cut_prefix s String.[] = some s
cut_prefix String.[] (String.◌∷◌ c p) = none
cut_prefix (String.◌∷◌ d s) (String.◌∷◌ c p) =
    let rest = cut_prefix s p in
    if str_eq (String.◌∷◌ d String.[]) (String.◌∷◌ c String.[]) then rest else none

-- `streamFault`
unfoldable pub stream_fault : String → Option String
stream_fault model =
    if str_eq model "sandbox-stream-truncate" || str_eq model "sandbox-stream-error"
    then some model
    else none

-- `injectedStatus`; `scan` is Sscanf of a decimal number, which may stop before the end.
unfoldable pub injected_status : (String → Option ℕ) → String → Option ℕ
injected_status scan model = elim (cut_prefix model "sandbox-status-") [
  | none ↦ none
  | some rest ↦ elim (scan rest) [
    | none ↦ none
    | some code ↦ if ltb code 100 || ltb 599 code then none else some code
  ]
]

-- `knownModels`, by their identifiers.
abbrev pub known_models : String → List String
known_models provider =
    if str_eq provider "anthropic"
    then "claude-opus-5" ∷ "claude-sonnet-5" ∷ "claude-haiku-4-5" ∷ []
    else if str_eq provider "openai"
    then "gpt-5.6" ∷ "gpt-5.4-nano" ∷ []
    else if str_eq provider "gemini"
    then "gemini-3.6-flash" ∷ "gemini-3.6-pro" ∷ []
    else []

unfoldable pub known : String → String → Bool
known provider id = any (str_eq id) (known_models provider)

-- `reply`; `asks_capital` is the test on the prompt in lower case.
unfoldable pub reply : (String → Bool) → String → String
reply asks_capital prompt =
    if asks_capital prompt
    then "Paris"
    else if is_empty prompt
    then "Hello from the skyl sandbox."
    else "You said: " <> prompt
