-- ===== src/Openai/Tests.antt =====
-- Small configurations of the two packages.
use skyl.Prelude.{◌≡◌, refl, [], ◌∷◌, none, some}
use skyl.Httpx.{set_header}
use skyl.Oai.{new_config, headers}
use skyl.Openai.{
  new_openai, new_compatible, with_organization, with_project, with_name, with_api_key,
  with_filled_header,
}

-- The organization is a header beside the credential, and an empty project is none.
openai_headers :
    headers
      (new_openai (λ u. u) "k" (with_organization "o" ∷ with_project "" ∷ []))
      "OpenAI-Organization"
    ≡ some "o"
unfolding new_openai headers set_header new_config with_filled_header with_organization with_project
openai_headers = refl

openai_field : (new_openai (λ u. u) "k" []).max_tokens_field ≡ "max_completion_tokens"
unfolding new_openai new_config
openai_field = refl

-- Without a base URL the package for compatible hosts panics.
compatible_panics : new_compatible (λ u. u) (with_name "groq" ∷ with_api_key "k" ∷ []) ≡ none
unfolding new_compatible with_name with_api_key
compatible_panics = refl
