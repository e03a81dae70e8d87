-- ===== src/Openai.antt =====
-- provider/openai/openai.go and provider/openaicompat/openaicompat.go: the options of the two packages
-- around the client for the chat-completions format.
pub mod Tests
use skyl.Prelude.{String, List, [], ◌∷◌, Option, none, some, is_empty, if◌then◌else◌}
use skyl.Httpx.{set_header}
use skyl.Oai.{Config, new_config}

-- `Option` of both packages, which the loop of `New` runs in turn. The HTTP client is the network of a
-- call.
abbrev pub ConfigOption : Type 0
ConfigOption = Config → Config

abbrev pub no_config : Config
no_config = record {
  name = "";
  base_url = "";
  api_key = "";
  extra_headers = λ name. none;
  max_tokens_field = "";
}

unfoldable pub with_base_url : String → ConfigOption
with_base_url url c = record c { base_url = url }

unfoldable pub with_max_tokens_field : String → ConfigOption
with_max_tokens_field name c = record c { max_tokens_field = name }

-- `withHeader` of the OpenAI package: an empty value sets nothing.
unfoldable pub with_filled_header : String → String → ConfigOption
with_filled_header key value c =
    if is_empty value then c else record c { extra_headers = set_header key value c.extra_headers }

unfoldable pub with_organization : String → ConfigOption
unfolding with_filled_header
with_organization org = with_filled_header "OpenAI-Organization" org

unfoldable pub with_project : String → ConfigOption
unfolding with_filled_header
with_project project = with_filled_header "OpenAI-Project" project

-- `WithHeader`, `WithAPIKey` and `WithName` of the package for compatible hosts.
unfoldable pub with_header : String → String → ConfigOption
with_header key value c = record c { extra_headers = set_header key value c.extra_headers }

unfoldable pub with_api_key : String → ConfigOption
with_api_key key c = record c { api_key = key }

unfoldable pub with_name : String → ConfigOption
with_name name c = record c { name = name }

unfoldable pub apply_config_options : List ConfigOption → ConfigOption
apply_config_options [] c = c
apply_config_options (o ∷ os) c = apply_config_options os (o c)

abbrev pub openai_base_url : String
openai_base_url = "https://api.openai.com/v1"

-- `New` of the OpenAI package, with `strings.TrimRight(url, "/")` as a parameter.
unfoldable pub new_openai : (String → String) → String → List ConfigOption → Config
unfolding apply_config_options
new_openai trim_slashes api_key opts =
    let start = record no_config {
      name = "openai";
      base_url = openai_base_url;
      api_key = api_key;
      max_tokens_field = "max_completion_tokens";
    } in
    new_config trim_slashes (apply_config_options opts start)

-- `New` of the package for compatible hosts; `none` is the panic.
unfoldable pub new_compatible : (String → String) → List ConfigOption → Option Config
unfolding apply_config_options
new_compatible trim_slashes opts =
    let cfg = apply_config_options opts (record no_config { name = "openai-compatible" }) in
    if is_empty cfg.base_url then none else some (new_config trim_slashes cfg)
