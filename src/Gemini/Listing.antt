-- ===== src/Gemini/Listing.antt =====
-- provider/gemini/gemini.go: `Models`, page by page.
use skyl.Prelude.{
  ℕ, zero, suc, String, ◌||◌, List, [], ◌∷◌, ◌++◌, Option, none, some, str_eq, is_empty, ◌<>◌,
  if◌then◌else◌,
}
use skyl.Errors.{Sentinel}
use skyl.Errors.RetryAfter.{HeaderLibrary}
use skyl.Message.{RawMessage}
use skyl.Response.{ModelInfo}
use skyl.Result.{Result, ok, err}
use skyl.Httpx.{Network}
use skyl.Gemini.{Library, Provider, WireModel, provider_name, headers}
use skyl.Gemini.Reply.{read_reply, reply_error}

module _ (lib : Library) where
  -- The body of the loop over the entries: one that cannot be read or has no name is left out.
  unfoldable pub read_model : RawMessage → Option WireModel → List ModelInfo → List ModelInfo
  read_model entry none out = out
  read_model entry (some m) out =
      if is_empty m.name
      then out
      else record {
        id = lib.trim_prefix m.name "models/";
        provider = provider_name;
        display_name = m.display_name;
        context_window = m.input_token_limit;
        max_output_tokens = m.output_token_limit;
        raw = entry;
      }
        ∷ out

  unfoldable pub read_models : List RawMessage → List ModelInfo
  unfolding read_model
  read_models [] = []
  read_models (entry ∷ entries) = read_model entry (lib.decode_model entry) (read_models entries)

  module _ (hdr : HeaderLibrary) (net : Network) (p : Provider) where
    unfoldable pub models_page : String → Result (List ModelInfo × String)
    unfolding read_models read_reply
    models_page u = read_reply lib hdr (net.get u (headers p)) (λ r. elim (lib.decode_page r.body) [
      | none ↦ err (reply_error r Sentinel.server "malformed models response")
      | some page ↦ ok (read_models page.entries, page.next_page_token)
    ])

    unfoldable pub page_url : String → String
    page_url token =
        let u = p.base_url <> "/models?pageSize=1000" in
        if is_empty token then u else u <> ("&pageToken=" <> lib.query_escape token)

    -- One round of the loop, in front of the rounds that follow.
    unfoldable pub after_page :
        String
        → List ModelInfo
        → Result (List ModelInfo × String)
        → (String → List ModelInfo → Option (Result (List ModelInfo)))
        → Option (Result (List ModelInfo))
    after_page token out (err e) loop = some (err e)
    after_page token out (ok (page, next)) loop =
        let rest = loop next (out ++ page) in
        if is_empty next || str_eq next token then some (ok (out ++ page)) else rest

    -- The loop of `Models` on fuel for the pages; `none` is that the fuel ran out.
    unfoldable pub list_pages : ℕ → String → List ModelInfo → Option (Result (List ModelInfo))
    unfolding models_page page_url after_page
    list_pages zero token out = none
    list_pages (suc fuel) token out =
        after_page token out (models_page (page_url token)) (list_pages fuel)

    unfoldable pub list_models : ℕ → Option (Result (List ModelInfo))
    unfolding list_pages
    list_models fuel = list_pages fuel "" []
