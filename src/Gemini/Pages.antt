-- ===== src/Gemini/Pages.antt =====
-- The loop over the pages of the list of models: what it gives, and when it never ends.
use skyl.Prelude.{
  ℕ, zero, suc, ◌≤◌, String, ◌≡◌, refl, ap, Bool, true, false, ◌||◌, List, [], ◌++◌, append_assoc,
  none, some, str_eq, is_empty, arith,
}
use skyl.Errors.RetryAfter.{HeaderLibrary}
use skyl.Response.{ModelInfo}
use skyl.Result.{Result, ok}
use skyl.Httpx.{Network}
use skyl.Gemini.{Library, Provider}
use skyl.Gemini.Listing.{models_page, page_url, after_page, list_pages, list_models}

-- The loop stops behind a page that names no next page, or that names itself.
abbrev pub stops : String → String → Bool
stops token next = is_empty next || str_eq next token

module _ (lib : Library) (hdr : HeaderLibrary) (net : Network) (p : Provider) where
  abbrev pub page_of : String → Result (List ModelInfo × String)
  page_of token = models_page lib hdr net p (page_url lib hdr net p token)

  -- The server answers the pages from this token on, `n` of them, with these models.
  pub data Serves : ℕ → String → List ModelInfo → Type 0 where
    last :
        {token next : String} {page : List ModelInfo}
        → page_of token ≡ ok (page, next)
        → stops token next ≡ true
        → Serves 1 token page
    more :
        {n : ℕ} {token next : String} {page rest : List ModelInfo}
        → page_of token ≡ ok (page, next)
        → stops token next ≡ false
        → Serves n next rest
        → Serves (suc n) token (page ++ rest)

  list_pages-Serves :
      {n : ℕ} {token : String} {models : List ModelInfo}
      → Serves n token models
      → (fuel : ℕ) (out : List ModelInfo) → n ≤ fuel
      → list_pages lib hdr net p fuel token out ≡ some (ok (out ++ models))
  unfolding list_pages after_page
  list_pages-Serves (last got stop) zero out h = absurd (omega arith)
  list_pages-Serves (more got go s) zero out h = absurd (omega arith)
  list_pages-Serves (last got stop) (suc fuel) out h = rw (got, after_page) (rw stop refl)
  list_pages-Serves (more got go s) (suc fuel) out h =
      rw (got, after_page)
        (rw go (
          rw (list_pages-Serves s fuel _ (omega arith))
            (ap (λ ms. some (ok ms)) (append_assoc out _ _))))

  -- If the server answers the list in `n` pages, the last of which names no next page or names itself,
  -- then Models ends behind these pages and gives their models, in order.
  pub list_models-Serves :
      (n fuel : ℕ) (models : List ModelInfo)
      → Serves n "" models
      → n ≤ fuel
      → list_models lib hdr net p fuel ≡ some (ok models)
  unfolding list_models
  list_models-Serves n fuel models s enough = list_pages-Serves s fuel [] enough

  -- Two pages that name each other.
  pub record IsCycle (a b : String) (page back : List ModelInfo) : Type 0 where
    pub forth : page_of a ≡ ok (page, b)
    pub return_page : page_of b ≡ ok (back, a)
    pub goes_on : stops a b ≡ false
    pub goes_back : stops b a ≡ false

  list_pages-IsCycle :
      (a b : String) (page back : List ModelInfo)
      → IsCycle a b page back
      → (fuel : ℕ) (out : List ModelInfo)
      → (list_pages lib hdr net p fuel a out ≡ none) × (list_pages lib hdr net p fuel b out ≡ none)
  unfolding list_pages after_page
  list_pages-IsCycle a b page back c zero out = (refl, refl)
  list_pages-IsCycle a b page back c (suc fuel) out = (
    rw (c.forth, after_page)
        (rw c.goes_on (list_pages-IsCycle a b page back c fuel (out ++ page)).1),
    rw (c.return_page, after_page)
        (rw c.goes_back (list_pages-IsCycle a b page back c fuel (out ++ back)).0),
  )

  -- If the first page leads to two pages that name each other, then no number of rounds is enough:
  -- Models never returns.
  pub list_models-IsCycle :
      (a b : String) (first page back : List ModelInfo)
      → page_of "" ≡ ok (first, a)
      → stops "" a ≡ false
      → IsCycle a b page back
      → (fuel : ℕ) → list_models lib hdr net p fuel ≡ none
  unfolding list_models list_pages after_page
  list_models-IsCycle a b first page back got go c zero = refl
  list_models-IsCycle a b first page back got go c (suc fuel) =
      rw (got, after_page) (rw go (list_pages-IsCycle a b page back c fuel first).0)
