-- ===== src/Gateway/Routing/Logging.antt =====
-- What is logged of a request, behind all of its handlers.
use skyl.Prelude.{ℕ, ◌≡◌, refl, ap, ◌∙◌, [], ◌∷◌, ◌++◌, is_empty, Bool-cases, inl, inr}
use skyl.Gateway.{Server}
use skyl.Gateway.Wire.{Base64}
use skyl.Gateway.Routing.{
  Incoming, Handler, LogLine, request_line, Chi, Exposure, Upstream, echo_request_id, log_requests,
  log_line,
}
use skyl.Gateway.Routing.Table.{dispatch, with_cors, serve_http}

-- The identifier of the request goes into a header only.
echo_request_id-same :
    (next : Handler) (r : Incoming)
    → ((echo_request_id next r).logs ≡ (next r).logs)
      × ((next r).status ≡ (echo_request_id next r).status)
unfolding echo_request_id
echo_request_id-same next r = elim (Bool-cases (is_empty r.request_id)) [
  | inl e ↦ rw e (refl, refl)
  | inr e ↦ rw e (refl, refl)
]

-- The request behind the two outermost middlewares.
abbrev pub identified : Chi → Incoming → Incoming
identified chi r = record r { request_id = chi.new_id r; tenant = "" }

abbrev pub line_of : Chi → Incoming → ℕ → LogLine
line_of chi r status = record {
  method = r.method;
  path = r.path;
  status = status;
  request_id = chi.new_id r;
  tenant = "";
}

module _ {C S : Type 0} (chi : Chi) (base64 : Base64) (cfg : Exposure) (s : Server C) where
  -- Every request leaves one line behind those of its handlers, with its method, its path, its
  -- identifier and the status that is sent; and the tenant of that line is empty, whatever token the
  -- request has, since the label is put into the context of another request.
  pub serve_http-log_line :
      (up : Upstream C S) (r : Incoming)
      → (serve_http chi base64 cfg s up r).logs
        ≡ (with_cors chi base64 cfg s (dispatch chi base64 cfg s up) (identified chi r)).logs
          ++ (request_line (line_of chi r (serve_http chi base64 cfg s up r).status) ∷ [])
  unfolding serve_http log_requests log_line
  serve_http-log_line up r =
      let next = log_requests (with_cors chi base64 cfg s (dispatch chi base64 cfg s up)) in
      let same = echo_request_id-same next (identified chi r) in
      let before = with_cors chi base64 cfg s (dispatch chi base64 cfg s up) (identified chi r) in
      same.0 ∙ ap (λ x. before.logs ++ (request_line (line_of chi r x) ∷ [])) same.1
