-- ===== src/Gateway/Chat.antt =====
-- gateway/server.go: `decodeChat`, `handleChat` and `handleModels`.
use skyl.Prelude.{ℤ, ℕ, String, Bool, List, map, Option, none, some}
use skyl.Request.{Request, Invalid, validate}
use skyl.Response.{Response, ModelInfo}
use skyl.Result.{Result, ok, err}
use skyl.Errors.{GoError}
use skyl.Gateway.{Server, resolve}
use skyl.Gateway.Wire.{Base64, Converted, accepted, rejected}
use skyl.Gateway.Requests.{ChatRequest, ChatResponse, to_skyl_request, to_chat_response}

pub record ModelItem : Type 0 where
  pub id : String
  pub display_name : String
  pub context_window : ℤ
  pub max_output_tokens : ℤ

unfoldable pub model_item : ModelInfo → ModelItem
model_item m = record {
  id = m.id;
  display_name = m.display_name;
  context_window = m.context_window;
  max_output_tokens = m.max_output_tokens;
}

-- An answer: a status and a kind for a request that is refused, the failure of a provider, or a body
-- with the status 200.
pub data Answer : Type 0 where
  failure : ℕ → String → Answer
  upstream_failure : GoError → Answer
  chat : ChatResponse → Answer
  listing : String → List ModelItem → Answer

-- What `decodeChat` returns: the answer that it has written, or a request and its client.
pub data Decoded (C : Type 0) : Type 0 where
  answered : Answer → Decoded C
  ready : Request → C → Decoded C

module _ {C : Type 0} (base64 : Base64) (s : Server C) where
  unfoldable pub check_request : C → Request → Option Invalid → Decoded C
  check_request c req (some e) = answered (failure 400 "bad_request")
  check_request c req none = ready req c

  unfoldable pub check_body : C → Converted Request → Decoded C
  unfolding check_request
  check_body c (rejected e) = answered (failure 400 "bad_request")
  check_body c (accepted req) = check_request c req (validate (some req))

  unfoldable pub check_provider : ChatRequest → Option (C × String) → Decoded C
  unfolding check_body
  check_provider body none = answered (failure 404 "not_found")
  check_provider body (some (c, name)) = check_body c (to_skyl_request base64 body)

  -- `decodeChat`, on what the JSON decoder makes of the body under the bound on its length.
  unfoldable pub decode_chat : Option ChatRequest → Decoded C
  unfolding check_provider resolve
  decode_chat none = answered (failure 400 "bad_request")
  decode_chat (some body) = check_provider body (resolve s body.provider)

  unfoldable pub answer_chat : Bool → Result Response → Answer
  unfolding to_chat_response
  answer_chat include_raw (err e) = upstream_failure e
  answer_chat include_raw (ok resp) = chat (to_chat_response base64 resp include_raw)

  -- `handleChat`; `complete` is the method of a client, under the timeout of the request.
  unfoldable pub handle_chat : (C → Request → Result Response) → Bool → Option ChatRequest → Answer
  unfolding decode_chat answer_chat
  handle_chat complete include_raw body = elim (decode_chat body) [
    | answered a ↦ a
    | ready req c ↦ answer_chat include_raw (complete c req)
  ]

  unfoldable pub answer_models : String → Result (List ModelInfo) → Answer
  unfolding model_item
  answer_models name (err e) = upstream_failure e
  answer_models name (ok models) = listing name (map model_item models)

  unfoldable pub handle_models : (C → Result (List ModelInfo)) → String → Answer
  unfolding resolve answer_models
  handle_models models name = elim (resolve s name) [
    | none ↦ failure 404 "not_found"
    | some (c, resolved) ↦ answer_models resolved (models c)
  ]
