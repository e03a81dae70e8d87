-- ===== src/Anthropic/Reply.antt =====
-- provider/anthropic/anthropic.go: the mapping of a response, `Complete`, `Models` and
-- `translateError`.
use skyl.Prelude.{
  plus_int64, String, ◌||◌, List, [], ◌∷◌, Option, none, some, str_eq, is_empty, if◌then◌else◌, pos,
  map,
}
use skyl.Errors.{GoError, as_go_error, is_nil, new_error, with_cause, classify_status}
use skyl.Errors.RetryAfter.{HeaderLibrary, parse_retry_after}
use skyl.Message.{Part, RawMessage, text, tool_call, role_assistant}
use skyl.Request.{Request}
use skyl.Response.{
  Response, ModelInfo, Usage, StopReason, stop_end_turn, stop_max_tokens, stop_tool_use,
  stop_stop_sequence, stop_refusal, stop_unknown,
}
use skyl.Result.{Result, ok, err, and_then}
use skyl.Anthropic.{
  Sdk, Block, SdkUsage, SdkMessage, SdkModel, ApiError, text_content, tool_use, other_content,
  provider_name,
}
use skyl.Anthropic.Payload.{build_params, provider_options}

-- The SDK's stop reasons are these texts.
unfoldable pub map_stop_reason : String → StopReason
map_stop_reason s =
    if str_eq s "end_turn"
    then stop_end_turn
    else if str_eq s "max_tokens" || str_eq s "model_context_window_exceeded"
    then stop_max_tokens
    else if str_eq s "tool_use"
    then stop_tool_use
    else if str_eq s "stop_sequence"
    then stop_stop_sequence
    else if str_eq s "refusal"
    then stop_refusal
    else stop_unknown

unfoldable pub or_no_input : RawMessage → RawMessage
or_no_input raw = if is_empty raw then "{}" else raw

-- The body of the loop over the blocks.
unfoldable pub add_block : Block → List Part → List Part
unfolding or_no_input
add_block (text_content t) parts = if is_empty t then parts else text t ∷ parts
add_block (tool_use id name raw) parts =
    tool_call (record { id = id; name = name; arguments = or_no_input raw }) ∷ parts
add_block other_content parts = parts

unfoldable pub parts_from_blocks : List Block → List Part
unfolding add_block
parts_from_blocks [] = []
parts_from_blocks (b ∷ bs) = add_block b (parts_from_blocks bs)

unfoldable pub parts_from_message : SdkMessage → List Part
unfolding parts_from_blocks
parts_from_message msg = parts_from_blocks msg.content

-- The API counts both cache figures beside the input; skyl counts them as a part of it.
unfoldable pub usage_from : SdkUsage → Usage
usage_from u = record {
  input_tokens =
      plus_int64 (plus_int64 u.input_tokens u.cache_read_input_tokens)
        u.cache_creation_input_tokens;
  output_tokens = u.output_tokens;
  cache_read_tokens = u.cache_read_input_tokens;
  cache_write_tokens = u.cache_creation_input_tokens;
}

unfoldable pub model_info : SdkModel → ModelInfo
model_info m = record {
  id = m.id;
  provider = provider_name;
  display_name = m.display_name;
  context_window = m.max_input_tokens;
  max_output_tokens = m.max_tokens;
  raw = m.raw_json;
}

module _ {E : Type 0} (sdk : Sdk E) (hdr : HeaderLibrary) where
  -- An error of the API, by its status; its wait is left at zero where there is no response.
  unfoldable pub wait_of : Option String → GoError → GoError
  wait_of none e = e
  wait_of (some header) (GoError.provider p s m k w b c) =
      GoError.provider p s m k (parse_retry_after hdr header) b c
  wait_of (some header) e = e

  unfoldable pub api_failure : ApiError → GoError
  unfolding wait_of
  api_failure e = wait_of e.retry_after (
      as_go_error
        (new_error provider_name e.status_code (classify_status e.status_code) e.message []))

  -- Without a response the cause is kept.
  unfoldable pub dial_failure : GoError → GoError
  dial_failure e = as_go_error (
      with_cause
        (record {
          provider_name = provider_name;
          status_code = 0;
          message = sdk.error_text e;
          kind = GoError.nil;
          retry_after = pos 0;
          body = [];
          cause = GoError.nil;
        })
        e)

  unfoldable pub translate_error : GoError → GoError
  unfolding is_nil api_failure dial_failure
  translate_error e =
      if is_nil e
      then GoError.nil
      else elim (sdk.as_api_error e) [ none ↦ dial_failure e | some a ↦ api_failure a ]

  unfoldable pub read_message : Request → SdkMessage → Response
  unfolding parts_from_message map_stop_reason usage_from
  read_message req msg = record {
    id = msg.id;
    provider = provider_name;
    model = if is_empty msg.model then req.model else msg.model;
    message = record { role = role_assistant; parts = parts_from_message msg };
    stop_reason = map_stop_reason msg.stop_reason;
    usage = usage_from msg.usage;
    raw = msg.raw_json;
  }

  -- `if err != nil { return nil, translateError(err) }`
  unfoldable pub translated : {A B : Type 0} → Result A → (A → B) → Result B
  unfolding translate_error
  translated (ok a) f = ok (f a)
  translated (err e) f = err (translate_error e)

  unfoldable pub complete_message : Request → Result Response
  unfolding build_params provider_options translated read_message
  complete_message req = and_then (build_params sdk req) (λ params.
      translated (sdk.send params (provider_options req.provider_options)) (read_message req))

  unfoldable pub list_models : Result (List ModelInfo)
  unfolding translate_error model_info
  list_models =
      let (models, e) = sdk.list in
      if is_nil e then ok (map model_info models) else err (translate_error e)
