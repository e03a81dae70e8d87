-- ===== src/Anthropic/Told.antt =====
-- What a caller of `Next` gets of a reply of the Anthropic API, described by what the SDK's stream gives.
use mathlib.Core.Path.{subst}
use skyl.Prelude.{
  plus_int64, String, ◌≡◌, refl, ap, ◌∙◌, not, List, [], ◌∷◌, ◌++◌, some, is_empty, str_eq,
  if◌then◌else◌, Bool-cases, inl, inr,
}
use skyl.Errors.{GoError, is_nil}
use skyl.Errors.RetryAfter.{HeaderLibrary}
use skyl.Response.{
  StopReason, stop_end_turn, stop_max_tokens, stop_tool_use, stop_stop_sequence, stop_refusal,
  stop_unknown,
}
use skyl.Result.{Result, ok, err}
use skyl.Stream.{StreamEvent, zero_stream_event, text_delta, thinking_delta, tool_call_event, done}
use skyl.Anthropic.{
  Sdk, SdkMessage, SdkStream, Delta, of_text, of_thinking, of_other, Block, text_content, tool_use,
  other_content,
}
use skyl.Anthropic.Reply.{
  map_stop_reason, or_no_input, add_block, parts_from_blocks, parts_from_message, usage_from,
  translate_error,
}
use skyl.Anthropic.Decoder.{delta_event, call_events, closing_events, unaccumulated, new_decoder}
use skyl.Anthropic.Replies.{
  or_dropped, gather_one, gathered, closed_by, cut_error, Ends, new_decoder-Ends,
}

-- A delta is an event if it has any text.
abbrev pub delta_told : Delta → List StreamEvent
delta_told (of_text t) =
    if is_empty t then [] else record (zero_stream_event text_delta) { text = t } ∷ []
delta_told (of_thinking t) =
    if is_empty t then [] else record (zero_stream_event thinking_delta) { text = t } ∷ []
delta_told of_other = []

-- The tool calls of a message, in the order of its content.
abbrev pub calls_told : List Block → List StreamEvent
calls_told [] = []
calls_told (tool_use id name raw ∷ bs) =
    record (zero_stream_event tool_call_event) {
      tool_call =
          some (record { id = id; name = name; arguments = if is_empty raw then "{}" else raw });
    }
    ∷ calls_told bs
calls_told (text_content t ∷ bs) = calls_told bs
calls_told (other_content ∷ bs) = calls_told bs

-- The stop reasons of the API.
abbrev pub reasons : List (String × StopReason)
reasons =
    ("end_turn", stop_end_turn)
    ∷ ("max_tokens", stop_max_tokens)
    ∷ ("model_context_window_exceeded", stop_max_tokens)
    ∷ ("tool_use", stop_tool_use)
    ∷ ("stop_sequence", stop_stop_sequence)
    ∷ ("refusal", stop_refusal)
    ∷ []

abbrev pub reason_in : List (String × StopReason) → String → StopReason
reason_in [] s = stop_unknown
reason_in ((name, r) ∷ rs) s = if str_eq s name then r else reason_in rs s

-- The terminal event: the input counts both figures of the cache.
abbrev pub done_told : SdkMessage → StreamEvent
done_told acc = record (zero_stream_event done) {
  usage = some (record {
    input_tokens =
        plus_int64 (plus_int64 acc.usage.input_tokens acc.usage.cache_read_input_tokens)
          acc.usage.cache_creation_input_tokens;
    output_tokens = acc.usage.output_tokens;
    cache_read_tokens = acc.usage.cache_read_input_tokens;
    cache_write_tokens = acc.usage.cache_creation_input_tokens;
  });
  stop_reason = reason_in reasons acc.stop_reason;
}

delta_event-told :
    (d : Delta) (rest : List StreamEvent) → or_dropped (delta_event d) rest ≡ delta_told d ++ rest
unfolding delta_event
delta_event-told (of_text t) rest = elim (Bool-cases (is_empty t)) [
  | inl e ↦ rw e refl
  | inr e ↦ rw e refl
]
delta_event-told (of_thinking t) rest = elim (Bool-cases (is_empty t)) [
  | inl e ↦ rw e refl
  | inr e ↦ rw e refl
]
delta_event-told of_other rest = refl

map_stop_reason-reasons : (s : String) → map_stop_reason s ≡ reason_in reasons s
unfolding map_stop_reason
map_stop_reason-reasons s = elim (Bool-cases (str_eq s "max_tokens")) [
  | inl e ↦ rw e refl
  | inr e ↦ rw e refl
]

call_events-told : (bs : List Block) → call_events (parts_from_blocks bs) ≡ calls_told bs
unfolding call_events parts_from_blocks add_block or_no_input
call_events-told [] = refl
call_events-told (text_content t ∷ bs) = elim (Bool-cases (is_empty t)) [
  | inl e ↦ rw e (call_events-told bs)
  | inr e ↦ rw e (call_events-told bs)
]
call_events-told (tool_use id name raw ∷ bs) = rw (call_events-told bs) refl
call_events-told (other_content ∷ bs) = call_events-told bs

closing_events-told :
    (acc : SdkMessage) → closing_events acc ≡ calls_told acc.content ++ (done_told acc ∷ [])
unfolding closing_events parts_from_message usage_from
closing_events-told acc =
    rw (call_events-told acc.content, map_stop_reason-reasons acc.stop_reason) refl

module _ {E : Type 0} (sdk : Sdk E) (hdr : HeaderLibrary) where
  -- What some events tell: their deltas, up to the first event that cannot be accumulated, and the
  -- message that they make up, or the failure to accumulate.
  abbrev pub tell_one :
      Result SdkMessage
      → Delta
      → (SdkMessage → List StreamEvent × Result SdkMessage)
      → List StreamEvent × Result SdkMessage
  tell_one (err e) d rest = ([], err e)
  tell_one (ok acc) d rest = (delta_told d ++ (rest acc).0, (rest acc).1)

  abbrev pub told : List E → SdkMessage → List StreamEvent × Result SdkMessage
  told [] acc = ([], ok acc)
  told (e ∷ es) acc = tell_one (sdk.accumulate acc e) (sdk.delta_of e) (told es)

  -- How a reply ends: the events behind the deltas, and the error.
  abbrev pub ending : GoError → Result SdkMessage → List StreamEvent × GoError
  ending end_err (err e) = ([], unaccumulated sdk hdr e)
  ending end_err (ok acc) =
      if not (is_nil end_err)
      then ([], translate_error sdk hdr end_err)
      else if is_empty acc.stop_reason
      then ([], cut_error)
      else (calls_told acc.content ++ (done_told acc ∷ []), GoError.nil)

  gather_one-told :
      (r : Result SdkMessage) (d : Delta) (f g : SdkMessage → List StreamEvent × Result SdkMessage)
      → ((acc : SdkMessage) → f acc ≡ g acc)
      → gather_one sdk hdr r d f ≡ tell_one r d g
  gather_one-told (err e) d f g h = refl
  gather_one-told (ok acc) d f g h =
      ap (λ (x : List StreamEvent × Result SdkMessage). (or_dropped (delta_event d) x.0, x.1))
        (h acc)
      ∙ ap (λ x. (x, (g acc).1)) (delta_event-told d (g acc).0)

  gathered-told : (es : List E) (acc : SdkMessage) → gathered sdk hdr es acc ≡ told es acc
  unfolding gathered
  gathered-told [] acc = refl
  gathered-told (e ∷ es) acc =
      gather_one-told (sdk.accumulate acc e) (sdk.delta_of e) (gathered sdk hdr es) (told es)
        (gathered-told es)

  closed_by-ending :
      (end_err : GoError) (r : Result SdkMessage) → closed_by sdk hdr end_err r ≡ ending end_err r
  unfolding closed_by
  closed_by-ending end_err (err e) = refl
  closed_by-ending end_err (ok acc) = rw (closing_events-told acc) refl

  -- Whatever the SDK's stream gives: `Next` gives the deltas that are not empty, in order, and then
  -- - the failure to accumulate, if an event cannot be accumulated;
  -- - else the translated error of the stream, if it ends with one;
  -- - else a failure of the server, if no stop reason was read;
  -- - else the tool calls of the accumulated message, one terminal event, and the end without error.
  pub reply_told :
      (source : SdkStream E)
      → (let (evs, r) = told source.events sdk.no_message in
          Ends sdk hdr
            (new_decoder sdk hdr source)
            (evs ++ (ending source.end_err r).0)
            (ending source.end_err r).1)
  reply_told source =
      let decoder = new_decoder sdk hdr source in
      let all = gathered sdk hdr source.events sdk.no_message in
      subst
        (λ (x : List StreamEvent × Result SdkMessage).
          Ends sdk hdr decoder (x.0 ++ (ending source.end_err x.1).0) (ending source.end_err x.1).1)
        (gathered-told source.events sdk.no_message)
        (subst (λ (x : List StreamEvent × GoError). Ends sdk hdr decoder (all.0 ++ x.0) x.1)
          (closed_by-ending source.end_err all.1) (new_decoder-Ends sdk hdr source))
