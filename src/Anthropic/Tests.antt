-- ===== src/Anthropic/Tests.antt =====
-- Runs of the Anthropic adapter on small replies, and witnesses of its properties.
use skyl.Prelude.{
  ◌≤◌, String, ◌≡◌, refl, true, [], ◌∷◌, ◌++◌, none, some, pos, str_eq, if◌then◌else◌,
}
use skyl.Errors.{GoError, Target, is, is_nil}
use skyl.Errors.Status.{transient}
use skyl.Errors.RetryAfter.{HeaderLibrary}
use skyl.Retry.{should_retry, retry_after_from}
use skyl.Result.{Result, ok, err}
use skyl.Anthropic.{
  new_options, with_base_url, with_header, api_key, max_retries, base_url, header, Sdk, SdkMessage,
  SdkStream, ApiError, Delta, of_text, of_other, tool_use,
}
use skyl.Anthropic.Reply.{translate_error}
use skyl.Anthropic.Decoder.{new_decoder}
use skyl.Anthropic.Replies.{Ends}
use skyl.Anthropic.Told.{told, ending, reply_told}
use skyl.Anthropic.Failures.{asked_wait, translate_error_lem}

abbrev empty_message : SdkMessage
empty_message = record {
  id = "";
  model = "";
  content = [];
  stop_reason = "";
  usage = record {
    input_tokens = pos 1;
    output_tokens = pos 2;
    cache_read_input_tokens = pos 3;
    cache_creation_input_tokens = pos 4;
  };
  raw_json = "";
}

-- Events are texts: "c" adds a call, "stop" the stop reason, "bad" cannot be accumulated, and any other
-- is a delta.
abbrev grow : SdkMessage → String → Result SdkMessage
grow acc e =
    if str_eq e "bad"
    then err (GoError.opaque "bad")
    else if str_eq e "c"
    then ok (record acc { content = tool_use "1" "clock" "" ∷ [] })
    else if str_eq e "stop"
    then ok (record acc { stop_reason = "tool_use" })
    else ok acc

abbrev spoken : String → Delta
spoken e = if str_eq e "c" then of_other else if str_eq e "stop" then of_other else of_text e

abbrev overloaded : ApiError
overloaded = record { status_code = 529; message = "overloaded"; retry_after = none }

abbrev toy : Sdk String
toy = record {
  send = λ p o. ok empty_message;
  list = ([], GoError.nil);
  send_streaming = λ p o. record {
    events = [];
    open_err = GoError.nil;
    end_err = GoError.nil;
    close_err = GoError.nil;
  };
  no_message = empty_message;
  accumulate = grow;
  delta_of = spoken;
  as_api_error = λ e. some overloaded;
  error_text = λ e. "";
  unmarshal = λ r. none;
  base64 = λ b. "";
  print = λ c. "";
}

abbrev source : SdkStream String
source = record {
  events = "hi" ∷ "c" ∷ "stop" ∷ [];
  open_err = GoError.nil;
  end_err = GoError.nil;
  close_err = GoError.nil;
}

abbrev no_dates : HeaderLibrary
no_dates = record {
  Float = Unit;
  trim_space = λ v. v;
  parse_float = λ v. none;
  at_most_zero = λ x. true;
  nanoseconds = λ x. pos 0;
  until_date = λ v. none;
}

reply_told_example :
    let (evs, r) = told toy no_dates source.events empty_message in
    Ends toy no_dates
      (new_decoder toy no_dates source)
      (evs ++ (ending toy no_dates source.end_err r).0)
      (ending toy no_dates source.end_err r).1
reply_told_example = reply_told toy no_dates source

-- The events in front of the end: the text, and not the call, which the message holds.
told_whole :
    (told toy no_dates source.events empty_message).1
    ≡ ok (record empty_message { content = tool_use "1" "clock" "" ∷ []; stop_reason = "tool_use" })
told_whole = refl

translate_error_lem_example :
    ((a : ApiError)
      → toy.as_api_error (GoError.opaque "x") ≡ some a
      → 400 ≤ a.status_code
      → (should_retry (translate_error toy no_dates (GoError.opaque "x")) ≡ transient a.status_code)
        × (retry_after_from (translate_error toy no_dates (GoError.opaque "x"))
            ≡ asked_wait no_dates a.retry_after))
    × (toy.as_api_error (GoError.opaque "x") ≡ none
        → (t : Target)
        → is (translate_error toy no_dates (GoError.opaque "x")) t ≡ is (GoError.opaque "x") t)
unfolding is_nil
translate_error_lem_example = translate_error_lem toy no_dates (GoError.opaque "x") refl

-- The SDK's retries are off, in front of what the caller sets.
new_options_start :
    new_options "k" (with_base_url "u" ∷ with_header "beta" "1" ∷ [])
    ≡ api_key "k" ∷ max_retries 0 ∷ base_url "u" ∷ header "beta" "1" ∷ []
unfolding new_options with_base_url with_header
new_options_start = refl
