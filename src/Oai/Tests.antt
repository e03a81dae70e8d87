-- ===== src/Oai/Tests.antt =====
-- Runs of the chat-completions client on small replies, and witnesses of its properties.
use skyl.Prelude.{
  ℕ, String, ◌≡◌, refl, true, false, List, [], ◌∷◌, ◌++◌, none, some, Bytes, codes, pos,
  if◌then◌else◌, map, is_empty, concat, arith,
}
use skyl.Errors.{is_nil, GoError, Sentinel, is, kind_of}
use skyl.Json.{string}
use skyl.Retry.{should_retry}
use skyl.Stream.Collecting.{Yields}
use skyl.Sse.{Reader, Event, next, read_record}
use skyl.Sse.Fields.{equal, apply_line}
use skyl.Oai.{text_from_content, Library, WireResponse, WireMessage, WireToolCall}
use skyl.Oai.Decoder.{Decoder, accumulate_all, new_decoder}
use skyl.Oai.Loop.{pump, on_frame, decode_next, decoder_ops}
use skyl.Oai.Finish.{Completes, whole_calls}
use skyl.Oai.Frames.{text_events, enter_choice}
use skyl.Oai.Assembly.{whole_calls-accumulate_all, reply_calls}
use skyl.Errors.RetryAfter.{HeaderLibrary, parse_retry_after}
use skyl.Errors.Status.{transient}
use skyl.Retry.{retry_after_from}
use skyl.Result.{ok, err}
use skyl.Request.Tests.{hello}
use skyl.Message.{user_text, Part, text, tool_call, tool_calls_of, role_assistant}
use skyl.Message.Laws.{texts}
use skyl.Json.{Fields, no_fields}
use skyl.Httpx.{Network, HttpReply, replied, merge}
use skyl.Oai.{Config}
use skyl.Oai.Payload.{convert_messages, convert_parts, convert_part, convert_message, wire_message}
use skyl.Oai.Build.{build_payload, payload_fields}
use skyl.Oai.Reply.{parts_from_wire, complete_chat}
use skyl.Oai.Conversion.{parts-convert_message, with_arguments}
use skyl.Oai.Failures.{complete_chat-status}
use skyl.Oai.Reach.{start, read_on}
use skyl.Sse.History.{Given}
use skyl.Oai.Signals.{is_signal, Reaches-Given}
use skyl.Oai.Replies.{ending_of, decode_finished, decode_truncated}

abbrev fragment : ℕ → String → String → String → WireToolCall
fragment i id name args = record {
  id = id;
  kind = "function";
  index = some (pos i);
  name = name;
  arguments = args;
}

abbrev says : String → List WireToolCall → WireMessage
says t calls = record {
  role = "assistant";
  content = string t;
  tool_calls = calls;
  tool_call_id = "";
}

abbrev chunk : WireMessage → String → WireResponse
chunk delta reason = record {
  id = "r";
  model = "m";
  choices = record { message = says "" []; delta = delta; finish_reason = reason } ∷ [];
  usage = record { prompt_tokens = pos 3; completion_tokens = pos 5; cached_tokens = pos 1 };
  error = none;
}

-- A library that knows two chunks by the letters that stand for them.
abbrev two_chunks : Library
unfolding equal
two_chunks = record {
  decode_response = λ b.
      if equal b (codes "t")
      then some (chunk (says "hi" []) "")
      else if equal b (codes "c")
      then some (chunk (says "" (fragment 0 "a" "clock" "{}" ∷ [])) "stop")
      else none;
  decode_models = λ b. none;
  decode_model = λ e. none;
  raw = λ b. "";
  base64 = λ b. "";
  print = λ c. "";
  error_text = λ e. "";
  decimal = λ n. "1";
}

abbrev reading : List Bytes → Reader
reading ls = record {
  lines = ls;
  scan_err = GoError.nil;
  event = record { name = []; payload = [] };
  err = GoError.nil;
  done = false;
}

abbrev frame : String → Event
frame t = record { name = []; payload = codes t }

abbrev cut_lines : List Bytes
cut_lines = codes "data: t" ∷ [] ∷ []

abbrev whole_lines : List Bytes
whole_lines = codes "data: t" ∷ [] ∷ codes "data: c" ∷ [] ∷ codes "data: [DONE]" ∷ [] ∷ []

decode_truncated_example :
    (s' : Decoder) × Yields
      (decoder_ops two_chunks)
      (new_decoder "x" GoError.nil (reading cut_lines))
      (text_events two_chunks (frame "t" ∷ []))
      s'
    × (is s'.err (kind_of Sentinel.server) ≡ true)
    × (should_retry s'.err ≡ true)
unfolding next equal read_record apply_line enter_choice
decode_truncated_example =
    decode_truncated two_chunks "x" GoError.nil (reading cut_lines) (frame "t" ∷ [])
      (refl, refl, (refl, refl)) (record { not_done = refl; sound = refl }, tt) refl

decode_finished_example : Completes two_chunks (new_decoder "x" GoError.nil (reading whole_lines)) (
    text_events two_chunks (frame "t" ∷ frame "c" ∷ [])
    ++ ending_of two_chunks (frame "t" ∷ frame "c" ∷ []))
unfolding next equal read_record apply_line
decode_finished_example =
    decode_finished two_chunks "x" GoError.nil (reading whole_lines) (frame "t" ∷ frame "c" ∷ [])
      true (refl, refl, (refl, refl, (refl, refl, (refl, refl))))
      (record { not_done = refl; sound = refl }, (record { not_done = refl; sound = refl }, tt))
      refl

abbrev interleaved : List WireToolCall
interleaved =
    fragment 1 "b" "zone" "{\"z\":"
    ∷ fragment 0 "a" "clock" "{"
    ∷ fragment 1 "" "" "1}"
    ∷ fragment 0 "" "" "}"
    ∷ []

whole_calls-accumulate_all_example :
    (let s = accumulate_all interleaved ([], []) in whole_calls s.0 s.1) ≡ reply_calls interleaved
whole_calls-accumulate_all_example = whole_calls-accumulate_all interleaved

abbrev config : Config
config = record {
  name = "x";
  base_url = "u";
  api_key = "";
  extra_headers = λ h. none;
  max_tokens_field = "max_tokens";
}

abbrev reply_parts : List Part
reply_parts = text "a" ∷ tool_call (record { id = "1"; name = "f"; arguments = "" }) ∷ text "b" ∷ []

parts-convert_message_example :
    (w : WireMessage) × (convert_message two_chunks config 0
        (record { role = role_assistant; parts = reply_parts })
      ≡ ok (w ∷ []))
    × (parts_from_wire w
        ≡ (if is_empty (concat (texts reply_parts))
            then []
            else text (concat (texts reply_parts)) ∷ [])
          ++ map tool_call (map with_arguments (tool_calls_of reply_parts)))
parts-convert_message_example =
    parts-convert_message two_chunks config 0 reply_parts (tt, (tt, (tt, tt)))

abbrev no_dates : HeaderLibrary
no_dates = record {
  Float = Unit;
  trim_space = λ v. v;
  parse_float = λ v. none;
  at_most_zero = λ x. true;
  nanoseconds = λ x. pos 0;
  until_date = λ v. none;
}

abbrev busy_reply : HttpReply
busy_reply = record { status = 503; retry_after = ""; body = []; read_err = GoError.nil }

abbrev busy_network : Network
busy_network = record { post = λ u h b. replied busy_reply; get = λ u h. replied busy_reply }

abbrev hello_payload : Fields
hello_payload =
    merge
      (payload_fields two_chunks config hello false (wire_message "user" (string "Hello") [] ∷ []))
      no_fields

complete_chat-status_example :
    (e : GoError) × (complete_chat two_chunks no_dates busy_network config hello ≡ err e)
    × (should_retry e ≡ transient 503)
    × (retry_after_from e ≡ parse_retry_after no_dates "")
unfolding build_payload convert_messages convert_message convert_parts convert_part user_text
complete_chat-status_example =
    complete_chat-status two_chunks no_dates busy_network config hello hello_payload busy_reply refl
      refl (omega arith)

-- The decoder behind the three events of a whole reply.
abbrev at_terminal : Decoder
at_terminal =
    (decode_next two_chunks
      (decode_next two_chunks
        (decode_next two_chunks (new_decoder "x" GoError.nil (reading whole_lines))).1).1).1

Reaches-Given_example : Given (is_signal two_chunks) (reading whole_lines) at_terminal.reader true
unfolding decode_next new_decoder is_nil next read_record apply_line text_from_content pump on_frame
Reaches-Given_example =
    Reaches-Given two_chunks "x" GoError.nil (reading whole_lines) at_terminal
      (read_on _ (read_on _ (read_on _ start))) refl
