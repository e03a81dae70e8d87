-- ===== src/Gemini/Tests.antt =====
-- Runs of the Gemini adapter on small replies, and witnesses of its properties.
use skyl.Prelude.{
  String, ◌≡◌, refl, true, false, List, [], ◌∷◌, ◌++◌, none, some, Bytes, codes, pos, if◌then◌else◌,
  arith, str_eq,
}
use skyl.Errors.{GoError, is_nil}
use skyl.Errors.RetryAfter.{HeaderLibrary}
use skyl.Json.{Json}
use skyl.Message.{
  Part, text, tool_call, role_assistant, message_text, message_tool_calls, tool_calls_of,
}
use skyl.Response.{stop_end_turn, ModelInfo, Response, Usage}
use skyl.Result.{ok}
use skyl.Httpx.{Network, HttpReply, replied}
use skyl.Stream.{collect_stream}
use skyl.Sse.{Reader, Event, next, read_record}
use skyl.Sse.Fields.{equal, apply_line}
use skyl.Sse.Pump.{run, pump}
use skyl.Gemini.{
  Library, Provider, WireResponse, WirePart, WireContent, no_part, add_part, parts_from_candidate,
}
use skyl.Gemini.Payload.{convert_message}
use skyl.Gemini.Listing.{models_page, page_url, list_models, read_models}
use skyl.Gemini.Decoder.{
  Decoder, at_end, new_decoder, decoder_ops, decode_next, from_queue, on_frame, part_events,
  done_event,
}
use skyl.Gemini.Frames.{frame_events, enter, enter_all, no_ledger}
use skyl.Gemini.Replies.{Completes, reply_finished}
use skyl.Gemini.Reach.{start, read_on}
use skyl.Sse.History.{Given}
use skyl.Gemini.Signals.{is_signal, Given-Reaches}
use skyl.Gemini.Agreement.{reply_collected, frame_parts}
use skyl.Gemini.Reasons.{reply_reason}
use skyl.Gemini.Conversion.{carried, has_call, candidate-convert_message}
use skyl.Gemini.Pages.{last, more, list_models-Serves, list_models-IsCycle}

abbrev says : String → WirePart
says t = record no_part { text = t }

abbrev calls : String → WirePart
calls name = record no_part { function_call = some (record { name = name; args = "" }) }

abbrev chunk : List WirePart → String → WireResponse
chunk parts reason = record {
  candidates =
      record { content = record { role = "model"; parts = parts }; finish_reason = reason } ∷ [];
  usage = record { prompt_tokens = pos 3; candidates_tokens = pos 5; cached_tokens = pos 1 };
  model_version = "m";
  response_id = "r";
  block_reason = none;
  error = none;
}

abbrev blocked_reply : WireResponse
blocked_reply = record {
  candidates = [];
  usage = record { prompt_tokens = pos 3; candidates_tokens = pos 0; cached_tokens = pos 0 };
  model_version = "m";
  response_id = "r";
  block_reason = some "SAFETY";
  error = none;
}

-- A library that knows three chunks and two pages by the letters that stand for them.
abbrev known : Library
unfolding equal
known = record {
  decode_response = λ b.
      if equal b (codes "t")
      then some (chunk (says "hi" ∷ calls "clock" ∷ []) "")
      else if equal b (codes "s")
      then some (chunk [] "STOP")
      else if equal b (codes "b")
      then some blocked_reply
      else none;
  decode_page = λ b.
      if equal b (codes "1")
      then some (record { entries = "a" ∷ []; next_page_token = "2" })
      else if equal b (codes "2")
      then some (record { entries = "b" ∷ []; next_page_token = "" })
      else if equal b (codes "x")
      then some (record { entries = []; next_page_token = "y" })
      else if equal b (codes "y")
      then some (record { entries = []; next_page_token = "x" })
      else none;
  decode_model = λ e. some (record {
    name = e;
    display_name = "";
    input_token_limit = pos 0;
    output_token_limit = pos 0;
  });
  raw = λ b. "";
  value = λ r. Json.null;
  marshal = λ v. ok "{}";
  base64 = λ b. "";
  print = λ c. "";
  error_text = λ e. "";
  decimal = λ n. "1";
  path_escape = λ t. t;
  query_escape = λ t. t;
  trim_prefix = λ t p. t;
}

abbrev reading : List Bytes → Reader
reading ls = record {
  lines = ls;
  scan_err = GoError.nil;
  event = record { name = []; payload = [] };
  err = GoError.nil;
  done = false;
}

abbrev frame : String → Event
frame t = record { name = []; payload = codes t }

abbrev whole_lines : List Bytes
whole_lines = codes "data: t" ∷ [] ∷ codes "data: s" ∷ [] ∷ []

abbrev whole : List Event
whole = frame "t" ∷ frame "s" ∷ []

reply_finished_example :
    Completes known GoError.nil (new_decoder GoError.nil (reading whole_lines)) (
      let l = enter_all known whole no_ledger in
      frame_events known whole ++ (done_event l.usage l.reason ∷ []))
unfolding next equal read_record apply_line enter
reply_finished_example =
    reply_finished known GoError.nil (reading whole_lines) whole
      (refl, refl, (refl, refl, (refl, refl))) (refl, (refl, tt)) refl

reply_collected_example :
    (r : Response) × (closed : Decoder) × (collect_stream
        (decoder_ops known)
        9
        "gemini"
        "m"
        (new_decoder GoError.nil (reading whole_lines))
      ≡ some (some r, GoError.nil, closed))
    × (message_text r.message
        ≡ message_text (record { role = role_assistant; parts = frame_parts known whole }))
    × (message_tool_calls r.message ≡ tool_calls_of (frame_parts known whole))
unfolding next equal read_record apply_line enter part_events parts_from_candidate add_part
reply_collected_example =
    reply_collected known GoError.nil (reading whole_lines) whole 9 "gemini" "m"
      (refl, refl, (refl, refl, (refl, refl))) (refl, (refl, tt)) refl (omega arith)

-- A reply with a call, whose last chunk has none.
reply_reason_example :
    (u : Usage) × Completes known GoError.nil
      (new_decoder GoError.nil (reading whole_lines))
      (frame_events known whole ++ (done_event u stop_end_turn ∷ []))
unfolding next equal read_record apply_line enter parts_from_candidate
reply_reason_example =
    reply_reason known GoError.nil (reading whole_lines) (frame "t" ∷ []) (frame "s") "STOP" false
      (refl, refl, (refl, refl, (refl, refl))) (refl, (refl, tt))
      (record {
        chunk = chunk [] "STOP";
        candidate = record {
          content = record { role = "model"; parts = [] };
          finish_reason = "STOP";
        };
        decoded = refl;
        first = refl;
        finish = refl;
        calls = refl;
      })
      refl

-- The decoder behind the three events of a whole reply.
abbrev at_terminal : Decoder
at_terminal =
    (decode_next known
      (decode_next known (decode_next known (new_decoder GoError.nil (reading whole_lines))).1).1).1

Given-Reaches_example : Given (is_signal known) (reading whole_lines) at_terminal.reader true
unfolding decode_next new_decoder is_nil next read_record apply_line from_queue run pump on_frame
    parts_from_candidate at_end
Given-Reaches_example =
    Given-Reaches known GoError.nil (reading whole_lines) at_terminal
      (read_on _ (read_on _ (read_on _ start))) refl

abbrev reply_parts : List Part
reply_parts =
    text "a" ∷ tool_call (record { id = "1"; name = "f"; arguments = "" }) ∷ text "" ∷ text "b" ∷ []

candidate-convert_message_example :
    (w : WireContent) × (convert_message known 0
        (record { role = role_assistant; parts = reply_parts })
      ≡ ok w)
    × (w.role ≡ "model")
    × (parts_from_candidate w ≡ (carried reply_parts, has_call reply_parts))
candidate-convert_message_example =
    candidate-convert_message known 0 reply_parts (tt, (tt, (tt, (tt, tt))))

abbrev no_dates : HeaderLibrary
no_dates = record {
  Float = Unit;
  trim_space = λ v. v;
  parse_float = λ v. none;
  at_most_zero = λ x. true;
  nanoseconds = λ x. pos 0;
  until_date = λ v. none;
}

abbrev page_reply : String → HttpReply
page_reply t = record { status = 200; retry_after = ""; body = codes t; read_err = GoError.nil }

abbrev account : Provider
account = record { api_key = ""; base_url = "" }

abbrev one_model : String → List ModelInfo
one_model t =
    record {
      id = t;
      provider = "gemini";
      display_name = "";
      context_window = pos 0;
      max_output_tokens = pos 0;
      raw = t;
    }
    ∷ []

-- A server with two pages.
abbrev two_pages : Network
two_pages = record {
  post = λ u h b. replied (page_reply "");
  get = λ u h.
      if str_eq u "/models?pageSize=1000"
      then replied (page_reply "1")
      else replied (page_reply "2");
}

-- A server whose second and third page name each other.
abbrev looping : Network
looping = record {
  post = λ u h b. replied (page_reply "");
  get = λ u h.
      if str_eq u "/models?pageSize=1000&pageToken=x"
      then replied (page_reply "x")
      else replied (page_reply "y");
}

list_models-Serves_example :
    list_models known no_dates two_pages account 2 ≡ some (ok (one_model "a" ++ one_model "b"))
unfolding models_page page_url read_models is_nil equal
list_models-Serves_example =
    list_models-Serves known no_dates two_pages account 2 2 (one_model "a" ++ one_model "b")
      (more refl refl (last refl refl)) (omega arith)

list_models-IsCycle_example : list_models known no_dates looping account 1000 ≡ none
unfolding models_page page_url read_models is_nil equal
list_models-IsCycle_example =
    list_models-IsCycle known no_dates looping account "x" "y" [] [] [] refl refl
      (record { forth = refl; return_page = refl; goes_on = refl; goes_back = refl }) 1000
