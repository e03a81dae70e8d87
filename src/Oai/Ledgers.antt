-- ===== src/Oai/Ledgers.antt =====
-- What the chunks of a reply tell of its usage and its finish reason, read off the chunks themselves.
use skyl.Prelude.{
  ltb_ℤ, pos, ◌≡◌, refl, ap, ◌∙◌, Bool, false, not, ◌||◌, if◌then◌else◌, List, [], ◌∷◌, ◌++◌, map,
  String, str_eq, Option, none, some, is_empty, arith,
}
use skyl.Message.{ToolCall}
use skyl.Response.{
  Usage, StopReason, stop_end_turn, stop_max_tokens, stop_tool_use, stop_refusal, stop_unknown,
}
use skyl.Stream.{StreamEvent, zero_stream_event, tool_call_event, done}
use skyl.Sse.{Event}
use skyl.Oai.{Library, WireResponse, map_finish_reason}
use skyl.Oai.Reply.{usage_from_wire}
use skyl.Oai.Frames.{Ledger, chunk_of, first_choice, choice_reason, enter, enter_choice, enter_all}

-- The finish reasons of the format.
abbrev pub reasons : List (String × StopReason)
reasons =
    ("stop", stop_end_turn)
    ∷ ("end_turn", stop_end_turn)
    ∷ ("length", stop_max_tokens)
    ∷ ("max_tokens", stop_max_tokens)
    ∷ ("tool_calls", stop_tool_use)
    ∷ ("function_call", stop_tool_use)
    ∷ ("content_filter", stop_refusal)
    ∷ ("refusal", stop_refusal)
    ∷ []

abbrev pub reason_in : List (String × StopReason) → String → StopReason
reason_in [] s = stop_unknown
reason_in ((name, r) ∷ rs) s = if str_eq s name then r else reason_in rs s

map_finish_reason-reasons : (s : String) → map_finish_reason s ≡ reason_in reasons s
unfolding map_finish_reason
map_finish_reason-reasons s = ground arith

-- The finish reason of a chunk, empty if it has none.
abbrev pub said : Option WireResponse → String
said none = ""
said (some w) = choice_reason (first_choice w.choices)

-- The last finish reason that some frames have, and the last usage that counts any token.
abbrev pub last_reason : Library → List Event → StopReason → StopReason
last_reason lib [] r = r
last_reason lib (ev ∷ evs) r =
    last_reason lib evs
      (let s = said (chunk_of lib ev) in if is_empty s then r else reason_in reasons s)

abbrev pub counted : Option WireResponse → Usage → Usage
counted none u = u
counted (some w) u =
    if ltb_ℤ (pos 0) w.usage.prompt_tokens || ltb_ℤ (pos 0) w.usage.completion_tokens
    then record {
      input_tokens = w.usage.prompt_tokens;
      output_tokens = w.usage.completion_tokens;
      cache_read_tokens = w.usage.cached_tokens;
      cache_write_tokens = pos 0;
    }
    else u

abbrev pub last_usage : Library → List Event → Usage → Usage
last_usage lib [] u = u
last_usage lib (ev ∷ evs) u = last_usage lib evs (counted (chunk_of lib ev) u)

-- Some frame has a finish reason.
abbrev pub has_reason : Library → List Event → Bool
has_reason lib [] = false
has_reason lib (ev ∷ evs) = not (is_empty (said (chunk_of lib ev))) || has_reason lib evs

-- The events that end a reply: its calls and one terminal event.
abbrev pub ending : List ToolCall → Usage → StopReason → List StreamEvent
ending calls u r =
    map (λ c. record (zero_stream_event tool_call_event) { tool_call = some c }) calls
    ++ (record (zero_stream_event done) {
      usage = some u;
      stop_reason = if is_empty r then stop_unknown else r;
    }
        ∷ [])

enter-reason :
    (w : Option WireResponse) (l : Ledger)
    → (enter w l).reason ≡ (if is_empty (said w) then l.reason else reason_in reasons (said w))
unfolding enter_choice
enter-reason none l = refl
enter-reason (some w) l =
    rw (map_finish_reason-reasons (choice_reason (first_choice w.choices))) refl

enter-usage : (w : Option WireResponse) (l : Ledger) → (enter w l).usage ≡ counted w l.usage
unfolding enter_choice usage_from_wire
enter-usage none l = refl
enter-usage (some w) l = refl

enter-terminal :
    (w : Option WireResponse) (l : Ledger)
    → (enter w l).terminal ≡ (l.terminal || not (is_empty (said w)))
unfolding enter_choice
enter-terminal none l = ground arith
enter-terminal (some w) l = ground arith

module _ (lib : Library) where
  pub enter_all-last_reason :
      (evs : List Event) (l : Ledger) → (enter_all lib evs l).reason ≡ last_reason lib evs l.reason
  enter_all-last_reason [] l = refl
  enter_all-last_reason (ev ∷ evs) l =
      enter_all-last_reason evs (enter (chunk_of lib ev) l)
      ∙ ap (last_reason lib evs) (enter-reason (chunk_of lib ev) l)

  pub enter_all-last_usage :
      (evs : List Event) (l : Ledger) → (enter_all lib evs l).usage ≡ last_usage lib evs l.usage
  enter_all-last_usage [] l = refl
  enter_all-last_usage (ev ∷ evs) l =
      enter_all-last_usage evs (enter (chunk_of lib ev) l)
      ∙ ap (last_usage lib evs) (enter-usage (chunk_of lib ev) l)

  pub enter_all-has_reason :
      (evs : List Event) (l : Ledger)
      → (enter_all lib evs l).terminal ≡ (l.terminal || has_reason lib evs)
  enter_all-has_reason [] l = ground arith
  enter_all-has_reason (ev ∷ evs) l =
      enter_all-has_reason evs (enter (chunk_of lib ev) l)
      ∙ ground (arith, enter-terminal (chunk_of lib ev) l)
