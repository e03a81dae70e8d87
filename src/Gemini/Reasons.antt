-- ===== src/Gemini/Reasons.antt =====
-- Which finish reason a streamed reply of the Gemini API reports.
use skyl.Prelude.{
  ◌≡◌, refl, ap, ◌∙◌, true, false, List, [], ◌∷◌, ◌++◌, All, some, String, is_empty, Bool, str_eq,
  any, Option, none, if◌then◌else◌, ◌||◌, Bool-cases, inl, inr, arith,
}
use mathlib.Core.Path.{subst}
use skyl.Errors.{GoError}
use skyl.Response.{
  Usage, StopReason, stop_end_turn, stop_max_tokens, stop_tool_use, stop_refusal, stop_unknown,
}
use skyl.Message.{Part}
use skyl.Sse.{Event, Reader}
use skyl.Sse.Encoding.{Delivers}
use skyl.Gemini.{
  Library, WireResponse, Candidate, WirePart, FunctionCall, map_finish_reason, add_part, parts_from,
  parts_from_candidate,
}
use skyl.Gemini.Decoder.{new_decoder, done_event}
use skyl.Gemini.Frames.{
  Ledger, no_ledger, chunk_of, enter, first_candidate, IsFrame, frame_events, enter_all,
}
use skyl.Gemini.Replies.{Completes, reply_finished}

-- The finish reasons of the API.
abbrev pub reasons : List (String × StopReason)
reasons =
    ("STOP", stop_end_turn)
    ∷ ("MAX_TOKENS", stop_max_tokens)
    ∷ ("SAFETY", stop_refusal)
    ∷ ("RECITATION", stop_refusal)
    ∷ ("BLOCKLIST", stop_refusal)
    ∷ ("PROHIBITED_CONTENT", stop_refusal)
    ∷ ("SPII", stop_refusal)
    ∷ []

abbrev pub reason_in : List (String × StopReason) → String → StopReason
reason_in [] s = stop_unknown
reason_in ((name, r) ∷ rs) s = if str_eq s name then r else reason_in rs s

map_finish_reason-reasons :
    (s : String) (b : Bool)
    → map_finish_reason s b ≡ (if b then stop_tool_use else reason_in reasons s)
unfolding map_finish_reason
map_finish_reason-reasons s true = refl
map_finish_reason-reasons s false = ground arith

abbrev is_call : Option FunctionCall → Bool
is_call none = false
is_call (some call) = true

-- Some part of a chunk asks for a call.
abbrev pub has_function_call : List WirePart → Bool
has_function_call wps = any (λ wp. is_call wp.function_call) wps

add_part-function_call :
    (call : Option FunctionCall) (t : String) (r : List Part × Bool)
    → (add_part call t r).1 ≡ (is_call call || r.1)
unfolding add_part
add_part-function_call (some call) t (parts, b) = refl
add_part-function_call none t (parts, b) = elim (Bool-cases (is_empty t)) [
  | inl e ↦ rw e refl
  | inr e ↦ rw e refl
]

parts_from-function_call : (wps : List WirePart) → (parts_from wps).1 ≡ has_function_call wps
unfolding parts_from
parts_from-function_call [] = refl
parts_from-function_call (wp ∷ wps) =
    add_part-function_call wp.function_call wp.text (parts_from wps)
    ∙ ap (λ b. is_call wp.function_call || b) (parts_from-function_call wps)

-- The chunk of a frame has this finish reason, and it has a call or none.
pub record Ends (lib : Library) (e : Event) (reason : String) (has_calls : Bool) : Type 0 where
  pub chunk : WireResponse
  pub candidate : Candidate
  pub decoded : chunk_of lib e ≡ some chunk
  pub first : first_candidate chunk.candidates ≡ some candidate
  pub finish : candidate.finish_reason ≡ reason
  pub calls : has_function_call candidate.content.parts ≡ has_calls

module _ (lib : Library) where
  enter_all-append :
      (evs more : List Event) (l : Ledger)
      → enter_all lib (evs ++ more) l ≡ enter_all lib more (enter_all lib evs l)
  enter_all-append [] more l = refl
  enter_all-append (ev ∷ evs) more l = enter_all-append evs more (enter (chunk_of lib ev) l)

  enter-Ends :
      (e : Event) (reason : String) (b : Bool) (l : Ledger)
      → Ends lib e reason b
      → is_empty reason ≡ false
      → ((enter (chunk_of lib e) l).reason
          ≡ (if b then stop_tool_use else reason_in reasons reason))
        × ((enter (chunk_of lib e) l).terminal ≡ true)
  unfolding enter parts_from_candidate
  enter-Ends e reason b l h said =
      let calls = parts_from-function_call h.candidate.content.parts ∙ h.calls in
      rw (h.decoded, enter)
        (rw h.first (rw (h.finish, said, calls) (map_finish_reason-reasons reason b, refl)))

  -- If the frames of a reply give whole events, each of them sound, and the last chunk has a finish
  -- reason, then the terminal event reports a request for tools if that very chunk has a call, and
  -- else the reason as the table of the API's reasons reads it: the calls of earlier chunks, which are
  -- given all the same, do not count.
  pub reply_reason :
      (close_err : GoError) (reader : Reader) (evs : List Event) (e : Event) (reason : String)
      (b : Bool)
      → Delivers reader (evs ++ (e ∷ []))
      → All (IsFrame lib) (evs ++ (e ∷ []))
      → Ends lib e reason b
      → is_empty reason ≡ false
      → (u : Usage) × Completes lib close_err (new_decoder close_err reader) (
          frame_events lib (evs ++ (e ∷ []))
          ++ (done_event u (if b then stop_tool_use else reason_in reasons reason) ∷ []))
  reply_reason close_err reader evs e reason b d frames h said =
      let before = enter_all lib evs no_ledger in
      let split = enter_all-append evs (e ∷ []) no_ledger in
      let (told, terminal) = enter-Ends e reason b before h said in
      let l = enter_all lib (evs ++ (e ∷ [])) no_ledger in
      (
        l.usage,
        subst
            (λ x.
              Completes lib close_err (new_decoder close_err reader)
                (frame_events lib (evs ++ (e ∷ [])) ++ (done_event l.usage x ∷ [])))
            (ap (λ (k : Ledger). k.reason) split ∙ told)
            (reply_finished lib close_err reader (evs ++ (e ∷ [])) d frames
              (ap (λ (k : Ledger). k.terminal) split ∙ terminal)),
      )
