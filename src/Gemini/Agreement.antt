-- ===== src/Gemini/Agreement.antt =====
-- A streamed reply of the Gemini API collects to the message that the parts of its chunks make up.
use skyl.Prelude.{
  ℕ, ◌<◌, ◌+◌, ◌≡◌, refl, sym, ap, ◌∙◌, true, List, [], ◌∷◌, ◌++◌, length, Option, none, some,
  length-append, concat, String, All, append_assoc, Bytes,
}
use skyl.Errors.{GoError, is_nil}
use skyl.Message.{
  Part, text, image, tool_call, tool_result, nil, role_assistant, message_text, message_tool_calls,
  tool_calls_of,
}
use skyl.Message.Laws.{texts, message_text-concat}
use skyl.Response.{Response, Usage, StopReason}
use skyl.Stream.{StreamEvent, collect_stream}
use skyl.Stream.Collecting.{delta_texts, event_calls, collect_stream-Yields}
use skyl.Sse.{Event, Reader}
use skyl.Sse.Encoding.{Delivers}
use skyl.Gemini.{Library, WireResponse, Candidate, parts_from_candidate}
use skyl.Gemini.Decoder.{Decoder, new_decoder, part_events, done_event, decoder_ops, decoder_close}
use skyl.Gemini.Frames.{
  no_ledger, chunk_of, chunk_events, candidate_events, first_candidate, IsFrame, frame_events,
  enter_all,
}
use skyl.Gemini.Replies.{reply_finished}

abbrev candidate_parts : Option Candidate → List Part
candidate_parts none = []
candidate_parts (some c) = (parts_from_candidate c.content).0

abbrev chunk_parts : Option WireResponse → List Part
chunk_parts none = []
chunk_parts (some w) = candidate_parts (first_candidate w.candidates)

-- The parts of all chunks, in order.
abbrev pub frame_parts : Library → List Event → List Part
frame_parts lib [] = []
frame_parts lib (ev ∷ evs) = chunk_parts (chunk_of lib ev) ++ frame_parts lib evs

texts-append : (ps qs : List Part) → texts (ps ++ qs) ≡ texts ps ++ texts qs
texts-append [] qs = refl
texts-append (text t ∷ ps) qs = ap (λ ts. t ∷ ts) (texts-append ps qs)
texts-append (tool_call c ∷ ps) qs = texts-append ps qs
texts-append (image v ∷ ps) qs = texts-append ps qs
texts-append (tool_result r ∷ ps) qs = texts-append ps qs
texts-append (nil ∷ ps) qs = texts-append ps qs

tool_calls_of-append :
    (ps qs : List Part) → tool_calls_of (ps ++ qs) ≡ tool_calls_of ps ++ tool_calls_of qs
unfolding tool_calls_of
tool_calls_of-append [] qs = refl
tool_calls_of-append (tool_call c ∷ ps) qs = ap (λ cs. c ∷ cs) (tool_calls_of-append ps qs)
tool_calls_of-append (text t ∷ ps) qs = tool_calls_of-append ps qs
tool_calls_of-append (image v ∷ ps) qs = tool_calls_of-append ps qs
tool_calls_of-append (tool_result r ∷ ps) qs = tool_calls_of-append ps qs
tool_calls_of-append (nil ∷ ps) qs = tool_calls_of-append ps qs

module _ (lib : Library) where
  -- The events of some parts, in front of others, carry their texts and calls.
  part_events_lem :
      (frame : Bytes) (ps : List Part) (rest : List StreamEvent)
      → (delta_texts (part_events lib frame ps ++ rest) ≡ texts ps ++ delta_texts rest)
        × (event_calls (part_events lib frame ps ++ rest) ≡ tool_calls_of ps ++ event_calls rest)
  unfolding part_events tool_calls_of
  part_events_lem frame [] rest = (refl, refl)
  part_events_lem frame (text t ∷ ps) rest =
      let (said, called) = part_events_lem frame ps rest in (ap (λ ts. t ∷ ts) said, called)
  part_events_lem frame (tool_call c ∷ ps) rest =
      let (said, called) = part_events_lem frame ps rest in (said, ap (λ cs. c ∷ cs) called)
  part_events_lem frame (image v ∷ ps) rest = part_events_lem frame ps rest
  part_events_lem frame (tool_result r ∷ ps) rest = part_events_lem frame ps rest
  part_events_lem frame (nil ∷ ps) rest = part_events_lem frame ps rest

  chunk_events_lem :
      (frame : Bytes) (w : Option WireResponse) (rest : List StreamEvent)
      → (delta_texts (chunk_events lib frame w ++ rest) ≡ texts (chunk_parts w) ++ delta_texts rest)
        × (event_calls (chunk_events lib frame w ++ rest)
            ≡ tool_calls_of (chunk_parts w) ++ event_calls rest)
  unfolding tool_calls_of
  chunk_events_lem frame none rest = (refl, refl)
  chunk_events_lem frame (some w) rest = candidate_lem (first_candidate w.candidates)
    where
      candidate_lem :
          (c : Option Candidate)
          → (delta_texts (candidate_events lib frame c ++ rest)
              ≡ texts (candidate_parts c) ++ delta_texts rest)
            × (event_calls (candidate_events lib frame c ++ rest)
                ≡ tool_calls_of (candidate_parts c) ++ event_calls rest)
      candidate_lem none = (refl, refl)
      candidate_lem (some c) = part_events_lem frame (parts_from_candidate c.content).0 rest

  frame_events_lem :
      (evs : List Event) (u : Usage) (reason : StopReason)
      → (delta_texts (frame_events lib evs ++ (done_event u reason ∷ []))
          ≡ texts (frame_parts lib evs))
        × (event_calls (frame_events lib evs ++ (done_event u reason ∷ []))
            ≡ tool_calls_of (frame_parts lib evs))
  unfolding tool_calls_of
  frame_events_lem [] u reason = (refl, refl)
  frame_events_lem (ev ∷ evs) u reason =
      let w = chunk_of lib ev in
      let more = frame_events lib evs ++ (done_event u reason ∷ []) in
      let (said, called) = frame_events_lem evs u reason in
      let (front, first) = chunk_events_lem ev.payload w more in
      (
        ap delta_texts (append_assoc (chunk_events lib ev.payload w) (frame_events lib evs) _)
            ∙ front
            ∙ ap (λ ts. texts (chunk_parts w) ++ ts) said
            ∙ sym (texts-append (chunk_parts w) (frame_parts lib evs)),
        ap event_calls (append_assoc (chunk_events lib ev.payload w) (frame_events lib evs) _)
            ∙ first
            ∙ ap (λ cs. tool_calls_of (chunk_parts w) ++ cs) called
            ∙ sym (tool_calls_of-append (chunk_parts w) (frame_parts lib evs)),
      )

  -- If the frames of a reply report no error and one of them has a finish reason, then CollectStream,
  -- with more fuel than events, gives a response without error whose text and whose tool calls are
  -- those of the message with all the parts of the chunks in their order.
  pub reply_collected :
      (close_err : GoError) (reader : Reader) (evs : List Event) (fuel : ℕ)
      (provider model : String)
      → Delivers reader evs
      → All (IsFrame lib) evs
      → (enter_all lib evs no_ledger).terminal ≡ true
      → length (frame_events lib evs) + 1 < fuel
      → (r : Response) × (closed : Decoder) × (collect_stream
            (decoder_ops lib)
            fuel
            provider
            model
            (new_decoder close_err reader)
          ≡ some (some r, GoError.nil, closed))
        × (message_text r.message
            ≡ message_text (record { role = role_assistant; parts = frame_parts lib evs }))
        × (message_tool_calls r.message ≡ tool_calls_of (frame_parts lib evs))
  unfolding decoder_ops is_nil
  reply_collected close_err reader evs fuel provider model d frames terminal enough =
      let l = enter_all lib evs no_ledger in
      let ends = done_event l.usage l.reason ∷ [] in
      let (s', y, clean) = reply_finished lib close_err reader evs d frames terminal in
      let (fine, _) =
        collect_stream-Yields (decoder_ops lib) fuel provider model (new_decoder close_err reader)
          (frame_events lib evs ++ ends) s' y
          (rw (length-append (frame_events lib evs) ends) enough) in
      let (r, same, said, called) = fine (ap is_nil clean) in
      let (all_said, all_called) = frame_events_lem evs l.usage l.reason in
      (
        r,
        (decoder_close s').1,
        same ∙ ap (λ e. some (some r, e, (decoder_close s').1)) clean,
        said
            ∙ ap concat all_said
            ∙ sym (
                message_text-concat
                  (record { role = role_assistant; parts = frame_parts lib evs })),
        called ∙ all_called,
      )
