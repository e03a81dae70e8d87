-- ===== src/Oai/Frames.antt =====
-- What the frames of a streamed reply say, described frame by frame, and that the decoder reads so.
use skyl.Prelude.{
  ltb_ℤ, pos, String, ◌≡◌, refl, Bool, true, false, ◌||◌, List, [], ◌∷◌, ◌++◌, null, Option, none,
  some, is_empty, if◌then◌else◌, Bool-cases, inl, inr, Bytes, codes, ℤ,
}
use skyl.Response.{Usage, StopReason}
use skyl.Stream.{StreamEvent}
use skyl.Sse.{Event}
use skyl.Sse.Fields.{equal}
use skyl.Oai.{
  Library, WireResponse, WireChoice, WireToolCall, WireUsage, map_finish_reason, text_from_content,
}
use skyl.Oai.Reply.{usage_from_wire}
use skyl.Oai.Decoder.{
  Decoder, Pending, Progress, go_on, return, accumulate_all, with_usage, with_reason, with_calls,
}
use skyl.Oai.Loop.{text_event, on_choice, on_choices, on_error, on_chunk, on_frame}

-- The parts of a chunk that count: of its choices, the first.
abbrev pub first_choice : List WireChoice → Option WireChoice
first_choice [] = none
first_choice (c ∷ cs) = some c

abbrev pub choice_text : Option WireChoice → String
choice_text none = ""
choice_text (some c) = text_from_content c.delta.content

abbrev pub choice_calls : Option WireChoice → List WireToolCall
choice_calls none = []
choice_calls (some c) = c.delta.tool_calls

abbrev pub choice_reason : Option WireChoice → String
choice_reason none = ""
choice_reason (some c) = c.finish_reason

-- What a reply has told so far, apart from its texts.
pub record Ledger : Type 0 where
  pub calls : Pending × List ℤ
  pub usage : Usage
  pub reason : StopReason
  pub terminal : Bool

abbrev pub ledger : Decoder → Ledger
ledger s = record {
  calls = (s.pending, s.order);
  usage = s.usage;
  reason = s.stop_reason;
  terminal = s.saw_terminal;
}

-- A chunk enters the ledger: its usage if it counts any token, its reason if it has one, and the
-- fragments of its calls.
unfoldable pub enter_choice : WireUsage → Option WireChoice → Ledger → Ledger
unfolding accumulate_all map_finish_reason usage_from_wire
enter_choice u c l =
    let silent = is_empty (choice_reason c) in
    record {
      calls = accumulate_all (choice_calls c) l.calls;
      usage =
          if ltb_ℤ (pos 0) u.prompt_tokens || ltb_ℤ (pos 0) u.completion_tokens
          then usage_from_wire u
          else l.usage;
      reason = if silent then l.reason else map_finish_reason (choice_reason c);
      terminal = if silent then l.terminal else true;
    }

abbrev pub enter : Option WireResponse → Ledger → Ledger
enter none l = l
enter (some w) l = enter_choice w.usage (first_choice w.choices) l

abbrev pub chunk_text : Option WireResponse → String
chunk_text none = ""
chunk_text (some w) = choice_text (first_choice w.choices)

-- A chunk that reports no error.
abbrev pub IsSound : Option WireResponse → Type 0
IsSound none = Unit
IsSound (some w) = w.error ≡ none

module _ (lib : Library) where
  -- The chunk in a frame; an empty frame and one that cannot be decoded have none.
  abbrev pub chunk_of : Event → Option WireResponse
  chunk_of ev = if null ev.payload then none else lib.decode_response ev.payload

  -- A frame that neither ends the reply nor reports an error.
  pub record IsFrame (ev : Event) : Type 0 where
    pub not_done : equal ev.payload (codes "[DONE]") ≡ false
    pub sound : IsSound (chunk_of ev)

  abbrev pub frame_events : Event → List StreamEvent
  frame_events ev =
      let t = chunk_text (chunk_of ev) in
      if is_empty t then [] else text_event lib ev.payload t ∷ []

  abbrev pub text_events : List Event → List StreamEvent
  text_events [] = []
  text_events (ev ∷ evs) = frame_events ev ++ text_events evs

  abbrev pub enter_all : List Event → Ledger → Ledger
  enter_all [] l = l
  enter_all (ev ∷ evs) l = enter_all evs (enter (chunk_of ev) l)

  -- What the loop makes of a frame with this text and this ledger.
  abbrev pub Reads : Decoder → Bytes → String → Ledger → Progress → Type 0
  Reads s frame t l (go_on s') = (is_empty t ≡ true) × (ledger s' ≡ l)
  Reads s frame t l (return more s') =
      (is_empty t ≡ false)
      × (more ≡ true)
      × (s'.event ≡ text_event lib frame t)
      × (ledger s' ≡ l)
      × (s'.reader ≡ s.reader)
      × (s'.err ≡ s.err)
      × (s'.done ≡ s.done)
      × (s'.flushed ≡ s.flushed)

  on_choices-Reads :
      (frame : Bytes) (u : WireUsage) (cs : List WireChoice) (s : Decoder)
      → Reads s frame
          (choice_text (first_choice cs))
          (enter_choice u (first_choice cs) (ledger s))
          (on_choices lib frame cs (with_usage u s))
  unfolding on_choices on_choice with_usage with_reason with_calls accumulate_all enter_choice
  on_choices-Reads frame u [] s =
      elim (Bool-cases (ltb_ℤ (pos 0) u.prompt_tokens || ltb_ℤ (pos 0) u.completion_tokens)) [
        | inl counts ↦ rw counts (refl, refl)
        | inr idle ↦ rw idle (refl, refl)
      ]
  on_choices-Reads frame u (c ∷ cs) s =
      elim (Bool-cases (is_empty (text_from_content c.delta.content))) [
        | inl e ↦ elim (Bool-cases (is_empty c.finish_reason)) [
          | inl r ↦
              elim (Bool-cases
                (ltb_ℤ (pos 0) u.prompt_tokens || ltb_ℤ (pos 0) u.completion_tokens)) [
                  | inl k ↦ rw (e, r, k) (e, refl)
                  | inr k ↦ rw (e, r, k) (e, refl)
                ]
          | inr r ↦
              elim (Bool-cases
                (ltb_ℤ (pos 0) u.prompt_tokens || ltb_ℤ (pos 0) u.completion_tokens)) [
                  | inl k ↦ rw (e, r, k) (e, refl)
                  | inr k ↦ rw (e, r, k) (e, refl)
                ]
        ]
        | inr e ↦ elim (Bool-cases (is_empty c.finish_reason)) [
          | inl r ↦
              elim (Bool-cases
                (ltb_ℤ (pos 0) u.prompt_tokens || ltb_ℤ (pos 0) u.completion_tokens)) [
                  | inl k ↦ rw (e, r, k) (e, refl, refl, refl, refl, refl, refl, refl)
                  | inr k ↦ rw (e, r, k) (e, refl, refl, refl, refl, refl, refl, refl)
                ]
          | inr r ↦
              elim (Bool-cases
                (ltb_ℤ (pos 0) u.prompt_tokens || ltb_ℤ (pos 0) u.completion_tokens)) [
                  | inl k ↦ rw (e, r, k) (e, refl, refl, refl, refl, refl, refl, refl)
                  | inr k ↦ rw (e, r, k) (e, refl, refl, refl, refl, refl, refl, refl)
                ]
        ]
      ]

  on_chunk-Reads :
      (frame : Bytes) (w : Option WireResponse) (s : Decoder)
      → IsSound w
      → Reads s frame (chunk_text w) (enter w (ledger s)) (on_chunk lib frame w s)
  unfolding on_chunk on_error
  on_chunk-Reads frame none s h = (refl, refl)
  on_chunk-Reads frame (some w) s h = rw (h, on_error) (on_choices-Reads frame w.usage w.choices s)

  pub on_frame-Reads :
      (ev : Event) (s : Decoder)
      → IsFrame ev
      → Reads s ev.payload
          (chunk_text (chunk_of ev))
          (enter (chunk_of ev) (ledger s))
          (on_frame lib ev.payload s)
  unfolding on_frame
  on_frame-Reads ev s h = elim (Bool-cases (null ev.payload)) [
    | inl e ↦ rw e (refl, refl)
    | inr e ↦
        rw (e, h.not_done)
          (on_chunk-Reads ev.payload (lib.decode_response ev.payload) s (rw e at h.sound))
  ]
