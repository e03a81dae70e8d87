-- ===== src/Gemini/Frames.antt =====
-- What the frames of a streamed reply of the Gemini API say, frame by frame, and that the decoder
-- reads them so.
use skyl.Prelude.{
  String, ◌≡◌, refl, Bool, true, false, List, [], ◌∷◌, ◌++◌, null, Option, none, some, is_empty,
  if◌then◌else◌, Bool-cases, inl, inr, Bytes,
}
use skyl.Errors.{GoError}
use skyl.Response.{Usage, StopReason, no_usage}
use skyl.Stream.{StreamEvent}
use skyl.Sse.{Event, Reader}
use skyl.Sse.Pump.{KeepsReader}
use skyl.Gemini.{
  Library, WireResponse, Candidate, WireUsage, map_finish_reason, parts_from_candidate,
}
use skyl.Gemini.Reply.{usage_from_wire}
use skyl.Gemini.Decoder.{
  Decoder, counts, with_usage, with_reason, serve, part_events, on_candidate, on_candidates,
  on_error, on_chunk, on_frame, machine,
}

-- What a reply has told so far, apart from its parts.
pub record Ledger : Type 0 where
  pub usage : Usage
  pub reason : StopReason
  pub terminal : Bool

abbrev pub no_ledger : Ledger
no_ledger = record { usage = no_usage; reason = ""; terminal = false }

-- The parts of a chunk that count: of its candidates, the first.
abbrev pub first_candidate : List Candidate → Option Candidate
first_candidate [] = none
first_candidate (c ∷ cs) = some c

abbrev pub enter_reason : Option Candidate → Ledger → Ledger
enter_reason none l = l
enter_reason (some c) l = if is_empty c.finish_reason then l else record l {
  reason = map_finish_reason c.finish_reason (parts_from_candidate c.content).1;
  terminal = true;
}

abbrev pub enter_usage : WireUsage → Ledger → Ledger
enter_usage u l = if counts u then record l { usage = usage_from_wire u } else l

-- A chunk enters the ledger: its usage if it counts any token, and its reason if it has one.
unfoldable pub enter : Option WireResponse → Ledger → Ledger
enter none l = l
enter (some w) l = enter_reason (first_candidate w.candidates) (enter_usage w.usage l)

-- A chunk that reports no error.
abbrev pub IsSound : Option WireResponse → Type 0
IsSound none = Unit
IsSound (some w) = w.error ≡ none

-- A decoder that has neither failed nor given its terminal event, with this in its queue.
abbrev pub holding : GoError → Reader → StreamEvent → List StreamEvent → Ledger → Decoder
holding close_err r ev queued l = record {
  close_err = close_err;
  reader = r;
  event = ev;
  err = GoError.nil;
  queued = queued;
  usage = l.usage;
  stop_reason = l.reason;
  flushed = false;
  done = false;
  closed = false;
  saw_terminal = l.terminal;
}

module _ (lib : Library) where
  -- The chunk in a frame; an empty frame and one that cannot be decoded have none.
  abbrev pub chunk_of : Event → Option WireResponse
  chunk_of ev = if null ev.payload then none else lib.decode_response ev.payload

  abbrev pub IsFrame : Event → Type 0
  IsFrame ev = IsSound (chunk_of ev)

  abbrev pub candidate_events : Bytes → Option Candidate → List StreamEvent
  candidate_events frame none = []
  candidate_events frame (some c) = part_events lib frame (parts_from_candidate c.content).0

  abbrev pub chunk_events : Bytes → Option WireResponse → List StreamEvent
  chunk_events frame none = []
  chunk_events frame (some w) = candidate_events frame (first_candidate w.candidates)

  -- The events of the frames: the texts and calls of each chunk, in order.
  abbrev pub frame_events : List Event → List StreamEvent
  frame_events [] = []
  frame_events (ev ∷ evs) = chunk_events ev.payload (chunk_of ev) ++ frame_events evs

  abbrev pub enter_all : List Event → Ledger → Ledger
  enter_all [] l = l
  enter_all (ev ∷ evs) l = enter_all evs (enter (chunk_of ev) l)

  module _ (close_err : GoError) (r : Reader) (ev : StreamEvent) where
    with_usage-holding :
        (u : WireUsage) (l : Ledger)
        → with_usage u (holding close_err r ev [] l) ≡ holding close_err r ev [] (enter_usage u l)
    unfolding with_usage
    with_usage-holding u l = elim (Bool-cases (counts u)) [ inl e ↦ rw e refl | inr e ↦ rw e refl ]

    on_candidates-holding :
        (frame : Bytes) (cs : List Candidate) (l : Ledger)
        → on_candidates lib frame cs (holding close_err r ev [] l)
          ≡ serve
              (candidate_events frame (first_candidate cs))
              (holding close_err r ev [] (enter_reason (first_candidate cs) l))
    unfolding on_candidates on_candidate serve with_reason
    on_candidates-holding frame [] l = refl
    on_candidates-holding frame (c ∷ cs) l = elim (Bool-cases (is_empty c.finish_reason)) [
      | inl e ↦ rw e refl
      | inr e ↦ rw e refl
    ]

    on_chunk-holding :
        (frame : Bytes) (w : Option WireResponse) (l : Ledger)
        → IsSound w
        → on_chunk lib frame w (holding close_err r ev [] l)
          ≡ serve (chunk_events frame w) (holding close_err r ev [] (enter w l))
    unfolding on_chunk on_error enter serve
    on_chunk-holding frame none l h = refl
    on_chunk-holding frame (some w) l h =
        rw (h, on_error, with_usage-holding w.usage l)
          (on_candidates-holding frame w.candidates (enter_usage w.usage l))

    -- A frame queues its events and enters the ledger.
    pub on_frame-holding :
        (e : Event) (l : Ledger)
        → IsFrame e
        → on_frame lib e.payload (holding close_err r ev [] l)
          ≡ serve
              (chunk_events e.payload (chunk_of e))
              (holding close_err r ev [] (enter (chunk_of e) l))
    unfolding on_frame serve enter
    on_frame-holding e l h = elim (Bool-cases (null e.payload)) [
      | inl n ↦ rw n refl
      | inr n ↦ rw n (on_chunk-holding e.payload (lib.decode_response e.payload) l (rw n at h))
    ]

  serve-KeepsReader :
      (evs : List StreamEvent) (s : Decoder) → KeepsReader (machine lib) s.reader (serve evs s)
  unfolding serve
  serve-KeepsReader [] s = refl
  serve-KeepsReader (e ∷ evs) s = tt

  on_candidate-KeepsReader :
      (frame : Bytes) (c : Candidate) (s : Decoder)
      → KeepsReader (machine lib) s.reader (on_candidate lib frame c s)
  unfolding on_candidate with_reason
  on_candidate-KeepsReader frame c s = elim (Bool-cases (is_empty c.finish_reason)) [
    | inl e ↦ rw e (serve-KeepsReader _ s)
    | inr e ↦ rw e (
        serve-KeepsReader _ (record s {
          stop_reason = map_finish_reason c.finish_reason (parts_from_candidate c.content).1;
          saw_terminal = true;
        }))
  ]

  on_candidates-KeepsReader :
      (frame : Bytes) (cs : List Candidate) (s : Decoder)
      → KeepsReader (machine lib) s.reader (on_candidates lib frame cs s)
  unfolding on_candidates
  on_candidates-KeepsReader frame [] s = refl
  on_candidates-KeepsReader frame (c ∷ cs) s = on_candidate-KeepsReader frame c s

  on_error-KeepsReader :
      (frame : Bytes) (e : Option String) (w : WireResponse) (s : Decoder)
      → KeepsReader (machine lib) s.reader (on_error lib frame e w s)
  unfolding on_error with_usage
  on_error-KeepsReader frame (some msg) w s = tt
  on_error-KeepsReader frame none w s = elim (Bool-cases (counts w.usage)) [
    | inl e ↦ rw e (on_candidates-KeepsReader frame w.candidates _)
    | inr e ↦ rw e (on_candidates-KeepsReader frame w.candidates s)
  ]

  on_chunk-KeepsReader :
      (frame : Bytes) (w : Option WireResponse) (s : Decoder)
      → KeepsReader (machine lib) s.reader (on_chunk lib frame w s)
  unfolding on_chunk
  on_chunk-KeepsReader frame none s = refl
  on_chunk-KeepsReader frame (some w) s = on_error-KeepsReader frame w.error w s

  -- A round of the loop leaves the reader where the event left it.
  pub on_frame-KeepsReader :
      (frame : Bytes) (r : Reader) (s : Decoder)
      → KeepsReader (machine lib) r (on_frame lib frame (record s { reader = r }))
  unfolding on_frame
  on_frame-KeepsReader frame r s = elim (Bool-cases (null frame)) [
    | inl e ↦ rw e refl
    | inr e ↦
        rw e (on_chunk-KeepsReader frame (lib.decode_response frame) (record s { reader = r }))
  ]
