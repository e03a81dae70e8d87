-- ===== src/Oai/Replies.antt =====
-- What a caller of `Next` gets of a whole reply, and of one that breaks off.
use skyl.Prelude.{
  String, ◌≡◌, refl, ap, ◌∙◌, Bool, true, false, ◌||◌, ℤ, arith, List, [], ◌∷◌, ◌++◌, append-nil,
  codes, All,
}
use skyl.Errors.{GoError, Sentinel, is, kind_of, is_nil, as_go_error, new_error, sentinel}
use skyl.Retry.{should_retry}
use skyl.Response.{no_usage}
use skyl.Stream.{StreamEvent}
use skyl.Stream.Collecting.{Yields}
use mathlib.Core.Path.{subst}
use skyl.Sse.Fields.{equal}
use skyl.Sse.{Reader, Event, next}
use skyl.Sse.Encoding.{Delivers}
use skyl.Oai.{Library}
use skyl.Oai.Decoder.{Decoder, Pending, new_decoder}
use skyl.Oai.Loop.{on_frame, proceed, on_read, at_end, truncated, decode_next, decoder_ops}
use skyl.Oai.Fuel.{decode_loop}
use skyl.Oai.Finish.{
  Completes, IsSettled, closing_events, whole_calls, settled-Completes, finish-Completes,
}
use skyl.Oai.Frames.{Ledger, IsFrame, text_events, enter_all}
use skyl.Oai.Assembly.{reply_calls, fragments, enter_all-fragments, whole_calls-accumulate_all}
use skyl.Oai.Ledgers.{
  ending, last_usage, last_reason, has_reason, enter_all-last_usage, enter_all-last_reason,
  enter_all-has_reason,
}
use skyl.Oai.Transcript.{IsOpen, IsPast, IsPast-frames}

abbrev pub no_ledger : Ledger
no_ledger = record { calls = ([], []); usage = no_usage; reason = ""; terminal = false }

abbrev pub closing_of : Ledger → List StreamEvent
closing_of l = closing_events (whole_calls l.calls.0 l.calls.1) l.usage l.reason

abbrev pub done_frame : Event
done_frame = record { name = []; payload = codes "[DONE]" }

-- What ends a reply: its calls, its usage and its reason, read off the frames.
abbrev pub ending_of : Library → List Event → List StreamEvent
ending_of lib evs =
    ending (reply_calls (fragments lib evs)) (last_usage lib evs no_usage) (last_reason lib evs "")

-- The end marker, if there is one.
abbrev pub marker : Bool → List Event
marker true = done_frame ∷ []
marker false = []

-- The state in which a decoder without a terminal signal stops.
abbrev cut : Decoder → Decoder
unfolding new_error
cut s = record s {
  reader = (next s.reader).1;
  err = as_go_error (new_error s.provider 0 (sentinel Sentinel.server) truncated []);
}

cut_err :
    (s : Decoder)
    → (is (cut s).err (kind_of Sentinel.server) ≡ true) × (should_retry (cut s).err ≡ true)
unfolding new_error is should_retry skyl.Retry.retry_by_class skyl.Errors.as_provider_error
cut_err s = (refl, refl)

decode_cut :
    (lib : Library) (s : Decoder)
    → IsOpen lib s
    → (next s.reader).0 ≡ false
    → (next s.reader).1.err ≡ GoError.nil
    → s.saw_terminal ≡ false
    → decode_next lib s ≡ (false, cut s)
unfolding on_read at_end is_nil cut
decode_cut lib s h ended clean unended =
    decode_loop lib s h.live ∙ rw (ended, clean, unended, h.unflushed) refl

module _ (lib : Library) (provider : String) (close_err : GoError) (reader : Reader)
    (evs : List Event) where
  opened-IsOpen : IsOpen lib (new_decoder provider close_err reader)
  unfolding new_decoder
  opened-IsOpen = record { live = (refl, refl); unflushed = refl }

  past :
      (more : List Event)
      → Delivers reader (evs ++ more)
      → All (IsFrame lib) evs
      → IsPast lib (new_decoder provider close_err reader) evs more
  unfolding new_decoder
  past more d frames =
      IsPast-frames lib evs more (new_decoder provider close_err reader) opened-IsOpen d frames

  -- A reply without the end marker, by its ledger.
  decode_ended :
      Delivers reader evs
      → All (IsFrame lib) evs
      → (enter_all lib evs no_ledger).terminal ≡ true
      → Completes lib
          (new_decoder provider close_err reader)
          (text_events lib evs ++ closing_of (enter_all lib evs no_ledger))
  unfolding new_decoder
  decode_ended d frames terminal =
      let p = past [] (rw (append-nil evs) d) frames in
      let settled : IsSettled lib p.behind = record {
        live = p.still.live;
        ended = p.delivers.0;
        clean = p.delivers.1;
        terminal = ap (λ (l : Ledger). l.terminal) p.told ∙ terminal;
      } in
      let (s', y, clean) =
        subst (λ (l : Ledger). Completes lib p.behind (closing_of l)) p.told
          (settled-Completes lib p.behind settled p.still.unflushed) in
      (s', p.yields _ s' y, clean)

  -- A reply that the end marker ends, with a finish reason or without one.
  decode_done :
      Delivers reader (evs ++ (done_frame ∷ []))
      → All (IsFrame lib) evs
      → Completes lib
          (new_decoder provider close_err reader)
          (text_events lib evs ++ closing_of (enter_all lib evs no_ledger))
  unfolding new_decoder on_read on_frame proceed equal
  decode_done d frames =
      let p = past (done_frame ∷ []) d frames in
      let t = record p.behind { reader = (next p.behind.reader).1; saw_terminal = true } in
      let settled : IsSettled lib t = record {
        live = p.still.live;
        ended = p.delivers.2.0;
        clean = p.delivers.2.1;
        terminal = refl;
      } in
      let (s', y, clean) =
        subst (λ (l : Ledger). Completes lib p.behind (closing_of l)) p.told
          (finish-Completes lib p.behind t settled p.still.unflushed
            (decode_loop lib p.behind p.still.live ∙ rw (p.delivers.0, p.delivers.1) refl)) in
      (s', p.yields _ s' y, clean)

  closing_of-ending : closing_of (enter_all lib evs no_ledger) ≡ ending_of lib evs
  closing_of-ending =
      let l = enter_all lib evs no_ledger in
      let told = reply_calls (fragments lib evs) in
      ap (λ cs. closing_events cs l.usage l.reason)
        (ap (λ (c : Pending × List ℤ). whole_calls c.0 c.1) (enter_all-fragments lib evs no_ledger)
          ∙ whole_calls-accumulate_all (fragments lib evs))
      ∙ ap (λ u. closing_events told u l.reason) (enter_all-last_usage lib evs no_ledger)
      ∙ ap (λ r. closing_events told (last_usage lib evs no_usage) r)
          (enter_all-last_reason lib evs no_ledger)

  -- If, apart from an end marker that may be the last, no frame of a reply is an end marker or reports
  -- an error, the input ends without error, and one of the frames has a finish reason or there is an
  -- end marker: then `Next` gives the texts of the frames, in order, then each tool call that has a
  -- name, put together from its own fragments, in the order of their first fragments, then one terminal
  -- event with the last finish reason, as the table of the format's reasons reads it, and the last usage
  -- that counts any token, and then reports the end without error.
  pub decode_finished :
      (marked : Bool)
      → Delivers reader (evs ++ marker marked)
      → All (IsFrame lib) evs
      → (has_reason lib evs || marked) ≡ true
      → Completes lib
          (new_decoder provider close_err reader)
          (text_events lib evs ++ ending_of lib evs)
  decode_finished true d frames h = rw⁻¹ closing_of-ending (decode_done d frames)
  decode_finished false d frames h = rw⁻¹ closing_of-ending (
      decode_ended (rw (append-nil evs) at d) frames
        (enter_all-has_reason lib evs no_ledger ∙ ground arith))

  -- If the frames of a reply report no error, none has a finish reason, none is the end marker, and
  -- the input ends without error behind them: then the texts of the frames are given, in order, and the
  -- end is an error, a failure of the server, which is worth a retry.
  pub decode_truncated :
      Delivers reader evs
      → All (IsFrame lib) evs
      → has_reason lib evs ≡ false
      → (s' : Decoder) × Yields
          (decoder_ops lib)
          (new_decoder provider close_err reader)
          (text_events lib evs)
          s'
        × (is s'.err (kind_of Sentinel.server) ≡ true)
        × (should_retry s'.err ≡ true)
  unfolding new_decoder decoder_ops decode_next
  decode_truncated d frames open_ended =
      let p = past [] (rw (append-nil evs) d) frames in
      let unended =
        ap (λ (l : Ledger). l.terminal) p.told
        ∙ enter_all-has_reason lib evs no_ledger
        ∙ open_ended in
      let stop = decode_cut lib p.behind p.still p.delivers.0 p.delivers.1 unended in
      (
        cut p.behind,
        rw (append-nil (text_events lib evs)) at (p.yields [] (cut p.behind) stop),
        (cut_err p.behind).0,
        (cut_err p.behind).1,
      )
