-- ===== src/Gemini/Replies.antt =====
-- What a caller of `Next` gets of a whole reply of the Gemini API, of one that breaks off, and of one
-- that an error ends.
use skyl.Prelude.{
  ◌≡◌, refl, ap, ◌∙◌, true, false, List, [], ◌∷◌, ◌++◌, append-nil, All, String, Bytes,
}
use skyl.Errors.{GoError, Sentinel, is, is_nil, kind_of, new_error, sentinel, as_go_error}
use skyl.Retry.{should_retry}
use skyl.Stream.{StreamEvent, zero_stream_event, text_delta}
use skyl.Stream.Collecting.{Yields}
use skyl.Sse.{Event, Reader, next}
use skyl.Sse.Encoding.{Delivers}
use skyl.Sse.Latch.{next_latches}
use skyl.Gemini.{Library, provider_name}
use skyl.Gemini.Decoder.{
  Decoder, at_end, decode_next, decoder_ops, done_event, from_queue, new_decoder, truncated,
}
use skyl.Gemini.Frames.{Ledger, no_ledger, holding, IsFrame, frame_events, enter_all}
use skyl.Gemini.Transcript.{next_end, IsPast-frames}

-- The state in which a decoder without a terminal signal stops.
abbrev failed_with : Sentinel → String → Bytes → Decoder → Decoder
unfolding new_error
failed_with kind msg frame s = record s {
  err = as_go_error (new_error provider_name 0 (sentinel kind) msg frame);
}

failed_with-err :
    (msg : String) (frame : Bytes) (s : Decoder)
    → (is (failed_with Sentinel.server msg frame s).err (kind_of Sentinel.server) ≡ true)
      × (should_retry (failed_with Sentinel.server msg frame s).err ≡ true)
unfolding failed_with new_error is should_retry skyl.Retry.retry_by_class
    skyl.Errors.as_provider_error
failed_with-err msg frame s = (refl, refl)

module _ (lib : Library) (close_err : GoError) where
  -- A decoder that gives these events and then ends without error.
  abbrev pub Completes : Decoder → List StreamEvent → Type 0
  Completes s evs = (s' : Decoder) × Yields (decoder_ops lib) s evs s' × (s'.err ≡ GoError.nil)

  -- A decoder that gives these events and then ends with an error of the server, which is worth a
  -- retry.
  abbrev pub Fails : Decoder → List StreamEvent → Type 0
  Fails s evs =
      (s' : Decoder) × Yields (decoder_ops lib) s evs s'
      × (is s'.err (kind_of Sentinel.server) ≡ true)
      × (should_retry s'.err ≡ true)

  abbrev flushed : Reader → Ledger → Decoder
  flushed r l = record (holding close_err r (done_event l.usage l.reason) [] l) { flushed = true }

  at_end-flush :
      (r : Reader) (ev : StreamEvent) (l : Ledger)
      → r.err ≡ GoError.nil
      → l.terminal ≡ true
      → at_end lib (holding close_err r ev [] l) ≡ (true, flushed r l)
  unfolding at_end is_nil
  at_end-flush r ev l clean terminal = rw (clean, terminal) refl

  at_end-over :
      (s : Decoder)
      → s.reader.err ≡ GoError.nil
      → s.flushed ≡ true
      → s.saw_terminal ≡ true
      → at_end lib s ≡ (false, record s { done = true })
  unfolding at_end is_nil
  at_end-over s clean f terminal = rw (clean, f, terminal) refl

  at_end-cut :
      (r : Reader) (ev : StreamEvent) (l : Ledger)
      → r.err ≡ GoError.nil
      → l.terminal ≡ false
      → at_end lib (holding close_err r ev [] l)
        ≡ (false, failed_with Sentinel.server truncated [] (holding close_err r ev [] l))
  unfolding at_end is_nil failed_with
  at_end-cut r ev l clean open_ended = rw (clean, open_ended) refl

  -- Behind the end of the input: the terminal event, and then the end.
  Completes-end :
      (r : Reader) (ev : StreamEvent) (l : Ledger)
      → Delivers r []
      → l.terminal ≡ true
      → Completes (holding close_err r ev [] l) (done_event l.usage l.reason ∷ [])
  unfolding decoder_ops decode_next from_queue is_nil
  Completes-end r ev l (ended, clean) terminal =
      let latched = next_latches r ended in
      let r' = (next r).1 in
      (
        record (flushed r' l) { done = true },
        (
          flushed r' l,
          next_end lib close_err (holding close_err r ev [] l) ended
              ∙ at_end-flush r' ev l clean terminal,
          refl,
          next_end lib close_err (flushed r' l) (ap (λ p. p.0) latched)
              ∙ rw latched (at_end-over (flushed r' l) clean refl terminal),
        ),
        refl,
      )

  module _ (reader : Reader) (evs : List Event) where
    -- If the frames of a reply report no error and one of them has a finish reason, then `Next` gives
    -- the texts and calls of the frames, chunk by chunk in their order, then one terminal event with
    -- the last usage and the last finish reason, and then reports the end without error.
    pub reply_finished :
        Delivers reader evs
        → All (IsFrame lib) evs
        → (enter_all lib evs no_ledger).terminal ≡ true
        → Completes (new_decoder close_err reader) (
            let l = enter_all lib evs no_ledger in
            frame_events lib evs ++ (done_event l.usage l.reason ∷ []))
    unfolding new_decoder
    reply_finished d frames terminal =
        let p =
          IsPast-frames lib close_err evs [] reader (zero_stream_event text_delta) no_ledger
            (rw (append-nil evs) d) frames in
        let (s', y, clean) =
          Completes-end p.reader p.last (enter_all lib evs no_ledger) p.delivers terminal in
        (s', p.yields _ s' y, clean)

    -- If no frame has a finish reason, then the texts and calls are given, and the end is an error: a
    -- failure of the server, which is worth a retry.
    pub reply_truncated :
        Delivers reader evs
        → All (IsFrame lib) evs
        → (enter_all lib evs no_ledger).terminal ≡ false
        → Fails (new_decoder close_err reader) (frame_events lib evs)
    unfolding new_decoder decoder_ops decode_next from_queue is_nil
    reply_truncated d frames open_ended =
        let l = enter_all lib evs no_ledger in
        let p =
          IsPast-frames lib close_err evs [] reader (zero_stream_event text_delta) no_ledger
            (rw (append-nil evs) d) frames in
        let s = holding close_err p.reader p.last [] l in
        let stop =
          next_end lib close_err s p.delivers.0
          ∙ at_end-cut (next p.reader).1 p.last l p.delivers.1 open_ended in
        let t =
          failed_with Sentinel.server truncated []
            (holding close_err (next p.reader).1 p.last [] l) in
        let why = failed_with-err truncated [] (holding close_err (next p.reader).1 p.last [] l) in
        (t, rw (append-nil (frame_events lib evs)) at (p.yields [] t stop), why.0, why.1)
