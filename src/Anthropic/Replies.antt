-- ===== src/Anthropic/Replies.antt =====
-- The loop of the decoder of the Anthropic API, event by event.
use skyl.Prelude.{
  ◌≡◌, refl, ◌∙◌, true, false, not, List, [], ◌∷◌, ◌++◌, Option, none, some, is_empty,
  if◌then◌else◌, Bool-cases, inl, inr,
}
use skyl.Errors.{GoError, Sentinel, is_nil, new_error, sentinel, as_go_error}
use skyl.Errors.RetryAfter.{HeaderLibrary}
use skyl.Result.{Result, ok, err}
use skyl.Stream.{StreamEvent}
use skyl.Stream.Collecting.{Yields}
use skyl.Anthropic.{Sdk, SdkMessage, SdkStream, Delta, provider_name}
use skyl.Anthropic.Reply.{translate_error}
use skyl.Anthropic.Decoder.{
  Decoder, delta_event, closing_events, serve, finish, at_end, unaccumulated, give,
  after_accumulate, read_events, from_queue, decode_next, new_decoder, decoder_ops, truncated,
}

abbrev pub or_dropped : Option StreamEvent → List StreamEvent → List StreamEvent
or_dropped none evs = evs
or_dropped (some ev) evs = ev ∷ evs

-- The error of a reply that ends without a stop reason.
abbrev pub cut_error : GoError
unfolding new_error
cut_error = as_go_error (new_error provider_name 0 (sentinel Sentinel.server) truncated [])

module _ {E : Type 0} (sdk : Sdk E) (hdr : HeaderLibrary) where
  -- What the loop gathers of some events: their deltas that are not empty, up to the first event that cannot be
  -- accumulated, and the message that they make up.
  abbrev pub gather_one :
      Result SdkMessage
      → Delta
      → (SdkMessage → List StreamEvent × Result SdkMessage)
      → List StreamEvent × Result SdkMessage
  gather_one (err e) d rest = ([], err e)
  gather_one (ok acc) d rest = (or_dropped (delta_event d) (rest acc).0, (rest acc).1)

  unfoldable pub gathered : List E → SdkMessage → List StreamEvent × Result SdkMessage
  gathered [] acc = ([], ok acc)
  gathered (e ∷ es) acc = gather_one (sdk.accumulate acc e) (sdk.delta_of e) (gathered es)

  -- How a reply ends: the events behind the deltas, and the error.
  unfoldable pub closed_by : GoError → Result SdkMessage → List StreamEvent × GoError
  closed_by end_err (err e) = ([], unaccumulated sdk hdr e)
  closed_by end_err (ok acc) =
      if not (is_nil end_err)
      then ([], translate_error sdk hdr end_err)
      else if is_empty acc.stop_reason
      then ([], cut_error)
      else (closing_events acc, GoError.nil)

  -- A decoder that gives these events and then ends with this error.
  abbrev pub Ends : Decoder E → List StreamEvent → GoError → Type 0
  Ends s evs e = (s' : Decoder E) × Yields (decoder_ops sdk hdr) s evs s' × (s'.err ≡ e)

  abbrev holding : SdkStream E → List E → SdkMessage → StreamEvent → Decoder E
  holding source es acc ev = record {
    source = record source { events = es };
    acc = acc;
    event = ev;
    err = GoError.nil;
    queued = [];
    flushed = false;
    done = false;
    closed = false;
  }

  -- The decoder behind its loop, with what is left of its queue.
  abbrev closing : SdkStream E → SdkMessage → StreamEvent → List StreamEvent → Decoder E
  closing source acc ev q = record (holding source [] acc ev) { queued = q; flushed = true }

  module _ (source : SdkStream E) where
    closing-Ends :
        (q : List StreamEvent) (acc : SdkMessage) (ev : StreamEvent)
        → is_nil source.end_err ≡ true
        → is_empty acc.stop_reason ≡ false
        → Ends (closing source acc ev q) q GoError.nil
    unfolding decoder_ops decode_next from_queue read_events at_end finish serve is_nil
    closing-Ends [] acc ev clean stopped =
        (record (closing source acc ev []) { done = true }, rw (clean, stopped) refl, refl)
    closing-Ends (e ∷ q) acc ev clean stopped =
        let (s', y, same) = closing-Ends q acc e clean stopped in
        (s', (closing source acc e q, refl, refl, y), same)

    serve-Ends :
        (q : List StreamEvent) (s : Decoder E) (acc : SdkMessage) (ev : StreamEvent)
        → is_nil source.end_err ≡ true
        → is_empty acc.stop_reason ≡ false
        → decode_next sdk hdr s ≡ serve q (closing source acc ev [])
        → Ends s q GoError.nil
    unfolding decoder_ops serve
    serve-Ends [] s acc ev clean stopped step =
        ((serve [] (closing source acc ev [])).1, step, refl)
    serve-Ends (e ∷ q) s acc ev clean stopped step =
        let (s', y, same) = closing-Ends q acc e clean stopped in
        (s', (closing source acc e q, step, refl, y), same)

    end-Ends :
        (acc : SdkMessage) (ev : StreamEvent)
        → (let (evs, e) = closed_by source.end_err (ok acc) in
            Ends (holding source [] acc ev) evs e)
    unfolding decoder_ops decode_next from_queue read_events at_end finish is_nil closed_by
        cut_error
    end-Ends acc ev = elim (Bool-cases (is_nil source.end_err)) [
      | inr bad ↦ rw bad (
        record (holding source [] acc ev) { err = translate_error sdk hdr source.end_err },
        rw bad refl,
        refl,
      )
      | inl clean ↦ elim (Bool-cases (is_empty acc.stop_reason)) [
        | inl cut ↦
            rw (clean, cut)
              (record (holding source [] acc ev) { err = cut_error }, rw (clean, cut) refl, refl)
        | inr stopped ↦
            rw (clean, stopped)
              (serve-Ends (closing_events acc) (holding source [] acc ev) acc ev clean stopped
                (rw (clean, stopped) refl))
      ]
    ]

    Ends-same :
        (s t : Decoder E) (evs : List StreamEvent) (e : GoError)
        → decode_next sdk hdr s ≡ decode_next sdk hdr t
        → Ends t evs e
        → Ends s evs e
    unfolding decoder_ops
    Ends-same s t [] e step (s', y, same) = (s', step ∙ y, same)
    Ends-same s t (ev ∷ evs) e step (s', (u, n, here, rest), same) =
        (s', (u, step ∙ n, here, rest), same)

    -- A reply from here on, with the events and the error of what it tells.
    abbrev Follows : Decoder E → List StreamEvent × Result SdkMessage → Type 0
    Follows s (evs, r) =
        Ends s (evs ++ (closed_by source.end_err r).0) (closed_by source.end_err r).1

    give-Follows :
        (given : Option StreamEvent) (s : Decoder E) (es : List E) (acc : SdkMessage)
        (ev : StreamEvent)
        → decode_next sdk hdr s
          ≡ give sdk hdr given
              (holding source es acc ev)
              (read_events sdk hdr es (holding source es acc ev))
        → ((last : StreamEvent) → Follows (holding source es acc last) (gathered es acc))
        → Follows s (or_dropped given (gathered es acc).0, (gathered es acc).1)
    unfolding give decoder_ops decode_next from_queue is_nil
    give-Follows none s es acc ev step ih =
        Ends-same s (holding source es acc ev)
          ((gathered es acc).0 ++ (closed_by source.end_err (gathered es acc).1).0)
          (closed_by source.end_err (gathered es acc).1).1 step (ih ev)
    give-Follows (some d) s es acc ev step ih =
        let (s', y, same) = ih d in (s', (holding source es acc d, step, refl, y), same)

    step-Follows :
        (r : Result SdkMessage) (d : Delta) (s : Decoder E) (es : List E) (acc : SdkMessage)
        (ev : StreamEvent)
        → decode_next sdk hdr s
          ≡ after_accumulate sdk hdr r d
              (holding source es acc ev)
              (λ a. read_events sdk hdr es (holding source es a ev))
        → ((a : SdkMessage) (last : StreamEvent)
            → Follows (holding source es a last) (gathered es a))
        → Follows s (gather_one r d (gathered es))
    unfolding after_accumulate decoder_ops closed_by
    step-Follows (err x) d s es acc ev step ih =
        (record (holding source es acc ev) { err = unaccumulated sdk hdr x }, step, refl)
    step-Follows (ok a) d s es acc ev step ih = give-Follows (delta_event d) s es a ev step (ih a)

    gathered-Follows :
        (es : List E) (acc : SdkMessage) (ev : StreamEvent)
        → Follows (holding source es acc ev) (gathered es acc)
    unfolding gathered read_events decode_next from_queue is_nil
    gathered-Follows [] acc ev = end-Ends acc ev
    gathered-Follows (e ∷ es) acc ev =
        step-Follows (sdk.accumulate acc e) (sdk.delta_of e) (holding source (e ∷ es) acc ev) es acc
          ev refl (λ a last. gathered-Follows es a last)

    -- The decoder follows what its own loop gathers.
    pub new_decoder-Ends :
        let (evs, r) = gathered source.events sdk.no_message in
        Ends
          (new_decoder sdk hdr source)
          (evs ++ (closed_by source.end_err r).0)
          (closed_by source.end_err r).1
    unfolding new_decoder
    new_decoder-Ends = gathered-Follows source.events sdk.no_message _
