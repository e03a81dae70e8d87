-- ===== src/Stream/Observed.antt =====
-- observedstream.go: the stream that reports its end to the hooks.
use skyl.Prelude.{ℕ, Bool, true, false, List, [], ◌++◌, some, if◌then◌else◌, ℤ}
use skyl.Errors.{GoError}
use skyl.Request.{Request}
use skyl.Response.{Usage, StopReason, no_usage}
use skyl.Client.{Client, Hook, HookEvent, zero_event, op_stream_end, emit}
use skyl.Stream.{
  EventType, text_delta, thinking_delta, tool_call_event, done, StreamEvent, StreamOps, or_usage,
}

-- The fields that change, and `deliveries`, all that the hooks have been given so far.
pub record ObservedStream (S : Type 0) : Type 0 where
  pub inner : S
  pub usage : Usage
  pub stop_reason : StopReason
  pub completed : Bool
  pub fired : Bool
  pub deliveries : List (Hook × HookEvent)

-- The fields that do not change; `elapsed` is `time.Since(started)` at a state of the inner stream.
pub record Opening (S : Type 0) : Type 0 where
  pub client : Client
  pub request : Request
  pub attempt : ℕ
  pub elapsed : S → ℤ

-- `&observedStream{…}` as `Stream` makes it.
abbrev pub observe : {S : Type 0} → S → ObservedStream S
observe s = record {
  inner = s;
  usage = no_usage;
  stop_reason = "";
  completed = false;
  fired = false;
  deliveries = [];
}

module _ {S : Type 0} (ops : StreamOps S) (o : Opening S) where
  abbrev pub end_event : ObservedStream S → HookEvent
  end_event s = record zero_event {
    provider = o.client.provider_name;
    model = o.request.model;
    operation = op_stream_end;
    attempt = o.attempt;
    duration = o.elapsed s.inner;
    err = ops.err s.inner;
    usage = s.usage;
    stop_reason = s.stop_reason;
    completed = s.completed;
    request = some o.request;
  }

  unfoldable pub emit_end : ObservedStream S → ObservedStream S
  emit_end s =
      if s.fired
      then s
      else record s { fired = true; deliveries = s.deliveries ++ emit o.client (end_event s) }

  -- The body of `if ev.Type == EventDone`, on the state behind the inner `Next`.
  unfoldable pub watch : EventType → StreamEvent → ObservedStream S → ObservedStream S
  unfolding emit_end
  watch done ev s = emit_end (record s {
    completed = true;
    usage = or_usage ev.usage s.usage;
    stop_reason = ev.stop_reason;
  })
  watch text_delta ev s = s
  watch thinking_delta ev s = s
  watch tool_call_event ev s = s

  -- `Next`, by what the inner `Next` returned and the state behind it.
  unfoldable pub after_next : Bool → S → ObservedStream S → Bool × ObservedStream S
  unfolding watch
  after_next true i s = let ev = ops.event i in (true, watch ev.kind ev (record s { inner = i }))
  after_next false i s = (false, record s { inner = i })

  unfoldable pub observed_next : ObservedStream S → Bool × ObservedStream S
  unfolding after_next
  observed_next s = let (more, i) = ops.next s.inner in after_next more i s

  unfoldable pub observed_close : ObservedStream S → GoError × ObservedStream S
  unfolding emit_end
  observed_close s = let (err, i) = ops.close s.inner in (err, emit_end (record s { inner = i }))

  unfoldable pub observed_stream : StreamOps (ObservedStream S)
  unfolding observed_next observed_close
  observed_stream = record {
    next = observed_next;
    event = λ s. ops.event s.inner;
    err = λ s. ops.err s.inner;
    close = observed_close;
  }
