-- ===== src/Stream/Reporting.antt =====
-- The observed stream shows its caller the inner stream, and reports its end to the hooks once.
use skyl.Prelude.{
  ◌≡◌, refl, ap, ◌∙◌, Bool, true, false, List, [], ◌∷◌, ◌++◌, ◌⊎◌, inl, inr, if◌then◌else◌, arith,
}
use skyl.Client.{HookEvent, op_stream_end, emit}
use skyl.Response.{no_usage}
use skyl.Stream.{EventType, done, StreamEvent, StreamOps, or_usage}
use skyl.Stream.Collecting.{Yields}
use skyl.Stream.Observed.{
  ObservedStream, Opening, observe, end_event, emit_end, watch, after_next, observed_next,
  observed_close, observed_stream,
}

-- What a caller may do with a stream.
pub data Action : Type 0 where
  advance close_stream : Action

module _ {S : Type 0} (ops : StreamOps S) (o : Opening S) where
  abbrev pub act : Action → ObservedStream S → ObservedStream S
  act advance s = (observed_next ops o s).1
  act close_stream s = (observed_close ops o s).1

  abbrev pub use_stream : List Action → ObservedStream S → ObservedStream S
  use_stream [] s = s
  use_stream (a ∷ rest) s = use_stream rest (act a s)

  -- Nothing was reported yet, or one event was given to every hook, in order.
  abbrev pub IsReported : ObservedStream S → Type 0
  IsReported s =
      ((s.fired ≡ false) × (s.deliveries ≡ []))
      ⊎ ((ev : HookEvent) × (s.fired ≡ true)
          × (s.deliveries ≡ emit o.client ev)
          × (ev.operation ≡ op_stream_end))

  emit_end-IsReported : (s : ObservedStream S) → IsReported s → IsReported (emit_end ops o s)
  unfolding emit_end
  emit_end-IsReported s (inl (f, d)) = inr (end_event ops o s, ground arith, ground arith, refl)
  emit_end-IsReported s (inr (ev, f, d, k)) = inr (ev, ground arith, ground arith, k)

  emit_end-fired : (s : ObservedStream S) → (emit_end ops o s).fired ≡ true
  unfolding emit_end
  emit_end-fired s = ground arith

  watch-IsReported :
      (k : EventType) (ev : StreamEvent) (s : ObservedStream S)
      → IsReported s
      → IsReported (watch ops o k ev s)
  unfolding watch
  watch-IsReported done ev s h = emit_end-IsReported _ h
  watch-IsReported _ ev s h = h

  after_next-IsReported :
      (more : Bool) (i : S) (s : ObservedStream S)
      → IsReported s
      → IsReported (after_next ops o more i s).1
  unfolding after_next
  after_next-IsReported true i s h =
      watch-IsReported (ops.event i).kind (ops.event i) (record s { inner = i }) h
  after_next-IsReported false i s h = h

  act-IsReported : (a : Action) (s : ObservedStream S) → IsReported s → IsReported (act a s)
  unfolding observed_next observed_close
  act-IsReported advance s h = after_next-IsReported (ops.next s.inner).0 (ops.next s.inner).1 s h
  act-IsReported close_stream s h =
      emit_end-IsReported (record s { inner = (ops.close s.inner).1 }) h

  emit_end_fired : (s : ObservedStream S) → s.fired ≡ true → emit_end ops o s ≡ s
  unfolding emit_end
  emit_end_fired s h =
      ap
        (λ b. if b then s else record s {
          fired = true;
          deliveries = s.deliveries ++ emit o.client (end_event ops o s);
        })
        h

  -- `t` has reported, the same as `s`
  abbrev Same : ObservedStream S → ObservedStream S → Type 0
  Same s t = (t.fired ≡ true) × (t.deliveries ≡ s.deliveries)

  emit_end-Same : (s : ObservedStream S) → s.fired ≡ true → Same s (emit_end ops o s)
  emit_end-Same s h = rw (emit_end_fired s h) (h, refl)

  watch-Same :
      (k : EventType) (ev : StreamEvent) (s : ObservedStream S)
      → s.fired ≡ true
      → Same s (watch ops o k ev s)
  unfolding watch
  watch-Same done ev s h =
      emit_end-Same
        (record s {
          completed = true;
          usage = or_usage ev.usage s.usage;
          stop_reason = ev.stop_reason;
        })
        h
  watch-Same _ ev s h = (h, refl)

  after_next-Same :
      (more : Bool) (i : S) (s : ObservedStream S)
      → s.fired ≡ true
      → Same s (after_next ops o more i s).1
  unfolding after_next
  after_next-Same true i s h =
      watch-Same (ops.event i).kind (ops.event i) (record s { inner = i }) h
  after_next-Same false i s h = (h, refl)

  -- Once the end is reported, nothing more is.
  act-Same : (a : Action) (s : ObservedStream S) → s.fired ≡ true → Same s (act a s)
  unfolding observed_next observed_close
  act-Same advance s h = after_next-Same (ops.next s.inner).0 (ops.next s.inner).1 s h
  act-Same close_stream s h = emit_end-Same (record s { inner = (ops.close s.inner).1 }) h

  use_stream-Same :
      (as' : List Action) (s : ObservedStream S) → s.fired ≡ true → Same s (use_stream as' s)
  use_stream-Same [] s h = (h, refl)
  use_stream-Same (a ∷ rest) s h =
      let one = act-Same a s h in
      let more = use_stream-Same rest (act a s) one.0 in (more.0, more.1 ∙ one.1)

  use_stream-IsReported :
      (as' : List Action) (s : ObservedStream S) → IsReported s → IsReported (use_stream as' s)
  use_stream-IsReported [] s h = h
  use_stream-IsReported (a ∷ rest) s h = use_stream-IsReported rest (act a s) (act-IsReported a s h)

  use_stream-append :
      (as' bs : List Action) (s : ObservedStream S)
      → use_stream (as' ++ bs) s ≡ use_stream bs (use_stream as' s)
  use_stream-append [] bs s = refl
  use_stream-append (a ∷ rest) bs s = use_stream-append rest bs (act a s)

  reported_event :
      (s : ObservedStream S)
      → IsReported s
      → s.fired ≡ true
      → (ev : HookEvent) × (s.deliveries ≡ emit o.client ev) × (ev.operation ≡ op_stream_end)
  reported_event s (inl (f, d)) h = absurd (ground arith)
  reported_event s (inr (ev, f, d, k)) h = (ev, d, k)

  closed_fired : (s : ObservedStream S) → (act close_stream s).fired ≡ true
  unfolding observed_close
  closed_fired s = emit_end-fired (record s { inner = (ops.close s.inner).1 })

  -- However a caller uses the stream, hooks get at most one event of its end, and exactly one if
  -- the caller closes the stream at least once, whatever is done before and after.
  pub reports_once :
      (before after : List Action) (s : S)
      → IsReported (use_stream before (observe s))
        × ((ev : HookEvent) × ((use_stream (before ++ close_stream ∷ after) (observe s)).deliveries
              ≡ emit o.client ev)
            × (ev.operation ≡ op_stream_end))
  reports_once before after s =
      let t = use_stream before (observe s) in
      let h = use_stream-IsReported before (observe s) (inl (refl, refl)) in
      let closed = act close_stream t in
      let later = use_stream-IsReported after closed (act-IsReported close_stream t h) in
      let told = (use_stream-Same after closed (closed_fired t)).0 in
      (h, rw use_stream-append (reported_event (use_stream after closed) later told))

  watch-inner :
      (k : EventType) (ev : StreamEvent) (s : ObservedStream S)
      → (watch ops o k ev s).inner ≡ s.inner
  unfolding watch emit_end
  watch-inner done ev s = ground arith
  watch-inner _ ev s = refl

  observed_next-eq :
      (s : ObservedStream S) (more : Bool) (j : S)
      → ops.next s.inner ≡ (more, j)
      → observed_next ops o s ≡ after_next ops o more j s
  unfolding observed_next
  observed_next-eq s more j n = ap (λ (p : Bool × S). after_next ops o p.0 p.1 s) n

  -- The caller of an observed stream sees exactly the events and the error of the inner one.
  pub Yields-observed_stream :
      (s : ObservedStream S) (evs : List StreamEvent) (i : S)
      → Yields ops s.inner evs i
      → (t : ObservedStream S) × Yields (observed_stream ops o) s evs t
        × ((observed_stream ops o).err t ≡ ops.err i)
  unfolding observed_stream after_next
  Yields-observed_stream s [] i y = (record s { inner = i }, observed_next-eq s false i y, refl)
  Yields-observed_stream s (ev ∷ evs) i (j, n, e, y) =
      let t = watch ops o (ops.event j).kind (ops.event j) (record s { inner = j }) in
      let same = watch-inner (ops.event j).kind (ops.event j) (record s { inner = j }) in
      let (u, later, failed) = Yields-observed_stream t evs i (rw same y) in
      (u, (t, observed_next-eq s true j n, ap ops.event same ∙ e, later), failed)

  -- A stream that is closed before its terminal event is reported as not completed, with no usage,
  -- the requested model and the attempt that opened it.
  pub abandoned :
      (s : ObservedStream S)
      → s.fired ≡ false
      → s.completed ≡ false
      → s.usage ≡ no_usage
      → (act close_stream s).deliveries
        ≡ s.deliveries
          ++ emit o.client (record (end_event ops o (record s { inner = (ops.close s.inner).1 })) {
            completed = false;
            usage = no_usage;
          })
  unfolding observed_close emit_end
  abandoned s f c u = ground arith

  reported_done :
      (s : ObservedStream S) (ev : StreamEvent)
      → s.fired ≡ false
      → (watch ops o done ev s).deliveries
        ≡ s.deliveries
          ++ emit o.client (record (end_event ops o s) {
            completed = true;
            usage = or_usage ev.usage s.usage;
            stop_reason = ev.stop_reason;
          })
  unfolding watch emit_end
  reported_done s ev f = ground arith

  -- The terminal event is reported as it passes, before the stream is closed: completed, with the
  -- usage and the stop reason that it carries.
  pub terminal_event :
      (s : ObservedStream S) (i : S) (ev : StreamEvent)
      → s.fired ≡ false
      → ops.next s.inner ≡ (true, i)
      → ops.event i ≡ ev
      → ev.kind ≡ done
      → (act advance s).deliveries
        ≡ s.deliveries
          ++ emit o.client (record (end_event ops o (record s { inner = i })) {
            completed = true;
            usage = or_usage ev.usage s.usage;
            stop_reason = ev.stop_reason;
          })
  unfolding after_next
  terminal_event s i ev f n e k =
      ap (λ (p : Bool × ObservedStream S). p.1.deliveries) (observed_next-eq s true i n)
      ∙ ap (λ x. (watch ops o x.kind x (record s { inner = i })).deliveries) e
      ∙ ap (λ x. (watch ops o x ev (record s { inner = i })).deliveries) k
      ∙ reported_done (record s { inner = i }) ev f
