-- ===== src/Otel/Accounts.antt =====
-- The telemetry of whole calls: how many spans they give.
use skyl.Prelude.{
  ltb_ℤ, pos, ℤ, ℕ, zero, suc, ◌+◌, ◌≡◌, refl, ap, ◌∙◌, Bool, true, false, List, [], ◌∷◌, ◌++◌, map,
  Option, none, some, str_eq, if◌then◌else◌, Bool-cases, Option-cases, inl, inr, arith,
}
use skyl.Errors.{GoError}
use skyl.Request.{Request, validate}
use skyl.Response.{Response}
use skyl.Client.{Client, Hook, HookEvent, emit, op_stream}
use skyl.Client.Attempts.{sent_by, attempts-Accounts}
use skyl.Client.Loop.{Surroundings, Operation, Reply, attempts}
use skyl.Client.Operations.{complete, completing, describe, stream, streaming}
use skyl.Client.Guarantees.{complete_accounts}
use skyl.Otel.{
  Instrumentation, Recording, Attribute, duration, tokens, span, record_event, record_events,
  record_tokens, record_parts, token_recording, record_span, base_attributes,
}

abbrev span_one : Recording → ℕ
span_one (duration d attrs) = 0
span_one (tokens n attrs) = 0
span_one (span name d attrs e) = 1

abbrev pub span_count : List Recording → ℕ
span_count [] = 0
span_count (r ∷ rs) = span_one r + span_count rs

span_count-append : (p q : List Recording) → span_count (p ++ q) ≡ span_count p + span_count q
span_count-append [] q = omega arith
span_count-append (r ∷ p) q = omega (arith, span_count-append p q)

token_recording-span_count :
    (n : ℤ) (d : _) (base : List Attribute) → span_count (token_recording n d base) ≡ 0
unfolding token_recording
token_recording-span_count n d base = elim (Bool-cases (ltb_ℤ (pos 0) n)) [
  | inl e ↦ rw e refl
  | inr e ↦ rw e refl
]

module _ (i : Instrumentation) where
  record_tokens-span_count :
      (ev : HookEvent) (base : List Attribute) → span_count (record_tokens i ev base) ≡ 0
  unfolding record_tokens
  record_tokens-span_count ev base = elim (Bool-cases i.has_tokens) [
    | inl e ↦ rw e (
        rw
          (span_count-append (token_recording ev.usage.input_tokens "input" base)
            (token_recording ev.usage.output_tokens "output" base))
          (omega (
            arith,
            token_recording-span_count ev.usage.input_tokens "input" base,
            token_recording-span_count ev.usage.output_tokens "output" base,
          )))
    | inr e ↦ rw e refl
  ]

  -- The spans of one event.
  abbrev pub spans_of : HookEvent → ℕ
  spans_of ev = if str_eq ev.operation op_stream then 0 else if i.record_spans then 1 else 0

  parts_span_count :
      (d s : Bool) (ev : HookEvent) (base : List Attribute)
      → span_count (if d then duration ev.duration base ∷ [] else [])
          + span_count (record_tokens i ev base)
          + span_count (if s then record_span ev base ∷ [] else [])
        ≡ (if s then 1 else 0)
  unfolding record_span
  parts_span_count true true ev base = omega (arith, record_tokens-span_count ev base)
  parts_span_count true false ev base = omega (arith, record_tokens-span_count ev base)
  parts_span_count false true ev base = omega (arith, record_tokens-span_count ev base)
  parts_span_count false false ev base = omega (arith, record_tokens-span_count ev base)

  record_parts-span_count :
      (ev : HookEvent) (base : List Attribute)
      → span_count (record_parts i ev base) ≡ (if i.record_spans then 1 else 0)
  unfolding record_parts
  record_parts-span_count ev base =
      let timed = if i.has_duration then duration ev.duration base ∷ [] else [] in
      let spanned = if i.record_spans then record_span ev base ∷ [] else [] in
      span_count-append (timed ++ record_tokens i ev base) spanned
      ∙ ap (λ n. n + span_count spanned) (span_count-append timed (record_tokens i ev base))
      ∙ parts_span_count i.has_duration i.record_spans ev base

  record_event-span_count : (ev : HookEvent) → span_count (record_event i ev) ≡ spans_of ev
  unfolding record_event
  record_event-span_count ev = elim (Bool-cases (str_eq ev.operation op_stream)) [
    | inl e ↦ rw e refl
    | inr e ↦ rw e (record_parts-span_count ev (base_attributes ev))
  ]

  record_events-span_count :
      (evs more : List HookEvent)
      → span_count (record_events i (evs ++ more))
        ≡ span_count (record_events i evs) + span_count (record_events i more)
  unfolding record_events
  record_events-span_count [] more = omega arith
  record_events-span_count (ev ∷ evs) more = omega (
    arith,
    span_count-append (record_event i ev) (record_events i (evs ++ more)),
    span_count-append (record_event i ev) (record_events i evs),
    record_events-span_count evs more,
  )

  -- What the instrumentation gets, if it is the only hook of the client.
  abbrev pub events_of : List (Hook × HookEvent) → List HookEvent
  events_of ds = map (λ d. d.1) ds

  module _ {A B : Type 0} (c : Client) (h : Hook) (only : c.hooks ≡ h ∷ []) (env : Surroundings A)
      (op : Operation A B) (b : Bool)
      (each : (n : ℕ) (r : Reply A) → spans_of (op.event n r) ≡ (if b then 1 else 0)) where
    sent_by-span_count :
        (k n : ℕ)
        → span_count (record_events i (events_of (sent_by c env op k n))) ≡ (if b then k else 0)
    unfolding record_events emit
    sent_by-span_count zero n = elim (Bool-cases b) [ inl e ↦ rw e refl | inr e ↦ rw e refl ]
    sent_by-span_count (suc k) n =
        let ev = op.event n (env.reply n op.deadline) in
        let one = record_event-span_count ev ∙ each n (env.reply n op.deadline) in
        let rest = sent_by-span_count k (suc n) in
        rw only (
          span_count-append (record_event i ev) _
          ∙ rw (one, rest) (elim (Bool-cases b) [ inl e ↦ rw e (omega arith) | inr e ↦ rw e refl ]))

  describe-operation :
      (v : Option Response) (ev : HookEvent) → (describe v ev).operation ≡ ev.operation
  unfolding describe
  describe-operation none ev = refl
  describe-operation (some r) ev = refl

  silent_event : (ev : HookEvent) → ev.operation ≡ op_stream → record_event i ev ≡ []
  unfolding record_event
  silent_event ev e = rw e refl

  module _ (c : Client) (h : Hook) (only : c.hooks ≡ h ∷ []) (req : Request) where
    complete-span_count :
        (env : Surroundings Response)
        → span_count (record_events i (events_of (complete c env req).deliveries))
          ≡ (if i.record_spans then (complete c env req).calls else 0)
    unfolding completing
    complete-span_count env = rw (complete_accounts c env req).1 (
        sent_by-span_count c h only env (completing c env req) i.record_spans
          (λ n r. rw (describe-operation r.value _) refl) (complete c env req).calls 0)

    module _ {S : Type 0} (env : Surroundings S) where
      sent_by-silent :
          (k n : ℕ) → record_events i (events_of (sent_by c env (streaming c env req) k n)) ≡ []
      unfolding record_events emit streaming
      sent_by-silent zero n = refl
      sent_by-silent (suc k) n = rw only (
          ap
            (λ rs.
              rs ++ record_events i (events_of (sent_by c env (streaming c env req) k (suc n))))
            (silent_event ((streaming c env req).event n (env.reply n none)) refl)
          ∙ sent_by-silent k (suc n))

      stream-silent : record_events i (events_of (stream c env req).deliveries) ≡ []
      unfolding stream record_events
      stream-silent = elim (Option-cases (validate (some req))) [
        | inr (e, bad) ↦ rw bad refl
        | inl fine ↦
            let run =
              attempts c env (streaming c env req) (suc c.policy.max_retries) 0 GoError.nil in
            rw fine (
              rw
                (attempts-Accounts c env (streaming c env req) (suc c.policy.max_retries) 0
                  GoError.nil).1
                (sent_by-silent run.calls 0))
      ]

    -- If the instrumentation is the only hook of a client: of a call of Complete it records one span for
    -- each attempt, failed ones included, or none without spans; of a call of Stream it records nothing
    -- at all, also where every handshake fails, so that such a call leaves no trace.
    pub call_telemetry :
        {S : Type 0} (whole : Surroundings Response) (streamed : Surroundings S)
        → (span_count (record_events i (events_of (complete c whole req).deliveries))
            ≡ (if i.record_spans then (complete c whole req).calls else 0))
          × (record_events i (events_of (stream c streamed req).deliveries) ≡ [])
    call_telemetry whole streamed = (complete-span_count whole, stream-silent streamed)
