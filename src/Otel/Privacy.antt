-- ===== src/Otel/Privacy.antt =====
-- What the telemetry of a call may and may not tell.
use skyl.Prelude.{◌≡◌, ◌≢◌, refl, false, ◌&&◌, ◌||◌, some, arith}
use skyl.Errors.{GoError, Sentinel, is, kind_of}
use skyl.Request.{Request}
use skyl.Client.{HookEvent}
use skyl.Gateway.{error_kind}
use skyl.Otel.{
  Instrumentation, request_attributes, span_attributes, record_span, record_event, error_type,
  base_attributes, record_tokens, record_parts, span_name,
}

request_attributes-same :
    (r r' : Request)
    → r.max_tokens ≡ r'.max_tokens
    → r.temperature ≡ r'.temperature
    → r.top_p ≡ r'.top_p
    → request_attributes (some r) ≡ request_attributes (some r')
unfolding request_attributes
request_attributes-same r r' m t p = rw (m, t, p) refl

-- What is recorded of an event, whose own model and provider are given, does not depend on the content
-- of its request: two requests with the same bound on tokens and the same sampling parameters give the
-- same recordings, whatever their model, system prompt, messages, tools and options.
pub record_event-content :
    (i : Instrumentation) (ev : HookEvent) (r r' : Request)
    → r.max_tokens ≡ r'.max_tokens
    → r.temperature ≡ r'.temperature
    → r.top_p ≡ r'.top_p
    → record_event i (record ev { request = some r })
      ≡ record_event i (record ev { request = some r' })
unfolding record_event record_parts record_span span_attributes base_attributes record_tokens
    span_name
record_event-content i ev r r' m t p = rw (request_attributes-same r r' m t p) refl

-- An error that the gateway reports with a kind has that kind as its type in the telemetry as well,
-- if it is not at once a failure of the server and unsupported or refused.
pub error_type-error_kind :
    (e : GoError)
    → (is e (kind_of Sentinel.server)
        && (is e (kind_of Sentinel.unsupported) || is e (kind_of Sentinel.refusal)))
      ≡ false
    → error_kind e ≢ "unknown"
    → error_type e ≡ error_kind e
unfolding error_type error_kind
error_type-error_kind e h known = ground arith
