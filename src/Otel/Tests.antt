-- ===== src/Otel/Tests.antt =====
-- Recordings of small events, and witnesses of the properties of the instrumentation.
use skyl.Prelude.{ℕ, ◌≡◌, refl, true, [], ◌∷◌, none, some, pos, if◌then◌else◌}
use skyl.Errors.{GoError, Sentinel, sentinel}
use skyl.Message.{user_text}
use skyl.Request.{Request}
use skyl.Request.Tests.{hello}
use skyl.Client.{Client, HookEvent, zero_event, default_policy, op_complete}
use skyl.Client.Loop.{Surroundings}
use skyl.Client.Operations.{complete, stream}
use skyl.Otel.{Instrumentation, record_event, record_events}
use skyl.Otel.Accounts.{span_count, events_of, call_telemetry}
use skyl.Otel.Privacy.{record_event-content}

abbrev full : Instrumentation
full = record { has_tokens = true; has_duration = true; record_spans = true }

abbrev watched : Client
watched = record {
  provider_name = "openai";
  policy = default_policy;
  timeout = pos 0;
  hooks = 7 ∷ [];
}

-- Every attempt is refused.
abbrev refusing : {A : Type 0} → Surroundings A
refusing = record {
  reply = λ n d. record { value = none; error = sentinel Sentinel.auth };
  ctx_err = λ n. GoError.nil;
  waiting_err = λ n. GoError.nil;
  timer_fires = λ n. true;
  seed = λ n. 0;
  elapsed = λ n. pos 5;
}

call_telemetry_example :
    (span_count (record_events full (events_of full (complete watched refusing hello).deliveries))
      ≡ (if full.record_spans then (complete watched refusing hello).calls else 0))
    × (record_events full (events_of full (stream {S = ℕ} watched refusing hello).deliveries) ≡ [])
call_telemetry_example = call_telemetry full watched 7 refl hello refusing (refusing {A = ℕ})

abbrev finished : HookEvent
finished = record zero_event { operation = op_complete; model = "m" }

abbrev secret : Request
secret = record hello { system = "secret"; messages = user_text "more" ∷ [] }

record_event-content_example :
    record_event full (record finished { request = some hello })
    ≡ record_event full (record finished { request = some secret })
record_event-content_example = record_event-content full finished hello secret refl refl refl
