-- ===== src/Client.antt =====
-- skyl.go: the client, its options and hooks. The retry loop is in `Client.Loop`, the three
-- operations in `Client.Operations`.
pub mod Loop
pub mod Operations
pub mod Options
pub mod Attempts
pub mod Outcomes
pub mod Streams
pub mod Guarantees
pub mod Tests
use mathlib.Core.List.{foldl}
use skyl.Prelude.{
  ℕ, String, Bool, true, false, List, [], ◌∷◌, ◌++◌, map, Option, none, some, if◌then◌else◌, ℤ, pos,
  negsuc, ltb_ℤ, leb_ℤ,
}
use skyl.Errors.{GoError}
use skyl.Retry.{
  RetryPolicy, default_max_retries, default_base_delay, default_max_delay, default_retry_after_cap,
}
use skyl.Request.{Request}
use skyl.Response.{Usage, StopReason, no_usage}

-- 10 minutes in nanoseconds.
abbrev pub default_timeout : ℤ
default_timeout = pos 600000000000

abbrev pub op_complete : String
op_complete = "complete"

abbrev pub op_stream : String
op_stream = "stream"

abbrev pub op_stream_end : String
op_stream_end = "stream_end"

abbrev pub op_models : String
op_models = "models"

pub record HookEvent : Type 0 where
  pub provider : String
  pub model : String
  pub operation : String
  pub attempt : ℕ
  pub duration : ℤ
  pub err : GoError
  pub usage : Usage
  pub response_id : String
  pub response_model : String
  pub stop_reason : StopReason
  pub completed : Bool
  pub request : Option Request

-- An event with the zero values of Go where the code gives no field.
abbrev pub zero_event : HookEvent
zero_event = record {
  provider = "";
  model = "";
  operation = "";
  attempt = 0;
  duration = pos 0;
  err = GoError.nil;
  usage = no_usage;
  response_id = "";
  response_model = "";
  stop_reason = "";
  completed = false;
  request = none;
}

-- A registered hook, told apart by a number: what a hook does with an event is not modelled.
abbrev pub Hook : Type 0
Hook = ℕ

pub record Client : Type 0 where
  pub provider_name : String
  pub policy : RetryPolicy
  pub timeout : ℤ
  pub hooks : List Hook

-- `Option`: one constructor for each function that makes one. The nil hook is `none`.
pub data ClientOption : Type 0 where
  with_max_retries : ℤ → ClientOption
  with_retry_delay : ℤ → ℤ → ClientOption
  with_retry_after_cap : ℤ → ClientOption
  with_timeout : ℤ → ClientOption
  with_hook : Option Hook → ClientOption

unfoldable pub set_max_retries : ℤ → RetryPolicy → RetryPolicy
set_max_retries (pos n) p = record p { max_retries = n }
set_max_retries (negsuc n) p = p

unfoldable pub set_retry_delay : ℤ → ℤ → RetryPolicy → RetryPolicy
set_retry_delay base max_delay p = record p {
  base_delay = if ltb_ℤ (pos 0) base then base else p.base_delay;
  max_delay = if ltb_ℤ (pos 0) max_delay then max_delay else p.max_delay;
}

unfoldable pub set_retry_after_cap : ℤ → RetryPolicy → RetryPolicy
set_retry_after_cap d p = record p {
  retry_after_cap = if ltb_ℤ (pos 0) d then d else p.retry_after_cap;
}

unfoldable pub add_hook : Option Hook → List Hook → List Hook
add_hook none hs = hs
add_hook (some h) hs = hs ++ (h ∷ [])

unfoldable pub apply_option : Client → ClientOption → Client
unfolding set_max_retries set_retry_delay set_retry_after_cap add_hook
apply_option c (with_max_retries n) = record c { policy = set_max_retries n c.policy }
apply_option c (with_retry_delay b m) = record c { policy = set_retry_delay b m c.policy }
apply_option c (with_retry_after_cap d) = record c { policy = set_retry_after_cap d c.policy }
apply_option c (with_timeout d) = record c { timeout = d }
apply_option c (with_hook h) = record c { hooks = add_hook h c.hooks }

abbrev pub default_policy : RetryPolicy
default_policy = record {
  max_retries = default_max_retries;
  base_delay = default_base_delay;
  max_delay = default_max_delay;
  retry_after_cap = default_retry_after_cap;
}

abbrev pub default_client : String → Client
default_client name = record {
  provider_name = name;
  policy = default_policy;
  timeout = default_timeout;
  hooks = [];
}

-- The loop of `New` over its options.
unfoldable pub apply_options : Client → List ClientOption → Client
unfolding apply_option
apply_options c [] = c
apply_options c (o ∷ os) = apply_options (apply_option c o) os

-- `New`, for a provider given by its name; `none` as an argument is the nil provider, and as the
-- result the panic.
unfoldable pub new : Option String → List ClientOption → Option Client
unfolding apply_options
new none opts = none
new (some name) opts = some (apply_options (default_client name) opts)

-- `emit`: each hook in the order of registration, with the event.
unfoldable pub emit : Client → HookEvent → List (Hook × HookEvent)
emit c ev = map (λ h. (h, ev)) c.hooks

-- `withTimeout`: the deadline that an attempt gets on top of the caller's context.
unfoldable pub with_deadline : Client → Option ℤ
with_deadline c = if leb_ℤ c.timeout (pos 0) then none else some c.timeout
