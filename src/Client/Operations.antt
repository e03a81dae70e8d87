-- ===== src/Client/Operations.antt =====
-- skyl.go: `Complete`, `Stream` and `Models`.
use skyl.Prelude.{ℕ, suc, Bool, true, false, not, ◌||◌, List, null, Option, none, some, ℤ}
use skyl.Errors.{GoError, Sentinel, sentinel, wrapped, is, kind_of}
use skyl.Retry.{should_retry}
use skyl.Request.{Request, Check, validate}
use skyl.Response.{Response, ModelInfo}
use skyl.Client.{Client, HookEvent, zero_event, op_complete, op_stream, op_models, with_deadline}
use skyl.Client.Loop.{Surroundings, Operation, Run, failed, attempts}

-- The error of `Validate`: every message wraps ErrBadRequest.
abbrev pub invalid_request : GoError
invalid_request = wrapped "skyl: invalid request" (sentinel Sentinel.bad_request)

-- The fields that all events of a call have.
abbrev call_event : Client → ℤ → ℕ → GoError → HookEvent
call_event c elapsed n err = record zero_event {
  provider = c.provider_name;
  attempt = n;
  duration = elapsed;
  err = err;
}

-- `if resp != nil { … }`
unfoldable pub describe : Option Response → HookEvent → HookEvent
describe none ev = ev
describe (some resp) ev = record ev {
  usage = resp.usage;
  response_id = resp.id;
  response_model = resp.model;
  stop_reason = resp.stop_reason;
}

abbrev not_retried : GoError → Bool
not_retried e = not (should_retry e)

unfoldable pub completing : Client → Surroundings Response → Request → Operation Response Response
unfolding describe
completing c env req = record {
  deadline = with_deadline c;
  event = λ n r. describe r.value (record (call_event c (env.elapsed n) n r.error) {
    model = req.model;
    operation = op_complete;
    request = some req;
  });
  is_final = not_retried;
  success = λ n v. v;
}

abbrev pub after_check : {B : Type 0} → Check → Run B → Run B
after_check none run = run
after_check (some e) run = failed invalid_request

unfoldable pub complete : Client → Surroundings Response → Request → Run Response
unfolding completing
complete c env req =
    after_check (validate (some req))
      (attempts c env (completing c env req) (suc c.policy.max_retries) 0 GoError.nil)

-- The stream that `Stream` returns: the provider's own where no hook is registered, else an
-- `observedStream` around it that knows its attempt.
pub data Handle (S : Type 0) : Type 0 where
  plain : S → Handle S
  observed : Option S → ℕ → Handle S

unfoldable pub hand_out : {S : Type 0} → Bool → ℕ → Option S → Option (Handle S)
hand_out true n none = none
hand_out true n (some s) = some (plain s)
hand_out false n v = some (observed v n)

unfoldable pub streaming : {S : Type 0} → Client → Surroundings S → Request → Operation S (Handle S)
unfolding hand_out
streaming c env req = record {
  deadline = none;
  event = λ n r. record (call_event c (env.elapsed n) n r.error) {
    model = req.model;
    operation = op_stream;
    request = some req;
  };
  is_final = not_retried;
  success = hand_out (null c.hooks);
}

unfoldable pub stream : {S : Type 0} → Client → Surroundings S → Request → Run (Handle S)
unfolding streaming
stream c env req =
    after_check (validate (some req))
      (attempts c env (streaming c env req) (suc c.policy.max_retries) 0 GoError.nil)

unfoldable pub listing :
    Client → Surroundings (List ModelInfo) → Operation (List ModelInfo) (List ModelInfo)
listing c env = record {
  deadline = with_deadline c;
  event = λ n r. record (call_event c (env.elapsed n) n r.error) { operation = op_models };
  is_final = λ e. is e (kind_of Sentinel.unsupported) || not_retried e;
  success = λ n v. v;
}

unfoldable pub models : Client → Surroundings (List ModelInfo) → Run (List ModelInfo)
unfolding listing
models c env = attempts c env (listing c env) (suc c.policy.max_retries) 0 GoError.nil
