-- ===== src/Client/Tests.antt =====
-- Tests of skyl.go, and the theorems at concrete inputs.
use skyl.Prelude.{
  ℕ, zero, suc, ◌≤◌, ◌≡◌, refl, ap, true, false, not, [], ◌∷◌, Option, none, some, arith, ℤ, pos,
  codes,
}
use skyl.Errors.{
  GoError, Target, as_go_error, is, is_nil, new_error, classify_status, as_provider_error,
  retryable, has_certificate,
}
use skyl.Message.{assistant_text}
use skyl.Request.Tests.{hello, hello_passes}
use skyl.Response.{Response, no_usage, stop_end_turn}
use skyl.Retry.{
  should_retry, retry_by_class, backoff, delay_for, int64n, honour, plus_one, ceiling, shift_left,
  retry_after_from, sleep,
}
use skyl.Client.{Client, default_client}
use skyl.Client.Attempts.{sent_by}
use skyl.Client.Guarantees.{
  complete_accounts, complete_success, complete_failure, complete_exhausted,
}
use skyl.Client.Loop.{Reply, Surroundings, Operation, returned, ready, wait_before, wait_for}
use skyl.Client.Operations.{completing, complete, streaming, stream}
use skyl.Client.Outcomes.{IsRetried, last_error}
use skyl.Client.Streams.{with_other_timeout, stream_timeout}

-- One retry and one hook.
abbrev client : Client
client = record (default_client "openai") {
  policy = record (default_client "openai").policy { max_retries = 1 };
  hooks = 7 ∷ [];
}

abbrev busy : GoError
busy = as_go_error (new_error "openai" 429 (classify_status 429) "slow down" (codes ""))

abbrev answer : Response
answer = record {
  id = "r1";
  provider = "openai";
  model = "gpt";
  message = assistant_text "Hi";
  stop_reason = stop_end_turn;
  usage = no_usage;
  raw = "{}";
}

abbrev replies : {A : Type 0} → Reply A → Reply A → ℕ → Option ℤ → Reply A
replies first later zero d = first
replies first later (suc n) d = later

-- The context stays live and every timer fires.
abbrev calm : {A : Type 0} → Reply A → Reply A → Surroundings A
calm first later = record {
  reply = replies first later;
  ctx_err = λ n. GoError.nil;
  waiting_err = λ n. GoError.nil;
  timer_fires = λ n. true;
  seed = λ n. 12345;
  elapsed = λ n. pos 1000;
}

abbrev rejects : {A : Type 0} → GoError → Reply A
rejects e = record { value = none; error = e }

abbrev gives : {A : Type 0} → A → Reply A
gives a = record { value = some a; error = GoError.nil }

abbrev busy_once : Surroundings Response
busy_once = calm (rejects busy) (gives answer)

abbrev always_busy : Surroundings Response
always_busy = calm (rejects busy) (rejects busy)

busy_is_retried : (should_retry busy ≡ true) × (is_nil busy ≡ false)
unfolding should_retry retry_by_class retryable is has_certificate as_provider_error new_error
    classify_status is_nil
busy_is_retried = (refl, refl)

waits_ready :
    {A B : Type 0} (later : Reply A) (op : Operation A B)
    → wait_before client (calm (rejects busy) later) op 1 busy ≡ ready
unfolding wait_before wait_for backoff delay_for int64n honour plus_one ceiling shift_left
    retry_after_from sleep as_provider_error new_error classify_status is_nil
waits_ready later op = refl

completing_first :
    (later : Reply Response)
    → IsRetried client
        (calm (rejects busy) later)
        (completing client (calm (rejects busy) later) hello)
        0
        GoError.nil
unfolding completing wait_before is_nil
completing_first later = record {
  waits = refl;
  fails = busy_is_retried.1;
  retries = ap not busy_is_retried.0;
  live = refl;
}

streaming_first :
    (later : Reply ℕ)
    → IsRetried client
        (calm (rejects busy) later)
        (streaming client (calm (rejects busy) later) hello)
        0
        GoError.nil
unfolding streaming wait_before is_nil
streaming_first later = record {
  waits = refl;
  fails = busy_is_retried.1;
  retries = ap not busy_is_retried.0;
  live = refl;
}

abbrev completing_busy_once : Operation Response Response
completing_busy_once = completing client busy_once hello

complete_accounts_example :
    ((complete client always_busy hello).calls ≤ 2)
    × ((complete client always_busy hello).deliveries
        ≡ sent_by client always_busy
            (completing client always_busy hello)
            (complete client always_busy hello).calls
            0)
complete_accounts_example = complete_accounts client always_busy hello

complete_success_example :
    ((complete client busy_once hello).outcome ≡ returned (some answer) GoError.nil)
    × ((complete client busy_once hello).calls ≡ 2)
unfolding completing is_nil
complete_success_example =
    complete_success client busy_once hello hello_passes 1 (omega arith)
      (completing_first (gives answer), tt) (waits_ready (gives answer) completing_busy_once) refl

abbrev unauthorized : GoError
unauthorized = as_go_error (new_error "openai" 401 (classify_status 401) "no key" (codes ""))

abbrev locked_out : Surroundings Response
locked_out = calm (rejects unauthorized) (gives answer)

complete_failure_example :
    ((complete client locked_out hello).outcome ≡ returned none unauthorized)
    × ((complete client locked_out hello).calls ≡ 1)
unfolding completing is_nil wait_before should_retry retry_by_class retryable as_provider_error is
    has_certificate new_error classify_status
complete_failure_example =
    complete_failure client locked_out hello hello_passes 0 (omega arith) tt refl refl refl

completing_second : IsRetried client always_busy (completing client always_busy hello) 1 busy
unfolding completing is_nil
completing_second = record {
  waits = waits_ready (rejects busy) (completing client always_busy hello);
  fails = busy_is_retried.1;
  retries = ap not busy_is_retried.0;
  live = refl;
}

complete_exhausted_example :
    (e : GoError) × ((complete client always_busy hello).outcome ≡ returned none e)
    × ((complete client always_busy hello).calls ≡ 2)
    × ((t : Target)
        → is e t
          ≡ is
              (last_error client always_busy (completing client always_busy hello) 2 0 GoError.nil)
              t)
complete_exhausted_example =
    complete_exhausted client always_busy hello hello_passes
      (completing_first (rejects busy), (completing_second, tt))

stream_timeout_example :
    stream (with_other_timeout client (pos 1)) (calm (rejects busy) (gives {A = ℕ} 5)) hello
    ≡ stream client (calm (rejects busy) (gives {A = ℕ} 5)) hello
stream_timeout_example = stream_timeout client (pos 1) (calm (rejects busy) (gives {A = ℕ} 5)) hello
