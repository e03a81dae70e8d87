-- ===== src/Client/Loop.antt =====
-- skyl.go: the loop over attempts that `Complete`, `Stream` and `Models` share, with what the
-- provider, the context, the timer and the random source answer in each attempt.
use skyl.Prelude.{
  ℕ, zero, suc, Bool, not, ◌||◌, List, [], ◌++◌, Option, none, some, if◌then◌else◌, ℤ,
}
use skyl.Errors.{GoError, is_nil, wrapped}
use skyl.Retry.{backoff, retry_after_from, sleep}
use skyl.Client.{Client, Hook, HookEvent, emit}

-- What a provider's method returns: a value, or nil, and an error, or nil.
pub record Reply (A : Type 0) : Type 0 where
  pub value : Option A
  pub error : GoError

-- The surroundings of a call, by the number of the attempt: the provider's reply under the
-- attempt's own deadline, the caller's context after the attempt and during the wait before it,
-- whether the timer of that wait fires first, the random choice and the measured duration.
pub record Surroundings (A : Type 0) : Type 0 where
  pub reply : ℕ → Option ℤ → Reply A
  pub ctx_err : ℕ → GoError
  pub waiting_err : ℕ → GoError
  pub timer_fires : ℕ → Bool
  pub seed : ℕ → ℕ
  pub elapsed : ℕ → ℤ

pub data Outcome (A : Type 0) : Type 0 where
  returned : Option A → GoError → Outcome A
  panicked : Outcome A

-- A finished call: its outcome, what was delivered to hooks, and how often the provider was called.
pub record Run (A : Type 0) : Type 0 where
  pub outcome : Outcome A
  pub deliveries : List (Hook × HookEvent)
  pub calls : ℕ

abbrev pub failed : {A : Type 0} → GoError → Run A
failed e = record { outcome = returned none e; deliveries = []; calls = 0 }

abbrev pub panicking : {A : Type 0} → Run A
panicking = record { outcome = panicked; deliveries = []; calls = 0 }

abbrev pub giving_up : GoError → GoError
giving_up = wrapped "skyl: giving up after the last attempt"

abbrev pub waiting_to_retry : GoError → GoError
waiting_to_retry = wrapped "skyl: waiting to retry"

-- What one operation puts into the shared loop: the deadline of an attempt, its event, the errors
-- that end the loop, and what is made of a success.
pub record Operation (A B : Type 0) : Type 0 where
  pub deadline : Option ℤ
  pub event : ℕ → Reply A → HookEvent
  pub is_final : GoError → Bool
  pub success : ℕ → Option A → Option B

-- How the wait in front of an attempt ends.
pub data Wait : Type 0 where
  ready : Wait
  aborted : GoError → Wait
  panic : Wait

-- The end of `sleep`, after a delay that `backoff` chose.
unfoldable pub wait_for : GoError → Wait
unfolding is_nil
wait_for e = if is_nil e then ready else aborted e

module _ {A B : Type 0} (c : Client) (env : Surroundings A) (op : Operation A B) where
  -- The wait in front of attempt `n` after the error `last`; there is none in front of the first.
  unfoldable pub wait_before : ℕ → GoError → Wait
  unfolding wait_for
  wait_before zero last = ready
  wait_before (suc n) last = elim (backoff c.policy n (retry_after_from last) (env.seed (suc n))) [
    | none ↦ panic
    | some d ↦ wait_for (sleep (env.waiting_err (suc n)) (env.timer_fires (suc n)) d)
  ]

  -- The end of the loop's body, on the reply to attempt `n`; `rest` is the next round.
  unfoldable pub conclude : ℕ → Reply A → Run B → Run B
  unfolding is_nil
  conclude n r rest =
      let sent = emit c (op.event n r) in
      if is_nil r.error
      then record {
        outcome = returned (op.success n r.value) GoError.nil;
        deliveries = sent;
        calls = 1;
      }
      else if op.is_final r.error || not (is_nil (env.ctx_err n))
      then record { outcome = returned none r.error; deliveries = sent; calls = 1 }
      else record {
        outcome = rest.outcome;
        deliveries = sent ++ rest.deliveries;
        calls = suc rest.calls;
      }

  -- The loop with `left` rounds left, at attempt `n`, after the error `last`.
  unfoldable pub attempts : ℕ → ℕ → GoError → Run B
  attempts zero n last = failed (giving_up last)
  attempts (suc left) n last = elim (wait_before n last) [
    | ready ↦ let r = env.reply n op.deadline in conclude n r (attempts left (suc n) r.error)
    | aborted e ↦ failed (waiting_to_retry e)
    | panic ↦ panicking
  ]
