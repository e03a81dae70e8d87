-- ===== src/Retry/Tests.antt =====
-- Tests of retry.go, and the theorems at concrete inputs.
use skyl.Prelude.{◌^◌, ◌≡◌, refl, none, some, ◌⊎◌, pos, ◌≤ℤ◌}
use skyl.Retry.{RetryPolicy, backoff, int64n, honour, shift_left, plus_one, ceiling}
use skyl.Retry.Backoff.{max_delay_of, cap_of, max_int64, backoff_bounds, backoff_panics}

abbrev policy : RetryPolicy
policy = record {
  max_retries = 3;
  base_delay = pos 500000000;
  max_delay = pos 30000000000;
  retry_after_cap = pos 300000000000;
}

-- The second retry waits at most 2 s; a hint of a minute is honoured.
second_retry : backoff policy 2 (pos 0) 5000000000 ≡ some (pos 999999998)
unfolding backoff int64n honour plus_one ceiling shift_left
second_retry = refl

minute_hint : backoff policy 2 (pos 60000000000) 5000000000 ≡ some (pos 60000000000)
unfolding backoff int64n honour plus_one ceiling shift_left
minute_hint = refl

backoff_bounds_example :
    (pos 0 ≤ℤ pos 999999998)
    × ((pos 999999998 ≤ℤ max_delay_of policy) ⊎ (pos 999999998 ≤ℤ cap_of policy))
backoff_bounds_example = backoff_bounds policy 2 (pos 0) 5000000000 second_retry

-- A base of 2^62 ns, which leaves the 63-bit range when it is doubled.
abbrev huge : RetryPolicy
huge = record policy { base_delay = pos (2 ^ 62); max_delay = pos max_int64 }

backoff_panics_example : backoff huge 1 (pos 0) 7 ≡ none
unfolding shift_left
backoff_panics_example = backoff_panics huge 1 (pos 0) 7 refl refl
