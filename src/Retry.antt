-- ===== src/Retry.antt =====
-- retry.go: whether to try again, and how long to wait. A `time.Duration` is a signed number of
-- nanoseconds in 64 bits.
pub mod Decision
pub mod Backoff
pub mod Tests
use skyl.Prelude.{
  ℕ, ◌+◌, ◌*◌, ◌^◌, ◌%◌, ◌≡◌, Bool, true, false, ◌||◌, ◌&&◌, Option, none, some, ltb, if◌then◌else◌,
  ℤ, pos, negsuc, ltb_ℤ, leb_ℤ, to_int64, pos_part,
}
use skyl.Errors.{
  GoError, Error, is_nil, is, kind_of, context_canceled, context_deadline, has_certificate,
  as_provider_error, retryable,
}

abbrev pub default_max_retries : ℕ
default_max_retries = 3

-- 500 ms, 30 s and 5 min in nanoseconds.
abbrev pub default_base_delay : ℤ
default_base_delay = pos 500000000

abbrev pub default_max_delay : ℤ
default_max_delay = pos 30000000000

abbrev pub default_retry_after_cap : ℤ
default_retry_after_cap = pos 300000000000

pub record RetryPolicy : Type 0 where
  pub max_retries : ℕ
  pub base_delay : ℤ
  pub max_delay : ℤ
  pub retry_after_cap : ℤ

-- The last test of `shouldRetry`: what a provider error says of itself, or yes.
unfoldable pub retry_by_class : Option Error → Bool
unfolding retryable
retry_by_class none = true
retry_by_class (some e) = retryable e

unfoldable pub should_retry : GoError → Bool
unfolding is_nil is has_certificate
should_retry err =
    if is_nil err
    then false
    else if is err context_canceled || is err context_deadline
    then false
    else if has_certificate err
    then false
    else retry_by_class (as_provider_error err)

-- A field of the policy, or its default where it is not positive.
abbrev pub or_default : ℤ → ℤ → ℤ
or_default d default = if leb_ℤ d (pos 0) then default else d

-- `base << uint(shift)` in 64 bits, for a positive `base`.
unfoldable pub shift_left : ℤ → ℕ → ℤ
unfolding to_int64
shift_left base shift = to_int64 (pos_part base * 2 ^ shift)

-- The largest delay that the jitter may choose.
unfoldable pub ceiling : ℤ → ℤ → ℕ → ℤ
ceiling base max_delay attempt =
    let shift = if ltb 20 attempt then 20 else attempt in
    let c = shift_left base shift in if ltb_ℤ max_delay c || leb_ℤ c (pos 0) then max_delay else c

-- `rand.Int64N`, which panics unless its bound is positive; `seed` is the random choice.
unfoldable pub int64n : ℕ → ℤ → Option ℤ
int64n seed (pos n) = if ltb 0 n then some (pos (seed % n)) else none
int64n seed (negsuc n) = none

-- `int64(ceiling) + 1`, in 64 bits.
unfoldable pub plus_one : ℤ → ℤ
unfolding to_int64
plus_one (pos n) = to_int64 (n + 1)
plus_one (negsuc ℕ.zero) = pos 0
plus_one (negsuc (ℕ.suc n)) = negsuc n

-- The choice between the sampled delay and the provider's hint.
unfoldable pub honour : ℤ → ℤ → ℤ → ℤ → ℤ
honour max_delay cap retry_after sampled =
    let delay = if ltb_ℤ max_delay sampled then max_delay else sampled in
    if ltb_ℤ (pos 0) retry_after && ltb_ℤ delay retry_after
    then (if ltb_ℤ cap retry_after then cap else retry_after)
    else delay

-- `backoff` after its defaults. `none` is the panic of `rand.Int64N`.
unfoldable pub delay_for : ℤ → ℤ → ℤ → ℕ → ℤ → ℕ → Option ℤ
delay_for base max_delay cap attempt retry_after seed =
    elim (int64n seed (plus_one (ceiling base max_delay attempt))) [
      | none ↦ none
      | some sampled ↦ some (honour max_delay cap retry_after sampled)
    ]

unfoldable pub backoff : RetryPolicy → ℕ → ℤ → ℕ → Option ℤ
unfolding delay_for
backoff p attempt retry_after seed =
    delay_for (or_default p.base_delay default_base_delay)
      (or_default p.max_delay default_max_delay)
      (or_default p.retry_after_cap default_retry_after_cap) attempt retry_after seed

unfoldable pub retry_after_from : GoError → ℤ
retry_after_from err = elim (as_provider_error err) [ none ↦ pos 0 | some e ↦ e.retry_after ]

-- How a wait of `d` ends: at once with the context's error if `d` is not positive, else with the
-- context's error if the context ends first, and with nil if the timer fires first. `fired` is
-- which of the two came first.
unfoldable pub sleep : GoError → Bool → ℤ → GoError
sleep ctx_err fired d = if leb_ℤ d (pos 0) then ctx_err else if fired then GoError.nil else ctx_err
