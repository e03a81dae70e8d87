-- ===== src/Errors/RetryAfter.antt =====
-- errors.go: `ParseRetryAfter`. Floats, the clock and the text functions of Go's library are
-- parameters.
use skyl.Prelude.{
  String, ◌≡◌, Bool, false, Option, none, some, arith, if◌then◌else◌, is_empty, ℤ, pos, ltb_ℤ, ◌≤ℤ◌,
}

-- What the function takes from Go's library: `strings.TrimSpace`, `strconv.ParseFloat`, the test
-- `secs <= 0`, the conversion of seconds to a `time.Duration`, and the time left until an HTTP date.
pub record HeaderLibrary : Type 1 where
  pub Float : Type 0
  pub trim_space : String → String
  pub parse_float : String → Option Float
  pub at_most_zero : Float → Bool
  pub nanoseconds : Float → ℤ
  pub until_date : String → Option ℤ

module _ (lib : HeaderLibrary) where
  open lib use {Float, trim_space, parse_float, at_most_zero, nanoseconds, until_date}

  from_date : Option ℤ → ℤ
  from_date none = pos 0
  from_date (some d) = if ltb_ℤ (pos 0) d then d else pos 0

  from_header : Option Float → Option ℤ → ℤ
  unfolding from_date
  from_header (some secs) date = if at_most_zero secs then pos 0 else nanoseconds secs
  from_header none date = from_date date

  unfoldable pub parse_retry_after : String → ℤ
  unfolding from_header
  parse_retry_after v =
      let t = trim_space v in
      if is_empty t then pos 0 else from_header (parse_float t) (until_date t)

  from_header-nonneg :
      (p : Option Float) (d : Option ℤ)
      → ((secs : Float) → at_most_zero secs ≡ false → pos 0 ≤ℤ nanoseconds secs)
      → pos 0 ≤ℤ from_header p d
  unfolding from_header
  from_header-nonneg none none h = omega arith
  from_header-nonneg none (some d) h = ground arith
  from_header-nonneg (some secs) d h = ground (arith, h secs)

  -- The wait read from a Retry-After header is never negative, if the conversion of a float that
  -- is not at most zero does not give a negative duration.
  pub parse_retry_after-nonneg :
      (v : String)
      → ((secs : Float) → at_most_zero secs ≡ false → pos 0 ≤ℤ nanoseconds secs)
      → pos 0 ≤ℤ parse_retry_after v
  unfolding parse_retry_after
  parse_retry_after-nonneg v h =
      ground (arith, from_header-nonneg (parse_float (trim_space v)) (until_date (trim_space v)) h)
