-- ===== src/Errors/Tests.antt =====
-- Tests of errors.go, and the theorems at concrete inputs.
use skyl.Prelude.{
  ◌++◌, ◌*◌, str_eq, if◌then◌else◌, ◌≡◌, refl, true, false, none, some, arith, codes, ℤ, pos,
  negsuc, ◌≤ℤ◌, leb_ℤ,
}
use skyl.Errors.{
  nil, deadline_exceeded, kind_of, context_deadline, wrapped, Error, as_go_error, is, retryable,
  new_error, classify_status, with_cause, unsupportedf, unsupported, kept_body, truncated_mark,
}
use skyl.Errors.RetryAfter.{HeaderLibrary, parse_retry_after}

abbrev throttled : Error
throttled = new_error "openai" 429 (classify_status 429) "slow down" (codes "{}")

abbrev timed_out : Error
timed_out =
    with_cause (new_error "openai" 0 nil "dial" (codes "")) (wrapped "dialing" deadline_exceeded)

throttled-retryable : retryable throttled ≡ true
unfolding retryable new_error classify_status
throttled-retryable = refl

unsupportedf_kind : is (unsupportedf "openai" "no images") (kind_of unsupported) ≡ true
unfolding is unsupportedf
unsupportedf_kind = refl

truncation : kept_body 2 (codes "abc") ≡ codes "ab" ++ truncated_mark
unfolding kept_body
truncation = refl

timed_out_is_deadline : is (as_go_error timed_out) context_deadline ≡ true
unfolding is with_cause new_error
timed_out_is_deadline = refl

abbrev seconds_to_nanoseconds : ℤ → ℤ
seconds_to_nanoseconds (pos n) = pos (n * 1000000000)
seconds_to_nanoseconds (negsuc n) = negsuc n

-- A header library that knows one number and one date, with whole seconds for floats.
abbrev whole_seconds : HeaderLibrary
whole_seconds = record {
  Float = ℤ;
  trim_space = λ s. s;
  parse_float = λ s. if str_eq s "2" then some (pos 2) else none;
  at_most_zero = λ x. leb_ℤ x (pos 0);
  nanoseconds = seconds_to_nanoseconds;
  until_date = λ s. if str_eq s "yesterday" then some (negsuc 4) else none;
}

two_seconds :
    (parse_retry_after whole_seconds "2" ≡ pos 2000000000)
    × (parse_retry_after whole_seconds "yesterday" ≡ pos 0)
unfolding parse_retry_after
two_seconds = (refl, refl)

seconds_nonneg : (x : ℤ) → leb_ℤ x (pos 0) ≡ false → pos 0 ≤ℤ seconds_to_nanoseconds x
seconds_nonneg (pos n) h = omega arith
seconds_nonneg (negsuc n) h = ground arith
