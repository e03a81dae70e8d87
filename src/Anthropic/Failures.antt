-- ===== src/Anthropic/Failures.antt =====
-- The failures of the Anthropic adapter.
use skyl.Prelude.{◌≤◌, ◌≡◌, refl, false, [], Option, none, some, ℤ, pos, String}
use skyl.Errors.{
  GoError, Target, is, is_nil, new_error, retryable, as_provider_error, has_certificate, with_cause,
}
use skyl.Errors.Status.{transient}
use skyl.Errors.RetryAfter.{HeaderLibrary, parse_retry_after}
use skyl.Retry.{should_retry, retry_by_class, retry_after_from}
use skyl.Retry.Decision.{should_retry-classify_status}
use skyl.Anthropic.{Sdk, ApiError, provider_name}
use skyl.Anthropic.Reply.{wait_of, api_failure, dial_failure, translate_error}

-- The wait that a response asks for.
abbrev pub asked_wait : HeaderLibrary → Option String → ℤ
asked_wait hdr none = pos 0
asked_wait hdr (some header) = parse_retry_after hdr header

module _ {E : Type 0} (sdk : Sdk E) (hdr : HeaderLibrary) where
  api_failure_lem :
      (a : ApiError)
      → 400 ≤ a.status_code
      → (should_retry (api_failure sdk hdr a) ≡ transient a.status_code)
        × (retry_after_from (api_failure sdk hdr a) ≡ asked_wait hdr a.retry_after)
  unfolding api_failure wait_of should_retry retry_by_class as_provider_error retryable new_error is
      has_certificate retry_after_from
  api_failure_lem a h =
      by_wait a.retry_after
        (should_retry-classify_status provider_name a.status_code a.message [] h)
    where
      by_wait :
          (w : Option String)
          → should_retry (api_failure sdk hdr (record a { retry_after = none }))
            ≡ transient a.status_code
          → (should_retry (api_failure sdk hdr (record a { retry_after = w }))
              ≡ transient a.status_code)
            × (retry_after_from (api_failure sdk hdr (record a { retry_after = w }))
                ≡ asked_wait hdr w)
      by_wait none h = (h, refl)
      by_wait (some header) h = (h, refl)

  -- An error of the API with an error status (400 or more) is retried exactly if that is 408, 409, 429
  -- or at least 500, and carries the wait of its Retry-After header, or none without a response. Any
  -- other error matches after the translation what it matched before.
  pub translate_error_lem :
      (e : GoError)
      → is_nil e ≡ false
      → ((a : ApiError)
          → sdk.as_api_error e ≡ some a
          → 400 ≤ a.status_code
          → (should_retry (translate_error sdk hdr e) ≡ transient a.status_code)
            × (retry_after_from (translate_error sdk hdr e) ≡ asked_wait hdr a.retry_after))
        × (sdk.as_api_error e ≡ none → (t : Target) → is (translate_error sdk hdr e) t ≡ is e t)
  unfolding dial_failure is translate_error should_retry retry_after_from with_cause
  translate_error_lem e h = (
    λ a found bad. rw (h, translate_error) (rw found (api_failure_lem a bad)),
    λ lost t. rw (h, translate_error) (rw lost refl),
  )
