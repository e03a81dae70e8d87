-- ===== src/Retry/Decision.antt =====
-- What `shouldRetry` decides for the errors that adapters build.
use skyl.Prelude.{ℕ, ◌≤◌, String, ◌≡◌, refl, Bool, true, false, ◌∙◌, some, arith, Bytes}
use skyl.Errors.{
  GoError, nil, sentinel, deadline_exceeded, wrapped, Error, as_go_error, Sentinel, kind_of, is,
  is_nil, has_certificate, as_provider_error, retryable, classify_status, new_error,
  context_canceled, context_deadline, with_cause,
}
use skyl.Errors.Status.{transient, retryable-classify_status}
use skyl.Retry.{should_retry, retry_by_class}

-- Wrapping an error with `%w` never changes whether it is retried.
pub should_retry-wrapped :
    (m : String) (e : GoError) → is_nil e ≡ false → should_retry (wrapped m e) ≡ should_retry e
unfolding should_retry as_provider_error
should_retry-wrapped m e h = rw h

classify_status-is :
    (status : ℕ)
    → (is (classify_status status) context_canceled ≡ false)
      × (is (classify_status status) context_deadline ≡ false)
      × (has_certificate (classify_status status) ≡ false)
unfolding is classify_status has_certificate
classify_status-is status = ground arith

-- a provider error with no cause whose kind is no context and no certificate error
should_retry-retryable :
    (e : Error)
    → e.cause ≡ nil
    → is e.kind context_canceled ≡ false
    → is e.kind context_deadline ≡ false
    → has_certificate e.kind ≡ false
    → should_retry (as_go_error e) ≡ retryable e
unfolding should_retry retry_by_class as_provider_error
should_retry-retryable e c x y z = rw (x, y, z, c)

-- An error built from a reply with an HTTP error status is retried exactly if the status is 408,
-- 409, 429 or at least 500.
pub should_retry-classify_status :
    (name : String) (status : ℕ) (message : String) (body : Bytes)
    → 400 ≤ status
    → should_retry (as_go_error (new_error name status (classify_status status) message body))
      ≡ transient status
unfolding new_error
should_retry-classify_status name status message body h =
    let (x, y, z) = classify_status-is status in
    should_retry-retryable (new_error name status (classify_status status) message body) refl x y z
    ∙ retryable-classify_status name status message body h

-- The kinds that a second attempt cannot mend.
abbrev pub permanent : Sentinel → Bool
permanent Sentinel.rate_limit = false
permanent Sentinel.server = false
permanent _ = true

permanent-is :
    (s : Sentinel)
    → permanent s ≡ true
    → (is (sentinel s) (kind_of Sentinel.rate_limit) ≡ false)
      × (is (sentinel s) (kind_of Sentinel.server) ≡ false)
unfolding is
permanent-is Sentinel.auth h = (refl, refl)
permanent-is _ h = ground arith

retryable-permanent :
    (e : Error) (s : Sentinel) → e.kind ≡ sentinel s → permanent s ≡ true → retryable e ≡ false
unfolding retryable is_nil
retryable-permanent e s k p = rw (k, (permanent-is s p).0, (permanent-is s p).1)

-- Whatever wraps it and whatever caused it, a provider error of a permanent kind is not retried.
pub should_retry-permanent :
    (err : GoError) (s : Sentinel) {e : Error}
    → as_provider_error err ≡ some e
    → e.kind ≡ sentinel s
    → permanent s ≡ true
    → should_retry err ≡ false
unfolding should_retry retry_by_class
should_retry-permanent err s {e} found k p = ground (arith, retryable-permanent e s k p)

-- A transport failure caused by a passed deadline is not retried, also where the deadline is that of
-- the one attempt and the caller's context is still live.
pub should_retry_deadline :
    (e : Error) (m : String)
    → (should_retry (as_go_error (with_cause e deadline_exceeded)) ≡ false)
      × (should_retry (wrapped m (as_go_error (with_cause e deadline_exceeded))) ≡ false)
unfolding should_retry with_cause
should_retry_deadline e m = ground arith

-- A sentinel that no provider error carries is retried, whatever it is and whatever wraps it: also
-- ErrAuth, ErrBadRequest and ErrRefusal.
pub should_retry_bare :
    (s : Sentinel) (m : String)
    → (should_retry (sentinel s) ≡ true) × (should_retry (wrapped m (sentinel s)) ≡ true)
unfolding should_retry retry_by_class as_provider_error
should_retry_bare Sentinel.auth m = (refl, refl)
should_retry_bare _ m = (refl, refl)
