-- ===== src/Errors.antt =====
-- errors.go: the sentinels, the provider error and its classification, and the parts of Go's
-- `errors` package that the code relies on.
pub mod Status
pub mod Chain
pub mod RetryAfter
pub mod Tests
use skyl.Prelude.{
  ℕ, ◌+◌, ◌≤◌, String, ◌≡◌, Bool, true, false, ◌||◌, not, List, [], ◌∷◌, ◌++◌, Option, none, some,
  ltb, leb, ◌==◌, if◌then◌else◌, is_empty, ◌<>◌, concat, Bytes, length, take, codes, ℤ, pos,
}

pub data Sentinel : Type 0 where
  auth rate_limit not_found bad_request server unsupported refusal stream_closed : Sentinel

-- The certificate failures of crypto/tls and crypto/x509 that the retry logic looks for.
pub data CertFailure : Type 0 where
  verification hostname unknown_authority : CertFailure

-- Go's `error`. `opaque` is any error value that wraps nothing and that the code never compares;
-- `wrapped` is `fmt.Errorf` with one `%w`; `provider` is the `*Error` of errors.go, with its fields
-- Provider, StatusCode, Message, Kind, RetryAfter, Body and cause in this order.
pub data GoError : Type 0 where
  nil : GoError
  sentinel : Sentinel → GoError
  canceled : GoError
  deadline_exceeded : GoError
  certificate : CertFailure → GoError
  opaque : String → GoError
  wrapped : String → GoError → GoError
  provider : String → ℕ → String → GoError → ℤ → Bytes → GoError → GoError

pub record Error : Type 0 where
  pub provider_name : String
  pub status_code : ℕ
  pub message : String
  pub kind : GoError
  pub retry_after : ℤ
  pub body : Bytes
  pub cause : GoError

-- An `*Error` used as an `error`.
abbrev pub as_go_error : Error → GoError
as_go_error e = provider e.provider_name e.status_code e.message e.kind e.retry_after e.body e.cause

unfoldable pub is_nil : GoError → Bool
is_nil nil = true
is_nil _ = false

-- The values that the code passes to `errors.Is` as its second argument.
pub data Target : Type 0 where
  kind_of : Sentinel → Target
  context_canceled context_deadline : Target

unfoldable pub sentinel_eq : Sentinel → Sentinel → Bool
sentinel_eq auth auth = true
sentinel_eq rate_limit rate_limit = true
sentinel_eq not_found not_found = true
sentinel_eq bad_request bad_request = true
sentinel_eq server server = true
sentinel_eq unsupported unsupported = true
sentinel_eq refusal refusal = true
sentinel_eq stream_closed stream_closed = true
sentinel_eq _ _ = false

-- `err == target` at the root of the chain.
unfoldable pub same_value : GoError → Target → Bool
unfolding sentinel_eq
same_value (sentinel s) (kind_of t) = sentinel_eq s t
same_value canceled context_canceled = true
same_value deadline_exceeded context_deadline = true
same_value _ _ = false

-- `errors.Is`: the value itself, then what it unwraps to, depth first.
unfoldable pub is : GoError → Target → Bool
unfolding same_value
is (wrapped m e) t = is e t
is (provider p s m k r b c) t = is k t || is c t
is e t = same_value e t

-- `errors.As` with a `**Error` target: the first provider error of the chain.
unfoldable pub as_provider_error : GoError → Option Error
as_provider_error (wrapped m e) = as_provider_error e
as_provider_error (provider p s m k r b c) = some (record {
  provider_name = p;
  status_code = s;
  message = m;
  kind = k;
  retry_after = r;
  body = b;
  cause = c;
})
as_provider_error _ = none

-- `errors.As` with the three certificate targets of retry.go, one after the other.
unfoldable pub has_certificate : GoError → Bool
has_certificate (certificate f) = true
has_certificate (wrapped m e) = has_certificate e
has_certificate (provider p s m k r b c) = has_certificate k || has_certificate c
has_certificate _ = false

unfoldable pub with_cause : Error → GoError → Error
with_cause e err = record e { cause = err }

unfoldable pub unwrap : Error → List GoError
unfolding is_nil
unwrap e =
    if not (is_nil e.kind)
    then (if not (is_nil e.cause) then e.kind ∷ e.cause ∷ [] else e.kind ∷ [])
    else if not (is_nil e.cause)
    then e.cause ∷ []
    else []

unfoldable pub retryable : Error → Bool
unfolding is is_nil
retryable e =
    if is e.kind (kind_of rate_limit) || is e.kind (kind_of server)
    then true
    else if is_nil e.kind
    then e.status_code == 0
    else false

abbrev pub max_body_in_error : ℕ
max_body_in_error = 2048

abbrev pub truncated_mark : Bytes
truncated_mark = 226 ∷ 128 ∷ 166 ∷ codes " (truncated)"

-- The body that `NewError` stores, for a bound of `limit` bytes.
unfoldable pub kept_body : ℕ → Bytes → Bytes
kept_body limit body =
    if ltb 0 (length body)
    then (if ltb limit (length body) then take limit body ++ truncated_mark else body)
    else []

unfoldable pub new_error : String → ℕ → GoError → String → Bytes → Error
new_error name status kind message body = record {
  provider_name = name;
  status_code = status;
  message = message;
  kind = kind;
  retry_after = pos 0;
  body = kept_body max_body_in_error body;
  cause = nil;
}

unfoldable pub unsupportedf : String → String → GoError
unsupportedf name text = as_go_error (record {
  provider_name = name;
  status_code = 0;
  message = text;
  kind = sentinel unsupported;
  retry_after = pos 0;
  body = [];
  cause = nil;
})

unfoldable pub classify_status : ℕ → GoError
classify_status status =
    if status == 401 || status == 403 || status == 407
    then sentinel auth
    else if status == 404
    then sentinel not_found
    else if status == 429
    then sentinel rate_limit
    else if status == 408 || status == 409
    then sentinel server
    else if leb 500 status
    then sentinel server
    else if leb 400 status
    then sentinel bad_request
    else nil
