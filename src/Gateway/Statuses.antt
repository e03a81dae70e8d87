-- ===== src/Gateway/Statuses.antt =====
-- How a failure of a provider is answered.
use skyl.Prelude.{ℕ, ◌≤◌, String, ◌≡◌, ◌||◌, if◌then◌else◌, ◌==◌, leb, arith, Bytes}
use skyl.Errors.{as_go_error, new_error, classify_status, is, wrapped}
use skyl.Gateway.{upstream_status}

-- The answer of the gateway to a provider's status.
abbrev pub relayed : ℕ → ℕ
relayed n =
    if n == 404 || n == 429
    then n
    else if n == 401 || n == 403 || n == 407 || n == 408 || n == 409 || leb 500 n
    then 502
    else 400

-- An error status of a provider (400 or more), wrapped or not, is answered by the same status if it
-- is 404 or 429, by 502 if the gateway's own credential was refused or the provider failed, and else
-- by 400: a refused credential of the gateway never looks like a refused caller.
pub upstream_status-classify_status :
    (name : String) (n : ℕ) (message prefix : String) (body : Bytes)
    → 400 ≤ n
    → upstream_status
        (wrapped prefix (as_go_error (new_error name n (classify_status n) message body)))
      ≡ relayed n
unfolding upstream_status is new_error classify_status
upstream_status-classify_status name n message prefix body h = ground arith
