-- ===== src/Errors/Status.antt =====
-- What the classification of an HTTP status decides, and the bound on a stored body.
use skyl.Prelude.{
  ℕ, ◌+◌, ◌≤◌, String, ◌≡◌, refl, Bool, ◌||◌, [], ◌∷◌, arith, leb, ◌==◌, Bytes, length, take,
  length-append,
}
use skyl.Errors.{
  GoError, retryable, classify_status, new_error, kept_body, max_body_in_error, truncated_mark,
}

-- The statuses that a client may try again: timeouts, conflicts, throttling and server failures.
abbrev pub transient : ℕ → Bool
transient status = status == 408 || status == 409 || status == 429 || leb 500 status

-- An error built from an HTTP reply with an error status (400 or more) is retryable exactly if the
-- status is 408, 409, 429 or at least 500, whatever the message and the body.
pub retryable-classify_status :
    (name : String) (status : ℕ) (message : String) (body : Bytes)
    → 400 ≤ status
    → retryable (new_error name status (classify_status status) message body) ≡ transient status
unfolding retryable classify_status new_error
retryable-classify_status name status message body h = ground arith

length-take-le : (n : ℕ) (xs : Bytes) → length (take n xs) ≤ n
length-take-le ℕ.zero xs = omega arith
length-take-le (ℕ.suc n) [] = omega arith
length-take-le (ℕ.suc n) (x ∷ xs) = omega (arith, length-take-le n xs)

kept_body_bounds :
    (limit : ℕ) (body : Bytes)
    → (length (kept_body limit body) ≤ limit + 15)
      × (length body ≤ limit → kept_body limit body ≡ body)
unfolding kept_body
kept_body_bounds limit [] = (omega arith, λ _. refl)
kept_body_bounds limit (b ∷ bs) =
    ground
      (arith, length-append (take limit (b ∷ bs)) truncated_mark, length-take-le limit (b ∷ bs))

-- A provider error keeps at most 2048 bytes of the body and a 15-byte mark, and keeps a body of at
-- most 2048 bytes unchanged.
pub new_error_body :
    (name : String) (status : ℕ) (kind : GoError) (message : String) (body : Bytes)
    → (length (new_error name status kind message body).body ≤ max_body_in_error + 15)
      × (length body ≤ max_body_in_error → (new_error name status kind message body).body ≡ body)
unfolding new_error
new_error_body name status kind message body = kept_body_bounds max_body_in_error body
