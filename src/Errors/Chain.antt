-- ===== src/Errors/Chain.antt =====
-- How `Error.Unwrap`, `errors.Is` and `errors.As` fit together on error chains.
use skyl.Prelude.{◌≡◌, refl, true, false, ◌||◌, some, arith, any}
use skyl.Errors.{
  GoError, nil, wrapped, provider, Error, as_go_error, Target, Sentinel, sentinel_eq, is, is_nil,
  unwrap, with_cause, as_provider_error,
}

pub is_nil-is : (e : GoError) (t : Target) → is_nil e ≡ true → is e t ≡ false
unfolding is_nil is
is_nil-is nil t h = refl
is_nil-is _ t h = cc

pub is-ne-nil : (e : GoError) (t : Target) → is e t ≡ true → is_nil e ≡ false
unfolding is_nil is
is-ne-nil nil t h = cc
is-ne-nil _ t h = refl

-- `errors.Is` finds a target in a provider error exactly when it finds it in one of the errors
-- that `Unwrap` lists, whichever of Kind and cause are set.
pub is-unwrap : (e : Error) (t : Target) → is (as_go_error e) t ≡ any (λ x. is x t) (unwrap e)
unfolding is unwrap
is-unwrap e t = ground (arith, is_nil-is e.kind t, is_nil-is e.cause t)

-- Attaching a cause keeps every target that the error matched, adds every target that the cause
-- matches, and adds nothing else if the error had no cause before.
pub is-with_cause :
    (e : Error) (err : GoError) (t : Target)
    → e.cause ≡ nil
    → is (as_go_error (with_cause e err)) t ≡ (is (as_go_error e) t || is err t)
unfolding is with_cause
is-with_cause e err t h = ground (arith, is_nil-is e.cause t (unfold is_nil in rw h))

pub sentinel_eq_refl : (s : Sentinel) → sentinel_eq s s ≡ true
unfolding sentinel_eq
sentinel_eq_refl Sentinel.auth = refl
sentinel_eq_refl _ = refl

-- The first provider error of a chain matches no target that the whole chain does not match.
pub is-as_provider_error :
    (err : GoError) (t : Target) {e : Error}
    → as_provider_error err ≡ some e
    → is err t ≡ is (as_go_error e) t
unfolding is as_provider_error
is-as_provider_error (wrapped m err) t h = is-as_provider_error err t h
is-as_provider_error (provider p s m k r b c) t h = ground arith
is-as_provider_error _ t h = cc
