-- ===== src/Result.antt =====
-- A Go result `(value, error)` of which one is nil, and what the code does with it.
use skyl.Prelude.{◌≡◌, ◌⊎◌, inl, inr, refl}
use skyl.Errors.{GoError}

pub data Result (A : Type 0) : Type 0 where
  ok : A → Result A
  err : GoError → Result A

module _ {A B : Type 0} where
  -- `if err != nil { return nil, err }` in front of the rest.
  abbrev pub and_then : Result A → (A → Result B) → Result B
  and_then (ok a) rest = rest a
  and_then (err e) rest = err e

  abbrev pub map_ok : (A → B) → Result A → Result B
  map_ok f (ok a) = ok (f a)
  map_ok f (err e) = err e

pub Result-cases :
    {A : Type 0} (r : Result A) → ((a : A) × (r ≡ ok a)) ⊎ ((e : GoError) × (r ≡ err e))
Result-cases (ok a) = inl (a, refl)
Result-cases (err e) = inr (e, refl)
