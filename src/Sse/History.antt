-- ===== src/Sse/History.antt =====
-- What a reader has given from one of its states to another.
use mathlib.Core.Path.{subst}
use skyl.Prelude.{◌≡◌, true, Bool, false, ◌&&◌, ◌||◌}
use skyl.Sse.{Event, Reader, next}

-- `Next` has brought the reader from `r` to a state behind it, and one of the events that it gave is
-- a signal, or none is.
pub data Given (is_signal : Event → Bool) (r : Reader) : Reader → Bool → Type 0 where
  nothing : Given is_signal r r false
  further :
      (q : Reader) (b : Bool)
      → Given is_signal r q b
      → Given is_signal r (next q).1 (b || ((next q).0 && is_signal (next q).1.event))

pub Given-true :
    (is_signal : Event → Bool) (r q : Reader) (b : Bool)
    → b ≡ true
    → Given is_signal r q b
    → Given is_signal r q true
Given-true is_signal r q b e g = subst (λ x. Given is_signal r q x) e g
