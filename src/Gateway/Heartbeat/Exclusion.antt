-- ===== src/Gateway/Heartbeat/Exclusion.antt =====
-- What every order of the handler's and the heartbeat's moves keeps: who holds the lock, who has
-- returned, and that someone is able to move.
use skyl.Prelude.{
  ℤ, List, ◌≡◌, refl, Bool, true, false, not, ◌&&◌, ◌||◌, [], ◌∷◌, Option, none, some, Bool-cases,
  inl, inr, Bytes, arith, pos, leb_ℤ,
}
use mathlib.Core.Path.{subst}
use skyl.Gateway.Heartbeat.{
  Loop, relaying, leaving, waiting, returned, locking, writing, Beat, idle, queued, exited, beating,
  Session, when, is_exited, take_frame, on_loop, on_beat, Move, handler, heartbeat, hang_up, fire,
  start_heartbeat, Reaches, start, later,
}

abbrev pub loop_holds : Loop → Bool
loop_holds (writing bs) = true
loop_holds l = false

abbrev pub beat_holds : Beat → Bool
beat_holds (beating bs) = true
beat_holds b = false

abbrev pub is_past_stop : Loop → Bool
is_past_stop waiting = true
is_past_stop returned = true
is_past_stop l = false

abbrev pub is_returned : Loop → Bool
is_returned returned = true
is_returned l = false

-- The lock is held exactly while one of the two writes; `done` is closed before the handler waits;
-- and the goroutine is gone when the handler returns.
abbrev pub exclusive : Loop → Beat → Bool → Bool → Bool
exclusive l b locked stopped =
    (not locked || loop_holds l || beat_holds b)
    && (not (loop_holds l) || locked)
    && (not (beat_holds b) || locked)
    && (not (loop_holds l) || not (beat_holds b))
    && (not (is_past_stop l) || stopped)
    && (not (is_returned l) || is_exited b)

abbrev pub IsExclusive : Session → Type 0
IsExclusive s = exclusive s.loop s.beat s.locked s.stopped ≡ true

-- What a property says of a move that may not be possible.
abbrev pub Then : (Session → Type 0) → Option Session → Type 0
Then P none = Unit
Then P (some t) = P t

pub when-Then :
    (P : Session → Type 0) (b : Bool) (s : Session) → (b ≡ true → P s) → Then P (when b s)
when-Then P true s h = h refl
when-Then P false s h = tt

-- What the first session has and every move keeps, every session has that is reached.
pub Reaches_induction :
    (P : Session → Type 0) (s t : Session)
    → P s
    → ((m : Move) (u : Session) → P u → Then P (fire m u))
    → Reaches s t
    → P t
Reaches_induction P s _ h keep start = h
Reaches_induction P s _ h keep (later t u m r e) =
    subst (Then P) e (keep m t (Reaches_induction P s t h keep r))

take_frame-IsExclusive :
    (frames : List Bytes) (s : Session)
    → exclusive relaying s.beat s.locked s.stopped ≡ true
    → IsExclusive (take_frame frames s)
unfolding take_frame
take_frame-IsExclusive [] s h = h
take_frame-IsExclusive (json ∷ more) s h = h

on_loop-IsExclusive :
    (ok : Bool) (l : Loop) (s : Session)
    → exclusive l s.beat s.locked s.stopped ≡ true
    → Then IsExclusive (on_loop ok l s)
unfolding on_loop
on_loop-IsExclusive ok relaying s h = take_frame-IsExclusive s.coming s h
on_loop-IsExclusive ok (locking json) s h =
    when-Then IsExclusive (not s.locked) _ (λ free. (ground arith))
on_loop-IsExclusive ok (writing []) s h = ground arith
on_loop-IsExclusive true (writing (b ∷ bs)) s h = when-Then IsExclusive (not s.broken) _ (λ o. h)
on_loop-IsExclusive false (writing (b ∷ bs)) s h = ground arith
on_loop-IsExclusive ok leaving s h = ground arith
on_loop-IsExclusive ok waiting s h =
    when-Then IsExclusive (is_exited s.beat) _ (λ gone. (ground arith))
on_loop-IsExclusive ok returned s h = tt

on_beat-IsExclusive :
    (ok : Bool) (b : Beat) (s : Session)
    → exclusive s.loop b s.locked s.stopped ≡ true
    → Then IsExclusive (on_beat ok b s)
unfolding on_beat
on_beat-IsExclusive true idle s h = h
on_beat-IsExclusive false idle s h =
    when-Then IsExclusive (s.stopped || s.cancelled) _ (λ o. (ground arith))
on_beat-IsExclusive ok queued s h = when-Then IsExclusive (not s.locked) _ (λ free. (ground arith))
on_beat-IsExclusive ok (beating []) s h = ground arith
on_beat-IsExclusive true (beating (b ∷ bs)) s h = when-Then IsExclusive (not s.broken) _ (λ o. h)
on_beat-IsExclusive false (beating (b ∷ bs)) s h = ground arith
on_beat-IsExclusive ok exited s h = tt

pub fire-IsExclusive : (m : Move) (s : Session) → IsExclusive s → Then IsExclusive (fire m s)
unfolding fire
fire-IsExclusive (handler ok) s h = on_loop-IsExclusive ok s.loop s h
fire-IsExclusive (heartbeat ok) s h = on_beat-IsExclusive ok s.beat s h
fire-IsExclusive hang_up s h = h

pub start-IsExclusive :
    (interval : ℤ) (frames : List Bytes) → IsExclusive (start_heartbeat interval frames)
unfolding start_heartbeat
start-IsExclusive interval frames = elim (Bool-cases (leb_ℤ interval (pos 0))) [
  | inl e ↦ rw e refl
  | inr e ↦ rw e refl
]

pub Reaches-IsExclusive :
    (interval : ℤ) (frames : List Bytes) (s : Session)
    → Reaches (start_heartbeat interval frames) s
    → IsExclusive s
Reaches-IsExclusive interval frames s r =
    Reaches_induction IsExclusive (start_heartbeat interval frames) s
      (start-IsExclusive interval frames) fire-IsExclusive r

on_loop-returned :
    (ok : Bool) (l : Loop) (s : Session) → is_returned l ≡ true → on_loop ok l s ≡ none
unfolding on_loop
on_loop-returned ok returned s h = refl
on_loop-returned ok relaying s h = absurd (cc h)
on_loop-returned ok leaving s h = absurd (cc h)
on_loop-returned ok waiting s h = absurd (cc h)
on_loop-returned ok (locking json) s h = absurd (cc h)
on_loop-returned ok (writing bs) s h = absurd (cc h)

on_beat-exited : (ok : Bool) (b : Beat) (s : Session) → is_exited b ≡ true → on_beat ok b s ≡ none
unfolding on_beat
on_beat-exited ok exited s h = refl
on_beat-exited ok idle s h = absurd (cc h)
on_beat-exited ok queued s h = absurd (cc h)
on_beat-exited ok (beating bs) s h = absurd (cc h)

-- In every order of moves: when the handler has returned, neither it nor the heartbeat is able to
-- move, so that nothing is written to the response from then on.
pub fire-returned :
    (interval : ℤ) (frames : List Bytes) (s : Session) (ok : Bool)
    → Reaches (start_heartbeat interval frames) s
    → is_returned s.loop ≡ true
    → (fire (handler ok) s ≡ none) × (fire (heartbeat ok) s ≡ none)
unfolding fire
fire-returned interval frames s ok r h =
    let inv = Reaches-IsExclusive interval frames s r in
    (on_loop-returned ok s.loop s h, on_beat-exited ok s.beat s (ground arith))
