-- ===== src/Sse/Pump.antt =====
-- The loop with which a decoder reads events until one of them makes it return: `for reader.Next()`.
use skyl.Prelude.{ℕ, zero, suc, ◌<◌, ◌≡◌, refl, Bool, true, false, Bytes, arith}
use skyl.Sse.{Reader, next}
use skyl.Sse.Supply.{supply, next-supply}

-- What one event does to the loop: another round, or a return.
pub data Progress (S : Type 0) : Type 0 where
  go_on : S → Progress S
  return : Bool → S → Progress S

-- A decoder with states `S`: its reader, what the body of the loop does with the data of an event,
-- and what follows the loop.
pub record Machine (S : Type 0) : Type 0 where
  pub reader : S → Reader
  pub advance : Reader → S → S
  pub on_frame : Bytes → S → Progress S
  pub at_end : S → Bool × S

module _ {S : Type 0} where
  abbrev pub proceed : Progress S → (S → Bool × S) → Bool × S
  proceed (go_on s) loop = loop s
  proceed (return more s) loop = (more, s)

  -- A round that goes on leaves the reader alone.
  abbrev pub KeepsReader : Machine S → Reader → Progress S → Type 0
  KeepsReader m r (go_on s) = m.reader s ≡ r
  KeepsReader m r (return more s) = Unit

module _ {S : Type 0} (m : Machine S) where
  abbrev pub on_read : Bool → Reader → S → (S → Bool × S) → Bool × S
  on_read true r s loop = proceed (m.on_frame r.event.payload (m.advance r s)) loop
  on_read false r s loop = m.at_end (m.advance r s)

  -- The loop, on fuel for the events that are read.
  unfoldable pub pump : ℕ → S → Bool × S
  pump zero s = (false, s)
  pump (suc fuel) s = on_read (next (m.reader s)).0 (next (m.reader s)).1 s (pump fuel)

  unfoldable pub run : S → Bool × S
  unfolding pump
  run s = pump (suc (supply (m.reader s))) s

  module _
      (keeps : (frame : Bytes) (r : Reader) (s : S)
        → KeepsReader m r (m.on_frame frame (m.advance r s))) where
    proceed_agree :
        (r : Reader) (p : Progress S) (f g : S → Bool × S)
        → KeepsReader m r p
        → ((t : S) → m.reader t ≡ r → f t ≡ g t)
        → proceed p f ≡ proceed p g
    proceed_agree r (go_on t) f g k same = same t k
    proceed_agree r (return more t) f g k same = refl

    on_read_agree :
        (b : Bool) (r : Reader) (s : S) (f g : S → Bool × S)
        → (b ≡ true → (t : S) → m.reader t ≡ r → f t ≡ g t)
        → on_read b r s f ≡ on_read b r s g
    on_read_agree true r s f g same = proceed_agree r _ f g (keeps r.event.payload r s) (same refl)
    on_read_agree false r s f g same = refl

    -- Any two amounts of fuel beyond the reader's supply give the same result.
    pub pump_enough :
        (n k : ℕ) (s : S) → supply (m.reader s) < n → supply (m.reader s) < k → pump n s ≡ pump k s
    unfolding pump
    pump_enough zero k s hn hk = absurd (omega arith)
    pump_enough (suc n) zero s hn hk = absurd (omega arith)
    pump_enough (suc n) (suc k) s hn hk =
        on_read_agree (next (m.reader s)).0 (next (m.reader s)).1 s (pump n) (pump k) (λ more t e.
          let less = next-supply (m.reader s) more in
          pump_enough n k t (rw e (omega arith)) (rw e (omega arith)))

    -- The equation of the loop: read one event, and where it makes another round, do the same again.
    pub run_loop : (s : S) → run s ≡ on_read (next (m.reader s)).0 (next (m.reader s)).1 s run
    unfolding run pump
    run_loop s =
        on_read_agree (next (m.reader s)).0 (next (m.reader s)).1 s (pump (supply (m.reader s))) run
          (λ more t e.
            let less = next-supply (m.reader s) more in
            pump_enough (supply (m.reader s)) (suc (supply (m.reader t))) t (rw e less)
              (omega arith))

  -- What every event and the end of the input preserve holds behind the loop.
  module _ {ℓ} (P : S → Type ℓ) where
    abbrev pub After : Progress S → Type ℓ
    After (go_on s) = P s
    After (return more s) = P s

    proceed-After :
        (p : Progress S) (loop : S → Bool × S)
        → After p
        → ((s : S) → P s → P (loop s).1)
        → P (proceed p loop).1
    proceed-After (go_on s) loop h k = k s h
    proceed-After (return more s) loop h k = h

    module _
        (frame_keeps : (frame : Bytes) (r : Reader) (s : S)
          → P s
          → After (m.on_frame frame (m.advance r s)))
        (end_keeps : (r : Reader) (s : S) → P s → P (m.at_end (m.advance r s)).1) where
      on_read-After :
          (b : Bool) (r : Reader) (s : S) (loop : S → Bool × S)
          → P s
          → ((t : S) → P t → P (loop t).1)
          → P (on_read b r s loop).1
      on_read-After true r s loop h k = proceed-After _ loop (frame_keeps r.event.payload r s h) k
      on_read-After false r s loop h k = end_keeps r s h

      pub pump-After : (n : ℕ) (s : S) → P s → P (pump n s).1
      unfolding pump
      pump-After zero s h = h
      pump-After (suc n) s h =
          on_read-After (next (m.reader s)).0 (next (m.reader s)).1 s (pump n) h (pump-After n)
