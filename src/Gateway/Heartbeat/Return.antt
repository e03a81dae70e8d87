-- ===== src/Gateway/Heartbeat/Return.antt =====
-- The handler of a stream is never stuck, neither at the lock nor on the end of the heartbeat.
use skyl.Prelude.{
  ℤ, List, ◌≡◌, refl, ap, sym, ◌∙◌, Bool, true, false, not, ◌||◌, [], ◌∷◌, Bytes, arith, some,
  Bool-cases, inl, inr,
}
use skyl.Gateway.Heartbeat.{
  data_frame, keep_alive, frame_bytes, Loop, relaying, leaving, waiting, returned, locking, writing,
  Beat, idle, queued, exited, beating, Session, take_frame, on_loop, on_beat, Move, handler,
  heartbeat, fire, when, is_exited, start_heartbeat, Reaches, start, later,
}
use skyl.Gateway.Heartbeat.Exclusion.{
  beat_holds, is_past_stop, exclusive, is_returned, Reaches-IsExclusive,
}

-- Some order of moves brings the handler to its return, and no write fails in it that need not.
pub record Quits (s : Session) : Type 0 where
  pub last : Session
  pub path : Reaches s last
  pub back : is_returned last.loop ≡ true
  pub whole : last.broken ≡ s.broken

prepend : (m : Move) (s t u : Session) → fire m s ≡ some t → Reaches t u → Reaches s u
prepend m s t _ e start = later s t m start e
prepend m s t _ e (later u v n r f) = later u v n (prepend m s t u e r) f

by_move : (m : Move) (s t : Session) → fire m s ≡ some t → t.broken ≡ s.broken → Quits t → Quits s
by_move m s t e same q = record {
  last = q.last;
  path = prepend m s t q.last e q.path;
  back = q.back;
  whole = q.whole ∙ same;
}

when-true : (b : Bool) (s : Session) → b ≡ true → when b s ≡ some s
when-true true s h = refl
when-true false s h = absurd (cc h)

-- A move of the heartbeat, or of the handler, which stands where it is said to stand.
by_beat :
    (ok : Bool) (b : Beat) (s t : Session)
    → s.beat ≡ b
    → on_beat ok b s ≡ some t
    → t.broken ≡ s.broken
    → Quits t
    → Quits s
unfolding fire
by_beat ok b s t at e = by_move (heartbeat ok) s t (ap (λ x. on_beat ok x s) at ∙ e)

by_loop :
    (ok : Bool) (l : Loop) (s t : Session)
    → s.loop ≡ l
    → on_loop ok l s ≡ some t
    → t.broken ≡ s.broken
    → Quits t
    → Quits s
unfolding fire
by_loop ok l s t at e = by_move (handler ok) s t (ap (λ x. on_loop ok x s) at ∙ e)

-- The heartbeat gives the lock back: it ends its frame, or its write fails on a broken connection.
give_back :
    (bs : Bytes) (s : Session)
    → s.beat ≡ beating bs
    → ((t : Session)
        → t.loop ≡ s.loop
        → t.coming ≡ s.coming
        → t.stopped ≡ s.stopped
        → t.locked ≡ false
        → beat_holds t.beat ≡ false
        → t.broken ≡ s.broken
        → Quits t)
    → Quits s
unfolding on_beat
give_back [] s at q = by_beat true (beating []) s _ at refl refl (q _ refl refl refl refl refl refl)
give_back (c ∷ bs) s at q = elim (Bool-cases s.broken) [
  | inl broken ↦
      by_beat false (beating (c ∷ bs)) s _ at refl (sym broken)
        (q _ refl refl refl refl refl (sym broken))
  | inr ok ↦
      by_beat true (beating (c ∷ bs)) s _ at (when-true (not s.broken) _ (ground arith)) refl
        (give_back bs _ refl (λ t l c s f h b. q t l c s f h b))
]

-- The handler waits at `<-exited`, with `done` closed.
exited-Quits : (s : Session) → s.loop ≡ waiting → s.beat ≡ exited → Quits s
unfolding on_loop
exited-Quits s at gone =
    by_loop true waiting s _ at (when-true (is_exited s.beat) _ (ap is_exited gone)) refl
      (record { last = _; path = start; back = refl; whole = refl })

idle-Quits : (s : Session) → s.loop ≡ waiting → s.stopped ≡ true → s.beat ≡ idle → Quits s
unfolding on_beat
idle-Quits s at stopped here =
    by_beat false idle s _ here (when-true (s.stopped || s.cancelled) _ (ground arith)) refl
      (exited-Quits _ at refl)

-- The heartbeat has found the lock free and holds it.
beating-Quits :
    (bs : Bytes) (s : Session) → s.loop ≡ waiting → s.stopped ≡ true → s.beat ≡ beating bs → Quits s
unfolding on_beat
beating-Quits [] s at stopped here =
    by_beat true (beating []) s _ here refl refl (idle-Quits _ at stopped refl)
beating-Quits (c ∷ bs) s at stopped here = elim (Bool-cases s.broken) [
  | inl broken ↦
      by_beat false (beating (c ∷ bs)) s _ here refl (sym broken) (exited-Quits _ at refl)
  | inr ok ↦
      by_beat true (beating (c ∷ bs)) s _ here (when-true (not s.broken) _ (ground arith)) refl
        (beating-Quits bs _ at stopped refl)
]

waiting-Quits :
    (b : Beat) (s : Session)
    → exclusive waiting b s.locked s.stopped ≡ true
    → s.loop ≡ waiting
    → s.beat ≡ b
    → Quits s
unfolding on_beat
waiting-Quits idle s h at here = idle-Quits s at (ground arith) here
waiting-Quits exited s h at here = exited-Quits s at here
waiting-Quits (beating bs) s h at here = beating-Quits bs s at (ground arith) here
waiting-Quits queued s h at here =
    by_beat true queued s _ here (when-true (not s.locked) _ (ground arith)) refl
      (beating-Quits (frame_bytes keep_alive) _ at (ground arith) refl)

leaving-Quits :
    (s : Session) → exclusive leaving s.beat s.locked s.stopped ≡ true → s.loop ≡ leaving → Quits s
unfolding on_loop
leaving-Quits s h at =
    by_loop true leaving s _ at refl refl (waiting-Quits s.beat _ (ground arith) refl refl)

-- At `stream.Next`, with the frames that are still to come.
Continues : List Bytes → Type 0
Continues more =
    (t : Session)
    → t.coming ≡ more
    → t.loop ≡ relaying
    → exclusive relaying t.beat t.locked t.stopped ≡ true
    → Quits t

writing-Quits :
    (more : List Bytes) (bs : Bytes) (s : Session)
    → Continues more
    → s.coming ≡ more
    → s.loop ≡ writing bs
    → exclusive (writing bs) s.beat s.locked s.stopped ≡ true
    → Quits s
unfolding on_loop Continues
writing-Quits more [] s k left at h =
    by_loop true (writing []) s _ at refl refl (k _ left refl (ground arith))
writing-Quits more (c ∷ bs) s k left at h = elim (Bool-cases s.broken) [
  | inl broken ↦
      by_loop false (writing (c ∷ bs)) s _ at refl (sym broken)
        (leaving-Quits _ (ground arith) refl)
  | inr ok ↦
      by_loop true (writing (c ∷ bs)) s _ at (when-true (not s.broken) _ (ground arith)) refl
        (writing-Quits more bs _ k left refl h)
]

lock_free-Quits :
    (more : List Bytes) (json : Bytes) (s : Session)
    → Continues more
    → s.coming ≡ more
    → s.loop ≡ locking json
    → s.locked ≡ false
    → beat_holds s.beat ≡ false
    → (not (is_past_stop (locking json)) || s.stopped) ≡ true
    → Quits s
unfolding on_loop
lock_free-Quits more json s k left at free away h =
    by_loop true (locking json) s _ at (when-true (not s.locked) _ (ground arith)) refl
      (writing-Quits more (frame_bytes (data_frame json)) _ k left refl (ground arith))

locking-Quits :
    (b : Beat) (more : List Bytes) (json : Bytes) (s : Session)
    → Continues more
    → s.coming ≡ more
    → s.loop ≡ locking json
    → s.beat ≡ b
    → exclusive (locking json) b s.locked s.stopped ≡ true
    → Quits s
locking-Quits (beating bs) more json s k left at here h =
    give_back bs s here
      (λ t l c u free away same. lock_free-Quits more json t k (c ∙ left) (l ∙ at) free away refl)
locking-Quits idle more json s k left at here h =
    lock_free-Quits more json s k left at (ground arith) (ap beat_holds here) refl
locking-Quits queued more json s k left at here h =
    lock_free-Quits more json s k left at (ground arith) (ap beat_holds here) refl
locking-Quits exited more json s k left at here h =
    lock_free-Quits more json s k left at (ground arith) (ap beat_holds here) refl

continues : (frames : List Bytes) → Continues frames
unfolding Continues on_loop take_frame
continues [] t left at h =
    by_loop true relaying t _ at (ap (λ x. some (take_frame x t)) left) refl
      (leaving-Quits _ (ground arith) refl)
continues (json ∷ more) t left at h =
    by_loop true relaying t _ at (ap (λ x. some (take_frame x t)) left) refl
      (locking-Quits t.beat more json _ (continues more) refl refl refl h)

loop-Quits :
    (l : Loop) (s : Session) → s.loop ≡ l → exclusive l s.beat s.locked s.stopped ≡ true → Quits s
unfolding Continues
loop-Quits relaying s at h = continues s.coming s refl at h
loop-Quits leaving s at h = leaving-Quits s h at
loop-Quits waiting s at h = waiting-Quits s.beat s h at refl
loop-Quits returned s at h = record {
  last = s;
  path = start;
  back = ap is_returned at;
  whole = refl;
}
loop-Quits (locking json) s at h =
    locking-Quits s.beat s.coming json s (continues s.coming) refl at refl h
loop-Quits (writing bs) s at h = writing-Quits s.coming bs s (continues s.coming) refl at h

-- Whatever moves have been made, some further moves bring the handler to its return: it can stop
-- neither at the lock nor in waiting for the heartbeat, and no write has to fail for it to go on.
pub Reaches-Quits :
    (interval : ℤ) (frames : List Bytes) (s : Session)
    → Reaches (start_heartbeat interval frames) s
    → Quits s
Reaches-Quits interval frames s r =
    loop-Quits s.loop s refl (Reaches-IsExclusive interval frames s r)
