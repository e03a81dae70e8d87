-- ===== src/Gateway/Heartbeat.antt =====
-- gateway/server.go: `startHeartbeat` beside the loop of `handleChatStream`, which write to one
-- response under the mutex of the request. Either may move whenever it is able to.
pub mod Exclusion
pub mod Frames
pub mod Delivery
pub mod Return
pub mod Reading
pub mod Tests
use skyl.Prelude.{
  ◌≡◌, Bool, true, false, not, ◌&&◌, ◌||◌, List, [], ◌∷◌, ◌++◌, Option, none, some, Bytes, codes,
  if◌then◌else◌, ℤ, pos, leb_ℤ,
}

-- What is written under the lock at one time: an event, by its JSON, or the comment.
pub data Frame : Type 0 where
  data_frame : Bytes → Frame
  keep_alive : Frame

unfoldable pub frame_bytes : Frame → Bytes
frame_bytes (data_frame json) = codes "data: " ++ json ++ codes "\n\n"
frame_bytes keep_alive = codes ": keep-alive\n\n"

-- Where the handler stands: at `stream.Next`, at `writeMu.Lock` with a frame, in a write with what is
-- left of it, before `stopBeat`, at `<-exited`, or behind its return.
pub data Loop : Type 0 where
  relaying leaving waiting returned : Loop
  locking writing : Bytes → Loop

-- Where the goroutine stands: at its `select`, at `writeMu.Lock`, in a write, or behind its return.
pub data Beat : Type 0 where
  idle queued exited : Beat
  beating : Bytes → Beat

-- `coming` is what the handler has still to send, as JSON: the events of the stream up to the first
-- that is not encoded, at which the loop ends, and else the frame with its error. `stopped` is that `done` is closed, `cancelled` that the context is done, and `broken` that
-- a write has failed, behind which no other succeeds.
pub record Session : Type 0 where
  pub coming : List Bytes
  pub loop : Loop
  pub beat : Beat
  pub locked : Bool
  pub stopped : Bool
  pub cancelled : Bool
  pub broken : Bool
  pub sent : Bytes

abbrev pub when : Bool → Session → Option Session
when true s = some s
when false s = none

abbrev pub is_exited : Beat → Bool
is_exited exited = true
is_exited b = false

-- The loop of events: the next frame, or its end.
unfoldable pub take_frame : List Bytes → Session → Session
take_frame [] s = record s { loop = leaving }
take_frame (json ∷ more) s = record s { coming = more; loop = locking json }

-- One move of the handler; `succeeds` says whether the write does that it is in. A frame that is
-- written is flushed and the lock is given back; a write that fails gives it back and ends the loop.
unfoldable pub on_loop : Bool → Loop → Session → Option Session
unfolding take_frame frame_bytes
on_loop succeeds relaying s = some (take_frame s.coming s)
on_loop succeeds (locking json) s =
    when (not s.locked) (record s { loop = writing (frame_bytes (data_frame json)); locked = true })
on_loop succeeds (writing []) s = some (record s { loop = relaying; locked = false })
on_loop true (writing (b ∷ bs)) s =
    when (not s.broken) (record s { loop = writing bs; sent = s.sent ++ (b ∷ []) })
on_loop false (writing (b ∷ bs)) s =
    some (record s { loop = leaving; locked = false; broken = true })
on_loop succeeds leaving s = some (record s { loop = waiting; stopped = true })
on_loop succeeds waiting s = when (is_exited s.beat) (record s { loop = returned })
on_loop succeeds returned s = none

-- One move of the goroutine; at the `select`, `ticks` chooses the ticker.
unfoldable pub on_beat : Bool → Beat → Session → Option Session
unfolding frame_bytes
on_beat true idle s = some (record s { beat = queued })
on_beat false idle s = when (s.stopped || s.cancelled) (record s { beat = exited })
on_beat ticks queued s =
    when (not s.locked) (record s { beat = beating (frame_bytes keep_alive); locked = true })
on_beat ticks (beating []) s = some (record s { beat = idle; locked = false })
on_beat true (beating (b ∷ bs)) s =
    when (not s.broken) (record s { beat = beating bs; sent = s.sent ++ (b ∷ []) })
on_beat false (beating (b ∷ bs)) s =
    some (record s { beat = exited; locked = false; broken = true })
on_beat ticks exited s = none

-- Who moves: the handler, the goroutine, or the caller, who hangs up.
pub data Move : Type 0 where
  handler heartbeat : Bool → Move
  hang_up : Move

unfoldable pub fire : Move → Session → Option Session
unfolding on_loop on_beat
fire (handler ok) s = on_loop ok s.loop s
fire (heartbeat ok) s = on_beat ok s.beat s
fire hang_up s = some (record s { cancelled = true })

-- Behind `startHeartbeat`; an interval that is not positive starts no goroutine.
unfoldable pub start_heartbeat : ℤ → List Bytes → Session
start_heartbeat interval frames = record {
  coming = frames;
  loop = relaying;
  beat = if leb_ℤ interval (pos 0) then exited else idle;
  locked = false;
  stopped = false;
  cancelled = false;
  broken = false;
  sent = [];
}

-- The sessions that some order of moves brings about.
pub data Reaches (s : Session) : Session → Type 0 where
  start : Reaches s s
  later : (t u : Session) (m : Move) → Reaches s t → fire m t ≡ some u → Reaches s u
