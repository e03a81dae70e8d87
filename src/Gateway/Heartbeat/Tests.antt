-- ===== src/Gateway/Heartbeat/Tests.antt =====
-- A stream with a heartbeat on a small input, and witnesses of its properties.
use skyl.Prelude.{
  ◌==◌, map, arith, ℕ, zero, suc, ◌≡◌, refl, true, false, List, [], ◌∷◌, Option, some, none, codes,
  pos,
}
use skyl.Errors.{GoError}
use skyl.Sse.{new_reader, max_event_bytes}
use skyl.Sse.Lines.{new_scanner, drop_cr}
use skyl.Sse.Fields.{trim_right_cr}
use skyl.Sse.Records.{data_line}
use skyl.Sse.Encoding.{Delivers}
use skyl.Gateway.Heartbeat.Reading.{any-All, IsJsonLine, unnamed, Delivers-start_heartbeat}
use skyl.Gateway.Heartbeat.{
  Session, Move, handler, heartbeat, fire, start_heartbeat, Reaches, start, later,
}
use skyl.Gateway.Heartbeat.Exclusion.{fire-returned}
use skyl.Gateway.Heartbeat.Return.{Quits, Reaches-Quits}

record Played (s : Session) : Type 0 where
  last : Session
  path : Reaches s last

move_on : (s t : Session) (m : Move) (o : Option Session) → Reaches s t → fire m t ≡ o → Played s
move_on s t m none r e = record { last = t; path = r }
move_on s t m (some u) r e = record { last = u; path = later t u m r e }

abbrev one_move : (s : Session) → Played s → Move → Played s
unfolding move_on
one_move s p m = move_on s p.last m (fire m p.last) p.path refl

-- The moves that are possible of a list, one by one.
abbrev play : (s : Session) → List Move → Played s → Played s
play s [] p = p
play s (m ∷ ms) p = play s ms (one_move s p m)

abbrev times : ℕ → Move → List Move → List Move
times zero m ms = ms
times (suc n) m ms = m ∷ times n m ms

abbrev one_event : Session
one_event = start_heartbeat (pos 15) (codes "{}" ∷ [])

-- The heartbeat takes the lock first, the handler waits for it, writes its event, and stops.
abbrev beat_first : Played one_event
beat_first =
    play one_event
      (times 2 (heartbeat true) (
        times 2 (handler true) (
          times 15 (heartbeat true)
            (times 15 (handler true) (heartbeat false ∷ handler true ∷ [])))))
      (record { last = one_event; path = start })

-- The handler waits for the heartbeat, which holds the lock.
abbrev held_up : Played one_event
held_up =
    play one_event (times 5 (heartbeat true) (times 2 (handler true) []))
      (record { last = one_event; path = start })

beat_first_sent : beat_first.last.sent ≡ codes ": keep-alive\n\ndata: {}\n\n"
unfolding fire start_heartbeat move_on
beat_first_sent = refl

fire-returned_example :
    (fire (handler true) beat_first.last ≡ none) × (fire (heartbeat true) beat_first.last ≡ none)
unfolding fire start_heartbeat move_on
fire-returned_example =
    fire-returned (pos 15) (codes "{}" ∷ []) beat_first.last true beat_first.path refl

Reaches-Quits_example : Quits held_up.last
Reaches-Quits_example = Reaches-Quits (pos 15) (codes "{}" ∷ []) held_up.last held_up.path

empty_object-IsJsonLine : IsJsonLine (codes "{}")
unfolding drop_cr trim_right_cr
empty_object-IsJsonLine = record {
  line = record {
    one_line = any-All (λ c. c == b'\n') (data_line (codes "{}")) refl;
    no_cr = refl;
    fits = omega arith;
  };
  clean = refl;
}

Delivers-start_heartbeat_example :
    Delivers
      (new_reader (new_scanner max_event_bytes beat_first.last.sent GoError.nil))
      (map unnamed (codes "{}" ∷ []))
unfolding fire start_heartbeat move_on
Delivers-start_heartbeat_example =
    Delivers-start_heartbeat (pos 15) (codes "{}" ∷ []) beat_first.last beat_first.path refl refl
      (empty_object-IsJsonLine, tt)
