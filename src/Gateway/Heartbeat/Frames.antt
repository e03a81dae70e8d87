-- ===== src/Gateway/Heartbeat/Frames.antt =====
-- What the caller of a stream receives: whole frames, with the heartbeat's between the events.
use skyl.Prelude.{
  List, ◌≡◌, refl, ap, sym, ◌∙◌, Bool, true, false, not, ◌&&◌, [], ◌∷◌, ◌++◌, Bytes, arith,
  append-nil, append_assoc, null,
}
use skyl.Gateway.Heartbeat.{
  Frame, data_frame, keep_alive, frame_bytes, Loop, relaying, leaving, waiting, returned, locking,
  writing, Beat, idle, queued, exited, beating, Session, is_exited, take_frame, on_loop,
}
use skyl.Gateway.Heartbeat.Exclusion.{loop_holds, beat_holds, exclusive, Then, when-Then}

abbrev pub bytes_of : List Frame → Bytes
bytes_of [] = []
bytes_of (f ∷ fs) = frame_bytes f ++ bytes_of fs

-- The events among the frames, which a client is left with that skips comments.
abbrev pub events_of : List Frame → List Bytes
events_of [] = []
events_of (data_frame json ∷ fs) = json ∷ events_of fs
events_of (keep_alive ∷ fs) = events_of fs

-- What a writer has still to write of its frame.
abbrev pub loop_rest : Loop → Bytes
loop_rest (writing bs) = bs
loop_rest l = []

abbrev pub beat_rest : Beat → Bytes
beat_rest (beating bs) = bs
beat_rest b = []

-- The event that the handler has taken up and waits with for the lock.
abbrev pub wanted : Loop → List Bytes
wanted (locking json) = json ∷ []
wanted l = []

-- The handler has left the loop of events.
abbrev pub is_past_loop : Loop → Bool
is_past_loop leaving = true
is_past_loop waiting = true
is_past_loop returned = true
is_past_loop l = false

-- `fs` are the frames that were begun, and `rest` is what was not written of them.
pub record Framed (all : List Bytes) (l : Loop) (b : Beat) (s : Session) : Type 0 where
  pub begun : List Frame
  pub rest : Bytes
  pub written : s.sent ++ rest ≡ bytes_of begun
  pub order : events_of begun ++ (wanted l ++ s.coming) ≡ all
  pub unwritten : s.broken ≡ false → rest ≡ loop_rest l ++ beat_rest b
  pub spent : (is_past_loop l && not s.broken) ≡ true → null s.coming ≡ true

bytes_of-append :
    (fs : List Frame) (f : Frame) → bytes_of (fs ++ (f ∷ [])) ≡ bytes_of fs ++ frame_bytes f
bytes_of-append [] f = append-nil (frame_bytes f)
bytes_of-append (g ∷ fs) f =
    ap (λ x. frame_bytes g ++ x) (bytes_of-append fs f)
    ∙ sym (append_assoc (frame_bytes g) (bytes_of fs) (frame_bytes f))

pub events_of-append : (fs gs : List Frame) → events_of (fs ++ gs) ≡ events_of fs ++ events_of gs
events_of-append [] gs = refl
events_of-append (data_frame json ∷ fs) gs = ap (λ x. json ∷ x) (events_of-append fs gs)
events_of-append (keep_alive ∷ fs) gs = events_of-append fs gs

pub rest_nil : (b : Beat) → beat_holds b ≡ false → beat_rest b ≡ []
rest_nil idle h = refl
rest_nil queued h = refl
rest_nil exited h = refl
rest_nil (beating bs) h = absurd (cc h)

pub loop_rest_nil : (l : Loop) → loop_holds l ≡ false → loop_rest l ≡ []
loop_rest_nil (writing bs) h = absurd (cc h)
loop_rest_nil relaying h = refl
loop_rest_nil leaving h = refl
loop_rest_nil waiting h = refl
loop_rest_nil returned h = refl
loop_rest_nil (locking json) h = refl

module _ (all : List Bytes) where
  abbrev pub IsFramed : Session → Type 0
  IsFramed s = Framed all s.loop s.beat s

  -- A frame is begun: none was being written.
  pub begin :
      (s : Session) (l : Loop) (b : Beat) (h : Framed all l b s) (f : Frame)
      → s.sent ++ (h.rest ++ frame_bytes f) ≡ bytes_of (h.begun ++ (f ∷ []))
  begin s l b h f =
      sym (append_assoc s.sent h.rest (frame_bytes f))
      ∙ ap (λ x. x ++ frame_bytes f) h.written
      ∙ sym (bytes_of-append h.begun f)

  take_frame-IsFramed :
      (frames : List Bytes) (s : Session)
      → s.coming ≡ frames
      → Framed all relaying s.beat s
      → IsFramed (take_frame frames s)
  unfolding take_frame
  take_frame-IsFramed [] s e h = record {
    begun = h.begun;
    rest = h.rest;
    written = h.written;
    order = h.order;
    unwritten = h.unwritten;
    spent = λ o. ap null e;
  }
  take_frame-IsFramed (json ∷ more) s e h = record {
    begun = h.begun;
    rest = h.rest;
    written = h.written;
    order = ap (λ x. events_of h.begun ++ x) (sym e) ∙ h.order;
    unwritten = h.unwritten;
    spent = λ o. absurd (cc o);
  }

  lock_loop-IsFramed :
      (json : Bytes) (s : Session)
      → beat_holds s.beat ≡ false
      → Framed all (locking json) s.beat s
      → IsFramed (record s { loop = writing (frame_bytes (data_frame json)); locked = true })
  lock_loop-IsFramed json s free h = record {
    begun = h.begun ++ (data_frame json ∷ []);
    rest = h.rest ++ frame_bytes (data_frame json);
    written = begin s (locking json) s.beat h (data_frame json);
    order =
        ap (λ x. x ++ s.coming) (events_of-append h.begun (data_frame json ∷ []))
        ∙ append_assoc (events_of h.begun) (json ∷ []) s.coming
        ∙ h.order;
    unwritten = λ o.
        ap (λ x. x ++ frame_bytes (data_frame json)) (h.unwritten o ∙ rest_nil s.beat free)
        ∙ sym (append-nil (frame_bytes (data_frame json)))
        ∙ ap (λ x. frame_bytes (data_frame json) ++ x) (sym (rest_nil s.beat free));
    spent = λ o. absurd (cc o);
  }

  write_loop-IsFramed :
      (c : _) (bs : Bytes) (s : Session)
      → s.broken ≡ false
      → Framed all (writing (c ∷ bs)) s.beat s
      → IsFramed (record s { loop = writing bs; sent = s.sent ++ (c ∷ []) })
  write_loop-IsFramed c bs s ok h = record {
    begun = h.begun;
    rest = bs ++ beat_rest s.beat;
    written =
        append_assoc s.sent (c ∷ []) (bs ++ beat_rest s.beat)
        ∙ ap (λ x. s.sent ++ x) (sym (h.unwritten ok))
        ∙ h.written;
    order = h.order;
    unwritten = λ o. refl;
    spent = λ o. absurd (cc o);
  }

  -- A move that leaves what is sent and what is to be sent as they are.
  pub pass :
      (l : Loop) (b : Beat) (s t : Session) (h : Framed all l b s)
      → s.sent ≡ t.sent
      → (wanted l ++ s.coming) ≡ (wanted t.loop ++ t.coming)
      → (t.broken ≡ false → h.rest ≡ loop_rest t.loop ++ beat_rest t.beat)
      → ((is_past_loop t.loop && not t.broken) ≡ true → null t.coming ≡ true)
      → IsFramed t
  pass l b s t h e f unwritten spent = record {
    begun = h.begun;
    rest = h.rest;
    written = ap (λ x. x ++ h.rest) (sym e) ∙ h.written;
    order = ap (λ x. events_of h.begun ++ x) (sym f) ∙ h.order;
    unwritten = unwritten;
    spent = spent;
  }

  pub on_loop-IsFramed :
      (ok : Bool) (l : Loop) (s : Session)
      → exclusive l s.beat s.locked s.stopped ≡ true
      → Framed all l s.beat s
      → Then IsFramed (on_loop ok l s)
  unfolding on_loop
  on_loop-IsFramed ok relaying s x h = take_frame-IsFramed s.coming s refl h
  on_loop-IsFramed ok (locking json) s x h =
      when-Then IsFramed (not s.locked) _ (λ free. lock_loop-IsFramed json s (ground arith) h)
  on_loop-IsFramed ok (writing []) s x h =
      pass (writing []) s.beat s _ h refl refl h.unwritten h.spent
  on_loop-IsFramed true (writing (c ∷ bs)) s x h =
      when-Then IsFramed (not s.broken) _ (λ o. write_loop-IsFramed c bs s (ground arith) h)
  on_loop-IsFramed false (writing (c ∷ bs)) s x h =
      pass (writing (c ∷ bs)) s.beat s _ h refl refl (λ o. absurd (cc o)) (λ o. absurd (cc o))
  on_loop-IsFramed ok leaving s x h = pass leaving s.beat s _ h refl refl h.unwritten h.spent
  on_loop-IsFramed ok waiting s x h =
      when-Then IsFramed (is_exited s.beat) _
        (λ o. pass waiting s.beat s _ h refl refl h.unwritten h.spent)
  on_loop-IsFramed ok returned s x h = tt
