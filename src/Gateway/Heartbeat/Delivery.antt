-- ===== src/Gateway/Heartbeat/Delivery.antt =====
-- What stands in the response of a stream when the handler returns, whatever the heartbeat did.
use skyl.Prelude.{
  ℤ, List, ◌≡◌, refl, ap, sym, ◌∙◌, Bool, true, false, not, ◌&&◌, ◌||◌, [], ◌∷◌, ◌++◌, Bytes, arith,
  append-nil, append_assoc, null, Bool-cases, inl, inr, pos, leb_ℤ, some, none,
}
use skyl.Gateway.Heartbeat.{
  Frame, keep_alive, frame_bytes, Loop, relaying, leaving, waiting, returned, locking, writing,
  Beat, idle, queued, exited, beating, Session, on_beat, Move, handler, is_exited, heartbeat,
  hang_up, fire, start_heartbeat, Reaches,
}
use skyl.Gateway.Heartbeat.Exclusion.{
  loop_holds, exclusive, is_returned, Then, when-Then, Reaches_induction, IsExclusive,
  fire-IsExclusive, start-IsExclusive,
}
use skyl.Gateway.Heartbeat.Frames.{
  bytes_of, events_of, loop_rest, wanted, is_past_loop, Framed, events_of-append, loop_rest_nil,
  IsFramed, begin, pass, on_loop-IsFramed,
}

module _ (all : List Bytes) where
  lock_beat-IsFramed :
      (s : Session)
      → loop_holds s.loop ≡ false
      → Framed all s.loop queued s
      → IsFramed all (record s { beat = beating (frame_bytes keep_alive); locked = true })
  lock_beat-IsFramed s free h = record {
    begun = h.begun ++ (keep_alive ∷ []);
    rest = h.rest ++ frame_bytes keep_alive;
    written = begin all s s.loop queued h keep_alive;
    order =
        ap (λ x. x ++ (wanted s.loop ++ s.coming))
          (events_of-append h.begun (keep_alive ∷ []) ∙ append-nil (events_of h.begun))
        ∙ h.order;
    unwritten = λ o.
        ap (λ x. x ++ frame_bytes keep_alive)
          (h.unwritten o ∙ append-nil (loop_rest s.loop) ∙ loop_rest_nil s.loop free)
        ∙ ap (λ x. x ++ frame_bytes keep_alive) (sym (loop_rest_nil s.loop free));
    spent = h.spent;
  }

  write_beat-IsFramed :
      (c : _) (bs : Bytes) (s : Session)
      → s.broken ≡ false
      → loop_holds s.loop ≡ false
      → Framed all s.loop (beating (c ∷ bs)) s
      → IsFramed all (record s { beat = beating bs; sent = s.sent ++ (c ∷ []) })
  write_beat-IsFramed c bs s ok free h = record {
    begun = h.begun;
    rest = bs;
    written =
        append_assoc s.sent (c ∷ []) bs
        ∙ ap (λ x. s.sent ++ x)
            (sym (h.unwritten ok ∙ ap (λ x. x ++ (c ∷ bs)) (loop_rest_nil s.loop free)))
        ∙ h.written;
    order = h.order;
    unwritten = λ o. ap (λ x. x ++ bs) (sym (loop_rest_nil s.loop free));
    spent = h.spent;
  }

  broken_spent : (b c : Bool) → (b && not true) ≡ true → c ≡ true
  broken_spent true c h = absurd (cc h)
  broken_spent false c h = absurd (cc h)

  on_beat-IsFramed :
      (ok : Bool) (b : Beat) (s : Session)
      → exclusive s.loop b s.locked s.stopped ≡ true
      → Framed all s.loop b s
      → Then (IsFramed all) (on_beat ok b s)
  unfolding on_beat
  on_beat-IsFramed true idle s x h = pass all s.loop idle s _ h refl refl h.unwritten h.spent
  on_beat-IsFramed false idle s x h =
      when-Then (IsFramed all) (s.stopped || s.cancelled) _
        (λ o. pass all s.loop idle s _ h refl refl h.unwritten h.spent)
  on_beat-IsFramed ok queued s x h =
      when-Then (IsFramed all) (not s.locked) _ (λ free. lock_beat-IsFramed s (ground arith) h)
  on_beat-IsFramed ok (beating []) s x h =
      pass all s.loop (beating []) s _ h refl refl h.unwritten h.spent
  on_beat-IsFramed true (beating (c ∷ bs)) s x h =
      when-Then (IsFramed all) (not s.broken) _
        (λ o. write_beat-IsFramed c bs s (ground arith) (ground arith) h)
  on_beat-IsFramed false (beating (c ∷ bs)) s x h =
      pass all s.loop (beating (c ∷ bs)) s _ h refl refl (λ o. absurd (cc o))
        (broken_spent (is_past_loop s.loop) (null s.coming))
  on_beat-IsFramed ok exited s x h = tt

  IsOrderly : Session → Type 0
  IsOrderly s = IsExclusive s × IsFramed all s

  Then-pair : (P Q : Session → Type 0) (o : _) → Then P o → Then Q o → Then (λ s. P s × Q s) o
  Then-pair P Q none p q = tt
  Then-pair P Q (some s) p q = (p, q)

  fire-IsFramed :
      (m : Move) (s : Session) → IsExclusive s → IsFramed all s → Then (IsFramed all) (fire m s)
  unfolding fire
  fire-IsFramed (handler ok) s x h = on_loop-IsFramed all ok s.loop s x h
  fire-IsFramed (heartbeat ok) s x h = on_beat-IsFramed ok s.beat s x h
  fire-IsFramed hang_up s x h = pass all s.loop s.beat s _ h refl refl h.unwritten h.spent

  start-IsFramed : (interval : ℤ) → IsFramed all (start_heartbeat interval all)
  unfolding start_heartbeat
  start-IsFramed interval = record {
    begun = [];
    rest = [];
    written = refl;
    order = refl;
    unwritten =
        λ o. elim (Bool-cases (leb_ℤ interval (pos 0))) [ inl e ↦ rw e refl | inr e ↦ rw e refl ];
    spent = λ o. absurd (cc o);
  }

  Reaches-IsOrderly :
      (interval : ℤ) (s : Session) → Reaches (start_heartbeat interval all) s → IsOrderly s
  unfolding IsOrderly
  Reaches-IsOrderly interval s r =
      Reaches_induction IsOrderly (start_heartbeat interval all) s
        (start-IsExclusive interval all, start-IsFramed interval)
        (λ m u h.
          Then-pair IsExclusive (IsFramed all) (fire m u) (fire-IsExclusive m u h.0)
            (fire-IsFramed m u h.0 h.1))
        r

  null_lem : (xs : List Bytes) → null xs ≡ true → xs ≡ []
  null_lem [] h = refl
  null_lem (x ∷ xs) h = absurd (cc h)

  -- Nothing is left of a session in which the handler has returned.
  nothing_left :
      (l : Loop) (b : Beat) (s : Session)
      → is_returned l ≡ true
      → is_exited b ≡ true
      → s.broken ≡ false
      → Framed all l b s
      → (fs : List Frame) × (s.sent ≡ bytes_of fs) × (events_of fs ≡ all)
  nothing_left returned exited s l b ok h = (
    h.begun,
    sym (append-nil s.sent) ∙ ap (λ x. s.sent ++ x) (sym (h.unwritten ok)) ∙ h.written,
    sym (append-nil (events_of h.begun))
        ∙ ap (λ x. events_of h.begun ++ x) (sym (null_lem s.coming (h.spent (rw ok refl))))
        ∙ h.order,
  )
  nothing_left relaying b s l x ok h = absurd (cc l)
  nothing_left leaving b s l x ok h = absurd (cc l)
  nothing_left waiting b s l x ok h = absurd (cc l)
  nothing_left (locking json) b s l x ok h = absurd (cc l)
  nothing_left (writing bs) b s l x ok h = absurd (cc l)
  nothing_left returned idle s l x ok h = absurd (cc x)
  nothing_left returned queued s l x ok h = absurd (cc x)
  nothing_left returned (beating bs) s l x ok h = absurd (cc x)

  -- In every order in which the handler, the heartbeat and a caller that hangs up can move: when the
  -- handler has returned and no write has failed, the response holds whole frames, and these without
  -- the heartbeat's are those that the handler had to send, in their order.
  pub sent-bytes_of :
      (interval : ℤ) (s : Session)
      → Reaches (start_heartbeat interval all) s
      → is_returned s.loop ≡ true
      → s.broken ≡ false
      → (fs : List Frame) × (s.sent ≡ bytes_of fs) × (events_of fs ≡ all)
  unfolding IsOrderly
  sent-bytes_of interval s r h ok =
      let inv = Reaches-IsOrderly interval s r in
      let alone = inv.0 in nothing_left s.loop s.beat s h (ground arith) ok inv.1
