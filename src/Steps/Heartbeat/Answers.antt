-- ===== src/Steps/Heartbeat/Answers.antt =====
-- One answer of the timer of src/StepLibrary/HeartbeatProducer.cpp.
use mathlib.Core.List.{append-nil, map-append}
use hsqueue.Base.{
  ℕ, ◌+◌, ◌-◌, ◌≡◌, refl, sym, ap, ◌∙◌, ◌>>=◌, subst, true, false, not, List, [], ◌∷◌, ◌++◌, ok,
  arith, Result, ltb, if_of_true, if_of_false, Bool-cases, inl, inr,
}
use hsqueue.Message.{Message, Memory, get, heartbeat, set_type, set_timestamp, emplace, set_used}
use hsqueue.Steps.Copying.{World, Receiver, send_to}
use hsqueue.Steps.Copying.Room.{IsOpen, KeepsRoom}
use hsqueue.Steps.Heartbeat.{
  HeartbeatProducer, sizeof_heartbeat, start_timer, handle_timer, handle_timer_error, after_emplace,
}
use hsqueue.Steps.Heartbeat.Beats.{Beat, beat, beats, IsReady}

-- What an answer of the timer leaves.
pub record Answered (size : ℕ) (added : List Beat) (s s' : HeartbeatProducer) : Type 0 where
  pub ready : IsReady size s'
  pub sends : beats s'.world.sent ≡ beats s.world.sent ++ added
  pub waits : ltb 0 s'.waits ≡ not s.stopping
  pub same_pause : s'.paused ≡ s.paused
  pub same_stop : s'.stopping ≡ s.stopping

module _ (receiver : Receiver) (object : ℕ → ℕ → Memory → Memory) (size : ℕ)
    (keeps : KeepsRoom receiver size) where
  start_timer-Answered :
      (added : List Beat) (s s' : HeartbeatProducer)
      → s'.waits ≡ 0
      → IsReady size s'
      → beats s'.world.sent ≡ beats s.world.sent ++ added
      → s'.paused ≡ s.paused
      → s'.stopping ≡ s.stopping
      → Answered size added s (start_timer s')
  unfolding start_timer
  start_timer-Answered added s s' none r e p t = elim (Bool-cases s'.stopping) [
    | inl over ↦ subst (Answered size added s) (sym (if_of_true _ _ over)) (record {
      ready = r;
      sends = e;
      waits = ap (ltb 0) none ∙ ap not (sym over ∙ t);
      same_pause = p;
      same_stop = t;
    })
    | inr going ↦ subst (Answered size added s) (sym (if_of_false _ _ going)) (record {
      ready = record {
        one_wait = omega (arith, none);
        open_message = r.open_message;
        fits = r.fits;
      };
      sends = e;
      waits = lt_lem s'.waits ∙ ap not (sym going ∙ t);
      same_pause = p;
      same_stop = t;
    })
  ]
    where
      lt_lem : (n : ℕ) → ltb 0 (n + 1) ≡ true
      lt_lem n = ground arith

  pub paused-Answered :
      (now : ℕ) (s : HeartbeatProducer)
      → s.paused ≡ true
      → IsReady size s
      → Answered size [] s (handle_timer receiver object now s).1
  unfolding handle_timer
  paused-Answered now s held r =
      subst (λ (p : Result {0} Unit × HeartbeatProducer). Answered size [] s p.1)
        (sym (if_of_true _ _ held))
        (start_timer-Answered [] s (record s { waits = s.waits - 1 }) (omega (arith, r.one_wait))
          (record {
            one_wait = omega (arith, r.one_wait);
            open_message = r.open_message;
            fits = r.fits;
          })
          (sym (append-nil _)) refl refl)

  module _ (now : ℕ) (s : HeartbeatProducer) (r : IsReady size s) where
    abbrev stamped : Message
    stamped = record (s.out_message) { kind = heartbeat; timestamp = now }

    abbrev loaded : Message
    loaded = record (s.out_message) { used = sizeof_heartbeat; kind = heartbeat; timestamp = now }

    abbrev written : Memory
    written = object now (get stamped) s.world.memory

    abbrev sent : World × Message
    sent = send_to receiver 0 (record (s.world) { memory = written }) loaded

    emplaced : emplace sizeof_heartbeat (object now) s.world.memory stamped ≡ ok (written, loaded)
    unfolding emplace set_used
    emplaced =
        let room = r.open_message.room in
        let fits = r.fits in
        ap (λ (l : Result Message). l >>= λ m. ok (written, m))
          (if_of_false {b = ltb s.out_message.capacity 8} _ _ (ground (arith, room, fits)))

    sent-IsOpen : IsOpen size sent.1
    unfolding send_to
    sent-IsOpen =
        let o = r.open_message in
        let v = o.valid in
        let e = o.emptied in
        let room = o.room in
        let fits = r.fits in
        keeps 0 s.world.sent written loaded
          (record {
            read_in = omega (arith, v.read_in, e);
            used_in = omega (arith, fits, room);
            small = v.small;
          })
          room

    sent_beats : beats sent.0.sent ≡ beats s.world.sent ++ beat now ∷ []
    unfolding send_to
    sent_beats = map-append _ s.world.sent _

    pub going-Answered :
        s.paused ≡ false → Answered size (beat now ∷ []) s (handle_timer receiver object now s).1
    unfolding handle_timer set_type set_timestamp
    going-Answered going =
        subst (λ (p : Result {0} Unit × HeartbeatProducer). Answered size (beat now ∷ []) s p.1)
          (sym (
            if_of_false _ _ going
            ∙ ap (after_emplace receiver (record s { waits = s.waits - 1; out_message = stamped }))
                emplaced))
          (start_timer-Answered (beat now ∷ []) s
            (record s { waits = s.waits - 1; world = sent.0; out_message = sent.1 })
            (omega (arith, r.one_wait))
            (record {
              one_wait = omega (arith, r.one_wait);
              open_message = sent-IsOpen;
              fits = r.fits;
            })
            sent_beats refl refl)

  pub error-Answered :
      (s : HeartbeatProducer) → IsReady size s → Answered size [] s (handle_timer_error s)
  unfolding handle_timer_error
  error-Answered s r =
      start_timer-Answered [] s (record s { waits = s.waits - 1 }) (omega (arith, r.one_wait))
        (record {
          one_wait = omega (arith, r.one_wait);
          open_message = r.open_message;
          fits = r.fits;
        })
        (sym (append-nil _)) refl refl
