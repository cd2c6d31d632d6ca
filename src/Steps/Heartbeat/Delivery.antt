-- ===== src/Steps/Heartbeat/Delivery.antt =====
-- The heartbeats of src/StepLibrary/HeartbeatProducer.cpp are those that are due.
use mathlib.Core.List.{append_assoc, append-nil}
use hsqueue.Base.{
  ℕ, ◌≡◌, sym, ap, ◌∙◌, not, List, [], ◌∷◌, ◌++◌, ltb, if_of_true, if_of_false, Bool-cases, inl,
  inr,
}
use hsqueue.Message.{Memory}
use hsqueue.Steps.Copying.{Receiver}
use hsqueue.Steps.Copying.Room.{KeepsRoom}
use hsqueue.Steps.Heartbeat.{
  HeartbeatProducer, handle_timer, handle_timer_error, cancel_timer, stop, pause, resume,
}
use hsqueue.Steps.Heartbeat.Beats.{
  Event, expired, failed, canceling, stopping, pausing, resuming, Beat, beat, beats, apply_all, due,
  IsReady, due_idle, due_failed_idle, due_paused, due_going, due_failed,
}
use hsqueue.Steps.Heartbeat.Answers.{Answered, error-Answered, paused-Answered, going-Answered}

module _ (receiver : Receiver) (object : ℕ → ℕ → Memory → Memory) (size : ℕ)
    (keeps : KeepsRoom receiver size) where
  abbrev Due : List Event → HeartbeatProducer → List Beat → Type 0
  Due es s l = beats (apply_all receiver object es s).world.sent ≡ beats s.world.sent ++ l

  -- The heartbeats due after an answer stand behind those that it added.
  go_on :
      (es : List Event) (s s' : HeartbeatProducer) (added : List Beat)
      → Answered size added s s'
      → Due es s' (due s'.paused s'.stopping (ltb 0 s'.waits) es)
      → beats (apply_all receiver object es s').world.sent
        ≡ beats s.world.sent ++ (added ++ due s.paused s.stopping (not s.stopping) es)
  go_on es s s' added a ih =
      ih
      ∙ ap (λ w. beats s'.world.sent ++ due s'.paused s'.stopping w es) a.waits
      ∙ ap (λ p. beats s'.world.sent ++ due p s'.stopping (not s.stopping) es) a.same_pause
      ∙ ap (λ t. beats s'.world.sent ++ due s.paused t (not s.stopping) es) a.same_stop
      ∙ ap (λ l. l ++ due s.paused s.stopping (not s.stopping) es) a.sends
      ∙ append_assoc (beats s.world.sent) added (due s.paused s.stopping (not s.stopping) es)

  -- From the first wait on, the heartbeats that are sent are those that are due: one, with its time,
  -- whenever the timer expires while the step is not paused, also after an error of the timer; after a
  -- stop at most the one whose wait was asked for before it. The message must have room, and the
  -- destination must keep it so.
  pub apply_all_lem :
      (es : List Event) (s : HeartbeatProducer)
      → IsReady size s
      → beats (apply_all receiver object es s).world.sent
        ≡ beats s.world.sent ++ due s.paused s.stopping (ltb 0 s.waits) es
  unfolding cancel_timer stop pause resume due
  apply_all_lem [] s r = sym (append-nil _)
  apply_all_lem (canceling ∷ es) s r =
      apply_all_lem es (cancel_timer s)
        (record { one_wait = r.one_wait; open_message = r.open_message; fits = r.fits })
  apply_all_lem (stopping ∷ es) s r =
      apply_all_lem es (stop s)
        (record { one_wait = r.one_wait; open_message = r.open_message; fits = r.fits })
  apply_all_lem (pausing ∷ es) s r =
      apply_all_lem es (pause s)
        (record { one_wait = r.one_wait; open_message = r.open_message; fits = r.fits })
  apply_all_lem (resuming ∷ es) s r =
      apply_all_lem es (resume s)
        (record { one_wait = r.one_wait; open_message = r.open_message; fits = r.fits })
  apply_all_lem (failed ∷ es) s r = elim (Bool-cases (ltb 0 s.waits)) [
    | inr idle ↦
        ap (λ s'. beats (apply_all receiver object es s').world.sent) (if_of_false _ _ idle)
        ∙ apply_all_lem es s r
        ∙ ap (λ l. beats s.world.sent ++ l)
            (sym (due_failed_idle s.stopping es s.paused (ltb 0 s.waits) idle))
    | inl waiting ↦
        let a = error-Answered receiver object size keeps s r in
        ap (λ s'. beats (apply_all receiver object es s').world.sent) (if_of_true _ _ waiting)
        ∙ go_on es s (handle_timer_error s) [] a (apply_all_lem es (handle_timer_error s) a.ready)
        ∙ ap (λ l. beats s.world.sent ++ l)
            (sym (due_failed s.stopping es s.paused (ltb 0 s.waits) waiting))
  ]
  apply_all_lem (expired now ∷ es) s r = elim (Bool-cases (ltb 0 s.waits)) [
    | inr idle ↦
        ap (λ s'. beats (apply_all receiver object es s').world.sent) (if_of_false _ _ idle)
        ∙ apply_all_lem es s r
        ∙ ap (λ l. beats s.world.sent ++ l)
            (sym (due_idle s.stopping es s.paused (ltb 0 s.waits) now idle))
    | inl waiting ↦
        ap (λ s'. beats (apply_all receiver object es s').world.sent) (if_of_true _ _ waiting)
        ∙ elim (Bool-cases s.paused) [
          | inl held ↦
              let a = paused-Answered receiver object size keeps now s held r in
              go_on es s s' [] a (apply_all_lem es s' a.ready)
              ∙ ap (λ l. beats s.world.sent ++ l)
                  (sym (due_paused s.stopping es s.paused (ltb 0 s.waits) now waiting held))
          | inr going ↦
              let a = going-Answered receiver object size keeps now s r going in
              go_on es s s' (beat now ∷ []) a (apply_all_lem es s' a.ready)
              ∙ ap (λ l. beats s.world.sent ++ l)
                  (sym (due_going s.stopping es s.paused (ltb 0 s.waits) now waiting going))
        ]
  ]
    where
      s' : HeartbeatProducer
      s' = (handle_timer receiver object now s).1
