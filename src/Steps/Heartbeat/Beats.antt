-- ===== src/Steps/Heartbeat/Beats.antt =====
-- Which heartbeats src/StepLibrary/HeartbeatProducer.cpp sends.
use hsqueue.Base.{
  ℕ, ◌≤◌, ◌≡◌, refl, Bool, true, false, not, ◌&&◌, List, [], ◌∷◌, map, ltb, if◌then◌else◌,
}
use hsqueue.Message.{MessageType, Memory, heartbeat}
use hsqueue.Steps.Copying.{Receiver, Deliveries, Parcel}
use hsqueue.Steps.Copying.Room.{IsOpen}
use hsqueue.Steps.Heartbeat.{
  HeartbeatProducer, sizeof_heartbeat, handle_timer, handle_timer_error, cancel_timer, stop, pause,
  resume,
}

-- The timer answers, or the pipeline calls.
pub data Event : Type 0 where
  expired : ℕ → Event
  failed canceling stopping pausing resuming : Event

pub record Beat : Type 0 where
  pub kind : MessageType
  pub sent_at : ℕ

abbrev pub beat : ℕ → Beat
beat now = record { kind = heartbeat; sent_at = now }

abbrev pub beats : Deliveries → List Beat
beats sent = map (λ (d : ℕ × Parcel). record { kind = d.1.kind; sent_at = d.1.timestamp }) sent

-- Without a wait, the timer does not answer.
abbrev pub apply :
    Receiver → (ℕ → ℕ → Memory → Memory) → Event → HeartbeatProducer → HeartbeatProducer
apply receiver object (expired now) s =
    if ltb 0 s.waits then (handle_timer receiver object now s).1 else s
apply receiver object failed s = if ltb 0 s.waits then handle_timer_error s else s
apply receiver object canceling s = cancel_timer s
apply receiver object stopping s = stop s
apply receiver object pausing s = pause s
apply receiver object resuming s = resume s

abbrev pub apply_all :
    Receiver → (ℕ → ℕ → Memory → Memory) → List Event → HeartbeatProducer → HeartbeatProducer
apply_all receiver object [] s = s
apply_all receiver object (e ∷ es) s = apply_all receiver object es (apply receiver object e s)

-- The heartbeats that are due: one whenever the timer expires while the step is not paused, until the
-- first answer of the timer after a stop.
unfoldable pub due : Bool → Bool → Bool → List Event → List Beat
due paused stopped waiting [] = []
due paused stopped waiting (expired now ∷ es) =
    let rest = due paused stopped (waiting && not stopped) es in
    if waiting && not paused then beat now ∷ rest else rest
due paused stopped waiting (failed ∷ es) = due paused stopped (waiting && not stopped) es
due paused stopped waiting (canceling ∷ es) = due paused stopped waiting es
due paused stopped waiting (stopping ∷ es) = due paused true waiting es
due paused stopped waiting (pausing ∷ es) = due true stopped waiting es
due paused stopped waiting (resuming ∷ es) = due false stopped waiting es

-- The timer is waited for at most once, and the message is empty with room for a heartbeat.
pub record IsReady (size : ℕ) (s : HeartbeatProducer) : Type 0 where
  pub one_wait : s.waits ≤ 1
  pub open_message : IsOpen size s.out_message
  pub fits : sizeof_heartbeat ≤ size

-- The branches of `due`.
module _ (stopped : Bool) (es : List Event) where
  pub due_idle :
      (paused waiting : Bool) (now : ℕ)
      → waiting ≡ false
      → due paused stopped waiting (expired now ∷ es) ≡ due paused stopped waiting es
  unfolding due
  due_idle paused false now e = refl
  due_idle paused true now e = cc e

  pub due_failed_idle :
      (paused waiting : Bool)
      → waiting ≡ false
      → due paused stopped waiting (failed ∷ es) ≡ due paused stopped waiting es
  unfolding due
  due_failed_idle paused false e = refl
  due_failed_idle paused true e = cc e

  pub due_paused :
      (paused waiting : Bool) (now : ℕ)
      → waiting ≡ true
      → paused ≡ true
      → due paused stopped waiting (expired now ∷ es) ≡ due paused stopped (not stopped) es
  unfolding due
  due_paused true true now e f = refl
  due_paused paused false now e f = cc e
  due_paused false true now e f = cc f

  pub due_going :
      (paused waiting : Bool) (now : ℕ)
      → waiting ≡ true
      → paused ≡ false
      → due paused stopped waiting (expired now ∷ es)
        ≡ beat now ∷ due paused stopped (not stopped) es
  unfolding due
  due_going false true now e f = refl
  due_going paused false now e f = cc e
  due_going true true now e f = cc f

  pub due_failed :
      (paused waiting : Bool)
      → waiting ≡ true
      → due paused stopped waiting (failed ∷ es) ≡ due paused stopped (not stopped) es
  unfolding due
  due_failed paused true e = refl
  due_failed paused false e = cc e
