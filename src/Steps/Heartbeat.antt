-- ===== src/Steps/Heartbeat.antt =====
-- src/StepLibrary/HeartbeatProducer.cpp: a step that sends a heartbeat whenever its timer expires. The
-- timer is boost::asio's: its answers come as events, with the time that the clock shows then.
use hsqueue.Base.{
  ℕ, zero, suc, ◌+◌, ◌-◌, Bool, true, false, List, [], ◌∷◌, Option, none, some, ltb, if◌then◌else◌,
  Result, ok, err,
}
use hsqueue.Message.{Message, Memory, heartbeat, set_type, set_timestamp, emplace}
use hsqueue.Steps.Copying.{World, Receiver, send_to}
use hsqueue.Steps.Resources.{Resources, request_message_size}
use hsqueue.Steps.Asio
use hsqueue.Steps.Asio.{AsioStep}
pub mod Beats
pub mod Answers
pub mod Delivery
mod Examples

-- `waits` counts the waits for the timer that are not answered; the interval is in milliseconds.
pub record HeartbeatProducer : Type 0 where
  pub interval : ℕ
  pub cancel : Bool
  pub paused : Bool
  pub stopping : Bool
  pub asio : AsioStep
  pub waits : ℕ
  pub world : World
  pub out_message : Message

abbrev pub make_heartbeat_producer : World → Message → HeartbeatProducer
make_heartbeat_producer world out = record {
  interval = 1000;
  cancel = false;
  paused = false;
  stopping = false;
  asio = Asio.make_asio_step;
  waits = 0;
  world = world;
  out_message = out;
}

unfoldable pub set_interval : ℕ → HeartbeatProducer → HeartbeatProducer
set_interval interval s = record s { interval = interval }

-- The number that the value stands for, if it stands for one; the base class's answer for another key.
pub data Parameter : Type 0 where
  milliseconds_key : Option ℕ → Parameter
  other_key : Bool → Parameter

unfoldable pub configure_parameter : Parameter → HeartbeatProducer → Bool × HeartbeatProducer
configure_parameter (milliseconds_key (some n)) s = (true, record s { interval = n })
configure_parameter (milliseconds_key none) s = (false, s)
configure_parameter (other_key base) s = (base, s)

-- `sizeof(HeartbeatMessage)`, a count of 64 bits.
abbrev pub sizeof_heartbeat : ℕ
sizeof_heartbeat = 8

unfoldable pub configure_resources : Resources → Resources
configure_resources r = Asio.configure_message_resources (request_message_size sizeof_heartbeat r)

unfoldable pub start_timer : HeartbeatProducer → HeartbeatProducer
start_timer s = if s.stopping then s else record s { waits = s.waits + 1 }

unfoldable pub start : HeartbeatProducer → HeartbeatProducer
unfolding start_timer
start s = let s' = start_timer s in record s' { asio = Asio.start s'.asio }

-- `stop` cancels the timer, whose wait is answered with an error later; then the base class stops.
unfoldable pub cancel_timer : HeartbeatProducer → HeartbeatProducer
cancel_timer s = record s { cancel = true }

unfoldable pub stop : HeartbeatProducer → HeartbeatProducer
unfolding cancel_timer
stop s = record (cancel_timer s) { stopping = true }

unfoldable pub pause : HeartbeatProducer → HeartbeatProducer
pause s = record s { paused = true }

unfoldable pub resume : HeartbeatProducer → HeartbeatProducer
resume s = record s { paused = false }

abbrev pub sent_on : HeartbeatProducer → World × Message → HeartbeatProducer
sent_on s (w, out) = start_timer (record s { world = w; out_message = out })

-- The object is in the message; where `emplace` throws, the timer is not started again.
abbrev pub after_emplace :
    Receiver → HeartbeatProducer → Result (Memory × Message) → Result {0} Unit × HeartbeatProducer
after_emplace receiver s (err e) = (err e, s)
after_emplace receiver s (ok (mem, out)) =
    (ok tt, sent_on s (send_to receiver 0 (record (s.world) { memory = mem }) out))

-- `handleTimer` after the time; `object now` writes the `HeartbeatMessage`. A wait that is answered is
-- no longer there.
unfoldable pub handle_timer :
    Receiver
    → (ℕ → ℕ → Memory → Memory)
    → ℕ
    → HeartbeatProducer
    → Result {0} Unit × HeartbeatProducer
handle_timer receiver object now s =
    let answered = record s { waits = s.waits - 1 } in
    let out = set_timestamp (set_type s.out_message heartbeat) now in
    if s.paused
    then (ok tt, start_timer answered)
    else after_emplace receiver (record answered { out_message = out })
        (emplace sizeof_heartbeat (object now) s.world.memory out)

-- `handleTimer` after an error, which is only logged, if that.
unfoldable pub handle_timer_error : HeartbeatProducer → HeartbeatProducer
handle_timer_error s = start_timer (record s { waits = s.waits - 1 })
