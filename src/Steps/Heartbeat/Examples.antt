-- ===== src/Steps/Heartbeat/Examples.antt =====
-- Heartbeats with a pause and a stop between them.
use hsqueue.Base.{ℕ, ◌≡◌, refl, true, false, List, [], ◌∷◌, ◌++◌, arith, ltb}
use hsqueue.Message.{Message, Memory, blank, set_empty}
use hsqueue.Steps.Copying.{World, Receiver}
use hsqueue.Steps.Copying.Room.{KeepsRoom}
use hsqueue.Steps.Heartbeat.{HeartbeatProducer, make_heartbeat_producer, start}
use hsqueue.Steps.Heartbeat.Beats.{
  Event, expired, failed, stopping, pausing, resuming, beat, beats, apply_all, due, IsReady,
}
use hsqueue.Steps.Heartbeat.Delivery.{apply_all_lem}

abbrev out : Message
out = record blank { container = 1000; capacity = 64 }

abbrev world : World
world = record { memory = λ a. 0; sent = [] }

abbrev keeping : Receiver
keeping index sent mem m = (mem, m)

abbrev object : ℕ → ℕ → Memory → Memory
object now target mem = mem

keeping-KeepsRoom : KeepsRoom keeping 8
unfolding set_empty
keeping-KeepsRoom index sent mem m v room = record {
  valid = record { read_in = omega arith; used_in = omega arith; small = v.small };
  emptied = refl;
  room = room;
}

abbrev waiting : HeartbeatProducer
waiting = record (make_heartbeat_producer world out) { waits = 1 }

waiting-IsReady : IsReady 8 waiting
waiting-IsReady = record {
  one_wait = omega arith;
  open_message = record {
    valid = record { read_in = omega arith; used_in = omega arith; small = omega arith };
    emptied = refl;
    room = omega arith;
  };
  fits = omega arith;
}

-- Started, the step waits for its timer.
started : (start (make_heartbeat_producer world out)).waits ≡ 1
unfolding start
started = refl

abbrev events : List Event
events =
    expired 1
    ∷ failed
    ∷ pausing
    ∷ expired 2
    ∷ resuming
    ∷ expired 3
    ∷ stopping
    ∷ expired 4
    ∷ expired 5
    ∷ []

due_run : due false false true events ≡ beat 1 ∷ beat 3 ∷ beat 4 ∷ []
unfolding due
due_run = refl

apply_all_lem_example :
    beats (apply_all keeping object events waiting).world.sent
    ≡ [] ++ due false false (ltb 0 1) events
apply_all_lem_example =
    apply_all_lem keeping object 8 keeping-KeepsRoom events waiting waiting-IsReady
