-- ===== src/Steps/RoundRobin.antt =====
-- src/StepLibrary/RoundRobin.cpp: data messages go to the destinations in turn, heartbeats and
-- shutdowns to all of them.
use hsqueue.Base.{
  ℕ, ◌%◌, Bool, false, List, [], ◌∷◌, if◌then◌else◌, ◌==◌, add32, Result, ok, err, Error,
}
use hsqueue.Message.{Message, MessageType, heartbeat, shutdown}
use hsqueue.Steps.Copying.{World, Receiver, send_to, send_copies}
pub mod Turns

pub record RoundRobin : Type 0 where
  pub stopping : Bool
  pub destinations : ℕ
  pub messages_handled : ℕ
  pub heartbeats_handled : ℕ
  pub shutdowns_handled : ℕ
  pub world : World
  pub out_message : Message

abbrev pub make_round_robin : ℕ → World → Message → RoundRobin
make_round_robin destinations world out = record {
  stopping = false;
  destinations = destinations;
  messages_handled = 0;
  heartbeats_handled = 0;
  shutdowns_handled = 0;
  world = world;
  out_message = out;
}

-- A data message without a destination is divided by zero, which the language leaves undefined.
pub data Ending : Type 0 where
  returned undefined : Ending
  threw : Error → Ending

abbrev pub count_heartbeat : RoundRobin → RoundRobin
count_heartbeat s = record s { heartbeats_handled = add32 s.heartbeats_handled 1 }

abbrev pub count_shutdown : RoundRobin → RoundRobin
count_shutdown s = record s { shutdowns_handled = add32 s.shutdowns_handled 1 }

-- The copies for all destinations, and the count of the kind.
abbrev pub after_copies :
    (RoundRobin → RoundRobin)
    → RoundRobin
    → Result {0} Unit × ℕ × World × Message
    → Ending × RoundRobin
after_copies count s (err e, _, world, out) =
    (threw e, record s { world = world; out_message = out })
after_copies count s (ok _, _, world, out) =
    (returned, count (record s { world = world; out_message = out }))

abbrev pub handle_data : Receiver → RoundRobin → Message → Ending × RoundRobin × Message
handle_data receive s m =
    let (world, m') = send_to receive (s.messages_handled % s.destinations) s.world m in
    if s.destinations == 0
    then (undefined, s, m)
    else (returned, record s { messages_handled = add32 s.messages_handled 1; world = world }, m')

abbrev pub handle_kind :
    MessageType → Receiver → RoundRobin → Message → Ending × RoundRobin × Message
handle_kind heartbeat receive s m =
    let copies = send_copies receive m 0 s.destinations (s.world, s.out_message) in
    let (ending, s') = after_copies count_heartbeat s copies in (ending, s', m)
handle_kind shutdown receive s m =
    let copies = send_copies receive m 0 s.destinations (s.world, s.out_message) in
    let (ending, s') = after_copies count_shutdown s copies in (ending, s', m)
handle_kind _ receive s m = handle_data receive s m

-- How the call ends, the step and the message after it.
unfoldable pub handle : Receiver → RoundRobin → Message → Ending × RoundRobin × Message
handle receive s m = if s.stopping then (returned, s, m) else handle_kind m.kind receive s m

abbrev pub handle_all : Receiver → RoundRobin → List Message → RoundRobin
handle_all receive s [] = s
handle_all receive s (m ∷ ms) = handle_all receive (handle receive s m).1 ms
