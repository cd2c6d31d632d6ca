-- ===== src/Steps/FanOut.antt =====
-- src/StepLibrary/FanOut.cpp: a copy of each message for every destination.
use hsqueue.Base.{
  refl, ap, ◌∙◌, if_of_false, ℕ, ◌≡◌, Bool, false, ◌++◌, if◌then◌else◌, add32, tabulate, Result, ok,
  err,
}
use hsqueue.Message.{Message}
use hsqueue.Steps.Copying.{World, Receiver, parcel, send_copies}
use hsqueue.Steps.Copying.Copies.{IsReady, Respects, send_copies_lem, parcel-SameBytes}

-- `destinations` is `getDestinationCount()`; the output message is there after `validate`.
pub record FanOut : Type 0 where
  pub stopping : Bool
  pub destinations : ℕ
  pub messages_handled : ℕ
  pub messages_sent : ℕ
  pub world : World
  pub out_message : Message

abbrev pub make_fan_out : ℕ → World → Message → FanOut
make_fan_out destinations world out = record {
  stopping = false;
  destinations = destinations;
  messages_handled = 0;
  messages_sent = 0;
  world = world;
  out_message = out;
}

abbrev pub count_copies : FanOut → Result {0} Unit × ℕ × World × Message → Result {0} Unit × FanOut
count_copies s (err e, count, world, out) = (
  err e,
  record s { messages_sent = add32 s.messages_sent count; world = world; out_message = out },
)
count_copies s (ok _, count, world, out) = (
  ok tt,
  record s {
    messages_sent = add32 s.messages_sent count;
    messages_handled = add32 s.messages_handled 1;
    world = world;
    out_message = out;
  },
)

-- `handle`; the message itself is only read. A copy that throws ends the call.
unfoldable pub handle : Receiver → FanOut → Message → Result {0} Unit × FanOut
handle receive s m =
    if s.stopping
    then (ok tt, s)
    else count_copies s (send_copies receive m 0 s.destinations (s.world, s.out_message))

-- Unless it is stopping, a fan-out with an empty output message large enough, and destinations that
-- do not write to the message's block, returns, and has sent each of its destinations, in their order,
-- the message's bytes and meta information; it counts the message and the copies, and is ready again.
pub handle_lem :
    (receive : Receiver) (s : FanOut) (m : Message)
    → Respects receive m
    → IsReady m s.out_message
    → s.stopping ≡ false
    → (s' : FanOut) × (handle receive s m ≡ (ok tt, s'))
      × (s'.world.sent
          ≡ s.world.sent ++ tabulate (λ i. (i, parcel s.world.memory m)) 0 s.destinations)
      × (parcel s'.world.memory m ≡ parcel s.world.memory m)
      × (s'.messages_sent ≡ add32 s.messages_sent s.destinations)
      × (s'.messages_handled ≡ add32 s.messages_handled 1)
      × IsReady m s'.out_message
unfolding handle
handle_lem receive s m keeps r going =
    let (w', out', e, c) =
      send_copies_lem receive m keeps 0 s.destinations s.world s.out_message r in
    (
      _,
      if_of_false _ _ going ∙ ap (count_copies s) e,
      c.sends,
      parcel-SameBytes m s.world.memory w'.memory c.same,
      refl,
      refl,
      c.again,
    )
