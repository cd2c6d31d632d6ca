-- ===== src/Steps/Multicast/Examples.antt =====
-- Two packets, with a pause between them.
use hsqueue.Base.{
  ℕ, ◌+◌, ◌%◌, ◌≡◌, refl, Bool, false, List, [], ◌∷◌, ◌++◌, arith, ◌==◌, if◌then◌else◌, length, w32,
}
use hsqueue.Message.{
  Message, Memory, blank, heartbeat, payload, set_empty, set_type, set_timestamp, add_used,
  get_write_position,
}
use hsqueue.Steps.Copying.{World, Receiver, send_to}
use hsqueue.Steps.Multicast.{
  MulticastReceiver, make_multicast_receiver, start, handle_packet, store_bytes, pause, resume,
}
use hsqueue.Steps.Copying.Room.{IsOpen, KeepsRoom}
use hsqueue.Steps.Multicast.Reads.{packets, packet_of, Reach, started, packet, paused, resumed}
use hsqueue.Steps.Multicast.Delivery.{IsFresh, IsDelivered, Reach-IsDelivered}
use hsqueue.Steps.Multicast.Sender.{MulticastSender, make_multicast_sender, handle, handle_all}
use hsqueue.Steps.Multicast.Link.{contents, bytes_of, refused, handle_all-Reach}

abbrev out : Message
out = record blank { container = 1000; capacity = 64 }

abbrev world : World
world = record { memory = λ a. 0; sent = [] }

abbrev fresh : MulticastReceiver
fresh = make_multicast_receiver world out

abbrev keeping : Receiver
keeping index sent mem m = (mem, m)

out-IsOpen : IsOpen 16 out
out-IsOpen = record {
  valid = record { read_in = omega arith; used_in = omega arith; small = omega arith };
  emptied = refl;
  room = omega arith;
}

keeping-KeepsRoom : KeepsRoom keeping 16
unfolding set_empty
keeping-KeepsRoom index sent mem m v room = record {
  valid = record { read_in = omega arith; used_in = omega arith; small = v.small };
  emptied = refl;
  room = room;
}

fresh-IsFresh : IsFresh 16 fresh
fresh-IsFresh = record { open_message = out-IsOpen; no_calls = refl; no_reads = refl }

abbrev first : MulticastReceiver
first = (handle_packet keeping 5 (7 ∷ 8 ∷ []) (start fresh)).1

abbrev again : MulticastReceiver
again = resume (pause first)

-- After the first packet, another read is asked for.
reading : (start fresh).reads ≡ 1
unfolding start
reading = refl

reading_again : again.reads ≡ 1
unfolding start handle_packet pause resume add_used send_to set_type set_timestamp set_empty
    get_write_position store_bytes
reading_again = refl

run :
    Reach keeping 16 fresh
      (packet_of 5 (7 ∷ 8 ∷ []) ∷ packet_of 6 (9 ∷ []) ∷ [])
      (handle_packet keeping 6 (9 ∷ []) again).1
unfolding start
run =
    packet 6 (9 ∷ [])
      (resumed (paused (packet 5 (7 ∷ 8 ∷ []) started (omega arith) (omega arith) refl)))
      (omega (arith, reading_again)) (omega arith) refl

Reach-IsDelivered_example :
    IsDelivered 16 fresh
      (packet_of 5 (7 ∷ 8 ∷ []) ∷ packet_of 6 (9 ∷ []) ∷ [])
      (handle_packet keeping 6 (9 ∷ []) again).1
Reach-IsDelivered_example = Reach-IsDelivered keeping 16 keeping-KeepsRoom fresh fresh-IsFresh run

abbrev sent_memory : Memory
sent_memory a = if a == 2000 then 7 else if a == 2001 then 8 else 9

abbrev two_bytes : Message
two_bytes = record blank { container = 2000; capacity = 64; used = 2 }

abbrev one_byte : Message
one_byte = record blank { container = 3000; capacity = 64; used = 1 }

abbrev signal : Message
signal = record blank { kind = heartbeat }

abbrev never : List ℕ → Bool
never bytes = false

abbrev sender : MulticastSender
sender = handle_all never sent_memory make_multicast_sender (two_bytes ∷ signal ∷ one_byte ∷ [])

handle_all-Reach_example :
    let s = (handle_packet keeping 6 (9 ∷ []) again).1 in
    let bodies = contents sent_memory (two_bytes ∷ signal ∷ one_byte ∷ []) in
    (bytes_of (packets s.world.sent) ≡ bytes_of (packets fresh.world.sent) ++ bodies)
    × (s.messages_received % w32 ≡ (0 + length bodies) % w32)
    × (sender.message_count % w32 ≡ (0 + length bodies) % w32)
    × (sender.error_count % w32 ≡ (0 + refused never bodies) % w32)
handle_all-Reach_example =
    handle_all-Reach never sent_memory keeping 16 fresh make_multicast_sender
      (two_bytes ∷ signal ∷ one_byte ∷ []) keeping-KeepsRoom refl fresh-IsFresh run
      (unfold handle payload in refl)
