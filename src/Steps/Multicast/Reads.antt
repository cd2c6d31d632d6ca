-- ===== src/Steps/Multicast/Reads.antt =====
-- What src/StepLibrary/MulticastReceiver.cpp does over time: packets and errors answer its reads, and
-- the pipeline pauses, resumes and stops it, in any order.
use hsqueue.Base.{ℕ, ◌≤◌, ◌<◌, ◌≡◌, Bool, true, false, List, [], ◌∷◌, ◌++◌, map, length}
use hsqueue.Message.{MessageType, multicast_packet}
use hsqueue.Steps.Copying.{Receiver, Deliveries, Parcel}
use hsqueue.Steps.Multicast.{
  MulticastReceiver, SocketCall, join_group, leave_group, start, handle_packet, handle_error, pause,
  resume, stop,
}

-- What was sent: the type, when the packet came, and its bytes.
pub record Packet : Type 0 where
  pub kind : MessageType
  pub received_at : ℕ
  pub bytes : List ℕ

abbrev pub packets : Deliveries → List Packet
packets sent =
    map
      (λ (d : ℕ × Parcel). record {
        kind = d.1.kind;
        received_at = d.1.timestamp;
        bytes = d.1.content;
      })
      sent

abbrev pub packet_of : ℕ → List ℕ → Packet
packet_of now bytes = record { kind = multicast_packet; received_at = now; bytes = bytes }

-- Whether the calls so far leave the socket in the group.
abbrev pub in_group : Bool → List SocketCall → Bool
in_group now [] = now
in_group now (join_group g l ∷ calls) = in_group true calls
in_group now (leave_group g l ∷ calls) = in_group false calls
in_group now (call ∷ calls) = in_group now calls

-- The step, started with a message whose block has room for `size` bytes, after packets of at most that
-- size; `log` has them in the order in which they came.
pub data Reach (receiver : Receiver) (size : ℕ) (s0 : MulticastReceiver)
    : List Packet → MulticastReceiver → Type 0 where
  started : Reach receiver size s0 [] (start s0)
  packet :
      {log log' : List Packet} {s : MulticastReceiver} (now : ℕ) (bytes : List ℕ)
      → Reach receiver size s0 log s
      → 0 < s.reads
      → length bytes ≤ size
      → log' ≡ log ++ packet_of now bytes ∷ []
      → Reach receiver size s0 log' (handle_packet receiver now bytes s).1
  failed :
      {log : List Packet} {s : MulticastReceiver}
      → Reach receiver size s0 log s
      → 0 < s.reads
      → Reach receiver size s0 log (handle_error s)
  paused :
      {log : List Packet} {s : MulticastReceiver}
      → Reach receiver size s0 log s
      → Reach receiver size s0 log (pause s)
  resumed :
      {log : List Packet} {s : MulticastReceiver}
      → Reach receiver size s0 log s
      → Reach receiver size s0 log (resume s)
  stopped :
      {log : List Packet} {s : MulticastReceiver}
      → Reach receiver size s0 log s
      → Reach receiver size s0 log (stop s)
