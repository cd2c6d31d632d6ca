-- ===== src/Steps/CopyExamples.antt =====
-- Fan-out, round robin and pass-through on small messages.
use hsqueue.Base.{ℕ, ◌+◌, ◌%◌, ◌≡◌, refl, inl, List, [], ◌∷◌, ◌++◌, map, tabulate, add32, arith, ok}
use hsqueue.Message.{
  Message, blank, mock_message, heartbeat, get, set_empty, append_binary_copy, copy_meta_info_to,
}
use hsqueue.Steps.Copying.{Parcel, parcel, Receiver, World, send_to, send_copy, send_copies}
use hsqueue.Steps.Copying.Copies.{IsReady, Respects}
use hsqueue.Steps.FanOut
use hsqueue.Steps.FanOut.{FanOut, make_fan_out, handle_lem}
use hsqueue.Steps.RoundRobin
use hsqueue.Steps.RoundRobin.{RoundRobin, make_round_robin}
use hsqueue.Steps.RoundRobin.Turns.{received, share, received-handle_all, IsData}
use hsqueue.Steps.PassThru.{
  PassThru, make_pass_thru, binary_handle, copy_handle, forward_handle, pass_thru_lem,
}

-- Three bytes, and an output message with room for eight.
abbrev three_bytes : Message
three_bytes = record blank {
  container = 100;
  capacity = 8;
  used = 3;
  kind = mock_message;
  sequence = 5;
}

abbrev out : Message
out = record blank { container = 200; capacity = 8 }

abbrev world : World
world = record { memory = λ a. a % 7; sent = [] }

-- A destination that only reads.
abbrev reads : Receiver
reads index sent mem m = (mem, m)

out-IsReady : IsReady three_bytes out
unfolding get
out-IsReady = record {
  valid = record { read_in = omega arith; used_in = omega arith; small = omega arith };
  emptied = refl;
  room = omega arith;
  apart = inl (omega arith);
}

reads_only : Respects reads three_bytes
unfolding set_empty get
reads_only index sent mem m v room apart = (
  λ a lo hi. refl,
  record {
    valid = record { read_in = omega arith; used_in = omega arith; small = v.small };
    emptied = refl;
    room = room;
    apart = apart;
  },
)

handle_lem_example :
    (s' : FanOut) × (FanOut.handle reads (make_fan_out 2 world out) three_bytes ≡ (ok tt, s'))
    × (s'.world.sent ≡ [] ++ tabulate (λ i. (i, parcel world.memory three_bytes)) 0 2)
    × (parcel s'.world.memory three_bytes ≡ parcel world.memory three_bytes)
    × (s'.messages_sent ≡ add32 0 2)
    × (s'.messages_handled ≡ add32 0 1)
    × IsReady three_bytes s'.out_message
handle_lem_example =
    handle_lem reads (make_fan_out 2 world out) three_bytes reads_only out-IsReady refl

-- Seven messages over three destinations.
abbrev seven : List Message
seven =
    three_bytes ∷ three_bytes ∷ three_bytes ∷ three_bytes ∷ three_bytes ∷ three_bytes ∷ three_bytes
    ∷ []

in_turn :
    map
      (λ (x : ℕ × Parcel). x.0)
      (RoundRobin.handle_all reads (make_round_robin 3 world out) seven).world.sent
    ≡ 0 ∷ 1 ∷ 2 ∷ 0 ∷ 1 ∷ 2 ∷ 0 ∷ []
unfolding RoundRobin.handle send_to
in_turn = refl

-- A heartbeat comes to every destination.
to_all :
    map
      (λ (x : ℕ × Parcel). x.0)
      (RoundRobin.handle reads
        (make_round_robin 3 world out)
        (record three_bytes { kind = heartbeat })).1.world.sent
    ≡ 0 ∷ 1 ∷ 2 ∷ []
unfolding RoundRobin.handle send_copies send_copy append_binary_copy set_empty copy_meta_info_to
to_all = refl

IsData-three_bytes : IsData three_bytes
IsData-three_bytes = (λ e. cc, λ e. cc)

received-handle_all_example :
    received 0 (RoundRobin.handle_all reads (make_round_robin 3 world out) seven).world.sent
      + share 3 0 0
    ≡ received 0 [] + share 3 0 (0 + 7)
received-handle_all_example =
    received-handle_all reads (make_round_robin 3 world out) seven 0
      (
        IsData-three_bytes,
        (
          IsData-three_bytes,
          (
            IsData-three_bytes,
            (
              IsData-three_bytes,
              (IsData-three_bytes, (IsData-three_bytes, (IsData-three_bytes, tt))),
            ),
          ),
        ),
      )
      refl (omega arith) (omega arith)

pass_thru_example :
    (s' : PassThru) × (binary_handle reads (make_pass_thru world out) three_bytes ≡ (ok tt, s'))
    × (copy_handle 3 reads (make_pass_thru world out) three_bytes ≡ (ok tt, s'))
    × (s'.world.sent ≡ [] ++ (0, parcel world.memory three_bytes) ∷ [])
    × ((forward_handle reads (make_pass_thru world out) three_bytes).0.world.sent ≡ s'.world.sent)
    × (s'.messages_handled ≡ add32 0 1)
    × ((forward_handle reads (make_pass_thru world out) three_bytes).0.messages_handled
        ≡ s'.messages_handled)
pass_thru_example =
    pass_thru_lem reads (make_pass_thru world out) three_bytes reads_only out-IsReady refl
