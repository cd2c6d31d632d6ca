-- ===== src/Steps/Multicast/Receiving.antt =====
-- One packet through src/StepLibrary/MulticastReceiver.cpp.
use mathlib.Core.List.{map-append}
use hsqueue.Base.{
  ℕ, suc, ◌+◌, ◌-◌, ◌≤◌, ◌<◌, ◌≡◌, refl, sym, ap, ◌∙◌, List, [], ◌∷◌, ◌++◌, ok, arith, length,
  get_or, tabulate, tabulate_shift, leb, ltb, ◌&&◌, add32, if_of_true,
}
use hsqueue.Message.{
  Message, Memory, multicast_packet, payload, get, get_write_position, set_type, set_timestamp,
  add_used,
}
use hsqueue.Steps.Copying.{Receiver, send_to}
use hsqueue.Steps.Multicast.{MulticastReceiver, store_bytes, handle_packet, after_add, sent_on}
use hsqueue.Steps.Copying.Room.{IsOpen}
use hsqueue.Steps.Multicast.Reads.{packets, packet_of}

tabulate-get_or : (bytes : List ℕ) → tabulate (λ i. get_or bytes i 0) 0 (length bytes) ≡ bytes
tabulate-get_or [] = refl
tabulate-get_or (b ∷ bytes) =
    ap (λ l. b ∷ l)
      (tabulate_shift (λ i. get_or (b ∷ bytes) i 0) (λ i. get_or bytes i 0) 1 0 (length bytes)
          (λ j lt. shifted j)
        ∙ tabulate-get_or bytes)
  where
    shifted : (j : ℕ) → get_or (b ∷ bytes) (1 + j) 0 ≡ get_or bytes (0 + j) 0
    shifted j =
        ap (λ k. get_or (b ∷ bytes) k 0) {y = suc j} (omega arith)
        ∙ sym (ap (λ k. get_or bytes k 0) {x = 0 + j} (omega arith))

-- The bytes that were stored are read.
pub stored :
    (bytes : List ℕ) (target : ℕ) (mem : Memory)
    → tabulate (store_bytes target bytes mem) target (length bytes) ≡ bytes
unfolding store_bytes
stored bytes target mem =
    tabulate_shift (store_bytes target bytes mem) (λ i. get_or bytes i 0) target 0 (length bytes)
      (λ j lt. stored_at j lt)
    ∙ tabulate-get_or bytes
  where
    stored_at :
        (j : ℕ)
        → j < length bytes
        → store_bytes target bytes mem (target + j) ≡ get_or bytes (0 + j) 0
    stored_at j lt =
        if_of_true {b = leb target (target + j) && ltb (target + j) (target + length bytes)} _ _
          (ground (arith, lt))
        ∙ ap (λ k. get_or bytes k 0) {x = target + j - target} {y = 0 + j} (omega arith)

-- The output message with the packet's type, time and bytes.
abbrev pub loaded : ℕ → ℕ → Message → Message
loaded now n out = record out { used = n; kind = multicast_packet; timestamp = now }

-- The step after the packet has come and before it is sent.
abbrev pub counted : ℕ → List ℕ → MulticastReceiver → MulticastReceiver
counted now bytes s = record s {
  reads = s.reads - 1;
  messages_received = add32 s.messages_received 1;
  world = record (s.world) {
    memory = store_bytes (get_write_position s.out_message) bytes s.world.memory;
  };
  out_message = record (s.out_message) { kind = multicast_packet; timestamp = now };
}

module _ (receiver : Receiver) (now : ℕ) (bytes : List ℕ) (s : MulticastReceiver) (size : ℕ)
    (o : IsOpen size s.out_message) (fits : length bytes ≤ size) where
  added :
      add_used 1 (set_timestamp (set_type s.out_message multicast_packet) now) (length bytes)
      ≡ ok (loaded now (length bytes) s.out_message)
  unfolding add_used set_type set_timestamp
  added =
      let v = o.valid in
      let e = o.emptied in
      let r = o.room in let f = fits in ground (arith, v.small, v.used_in, e, r, f)

  -- The packet is sent as one message, and the next read asked for.
  pub handle_packet_lem : handle_packet receiver now bytes s ≡ (
    ok tt,
    sent_on
        (counted now bytes s)
        (send_to receiver 0 (counted now bytes s).world (loaded now (length bytes) s.out_message)),
  )
  unfolding handle_packet set_type set_timestamp
  handle_packet_lem = ap (after_add receiver (counted now bytes s)) added

  pub sent_packet :
      packets
        (send_to receiver 0
          (counted now bytes s).world
          (loaded now (length bytes) s.out_message)).0.sent
      ≡ packets s.world.sent ++ packet_of now bytes ∷ []
  unfolding send_to payload get get_write_position
  sent_packet =
      let m = s.out_message in
      let here : m.container + m.offset ≡ m.container + m.offset + m.used =
        omega (arith, o.emptied) in
      map-append _ s.world.sent _
      ∙ ap (λ l. packets s.world.sent ++ packet_of now l ∷ [])
          (ap
              (λ a.
                tabulate (store_bytes (get_write_position m) bytes s.world.memory) a (length bytes))
              here
            ∙ stored bytes (get_write_position m) s.world.memory)
