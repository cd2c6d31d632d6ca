-- ===== src/Steps/Multicast/Link.antt =====
-- The sender of src/StepLibrary/MulticastSender.cpp with the receiver of MulticastReceiver.cpp at the
-- other end of the network.
use mathlib.Core.List.{append_assoc, append-nil}
use hsqueue.Base.{
  ℕ, suc, ◌+◌, ◌%◌, ◌≡◌, refl, sym, ap, ◌∙◌, Bool, not, true, false, List, [], ◌∷◌, ◌++◌, arith,
  if◌then◌else◌, if_of_false, Bool-cases, inl, inr, length, add32, w32,
}
use hsqueue.Message.{Message, MessageType, heartbeat, shutdown, Memory, payload}
use hsqueue.Steps.Copying.{Receiver}
use hsqueue.Steps.Copying.Room.{KeepsRoom}
use hsqueue.Steps.Multicast.{MulticastReceiver}
use hsqueue.Steps.Multicast.Reads.{Packet, packets, Reach}
use hsqueue.Steps.Multicast.Delivery.{IsFresh, Reach-IsDelivered}
use hsqueue.Steps.Multicast.Sender.{MulticastSender, is_sent, handle, handle_all}

-- What ends at the sender.
abbrev pub is_signal : MessageType → Bool
is_signal heartbeat = true
is_signal shutdown = true
is_signal _ = false

-- The contents of the messages that are neither heartbeats nor shutdowns.
abbrev pub contents : Memory → List Message → List (List ℕ)
contents mem [] = []
contents mem (m ∷ ms) =
    let rest = contents mem ms in if is_signal m.kind then rest else payload mem m ∷ rest

is_sent-is_signal : (kind : MessageType) → is_sent kind ≡ not (is_signal kind)
is_sent-is_signal kind = elim kind as (λ k. is_sent k ≡ not (is_signal k)) [
  | heartbeat ↦ refl
  | shutdown ↦ refl
  | _ ↦ refl
]

abbrev pub bytes_of : List Packet → List (List ℕ)
bytes_of [] = []
bytes_of (p ∷ ps) = p.bytes ∷ bytes_of ps

bytes_of-append : (l m : List Packet) → bytes_of (l ++ m) ≡ bytes_of l ++ bytes_of m
bytes_of-append [] m = refl
bytes_of-append (p ∷ ps) m = ap (λ l. p.bytes ∷ l) (bytes_of-append ps m)

length-bytes_of : (l : List Packet) → length (bytes_of l) ≡ length l
length-bytes_of [] = refl
length-bytes_of (p ∷ ps) = ap suc (length-bytes_of ps)

-- How many of them the socket refuses.
abbrev pub refused : (List ℕ → Bool) → List (List ℕ) → ℕ
refused fails [] = 0
refused fails (b ∷ bs) = let rest = refused fails bs in if fails b then suc rest else rest

record Sent (fails : List ℕ → Bool) (bodies : List (List ℕ)) (s s' : MulticastSender) : Type 0 where
  handed : s'.datagrams ≡ s.datagrams ++ bodies
  counted : s'.message_count % w32 ≡ (s.message_count + length bodies) % w32
  failed : s'.error_count % w32 ≡ (s.error_count + refused fails bodies) % w32

module _ (fails : List ℕ → Bool) (mem : Memory) where
  handle-sent :
      (s : MulticastSender) (m : Message)
      → is_signal m.kind ≡ false
      → let s' = handle fails mem s m in
        (s'.datagrams ≡ s.datagrams ++ payload mem m ∷ [])
        × (s'.message_count ≡ add32 s.message_count 1)
        × (s'.error_count
            ≡ (if fails (payload mem m) then add32 s.error_count 1 else s.error_count))
  unfolding handle
  handle-sent s m e = elim (Bool-cases (fails (payload mem m))) [
    | inl bad ↦ rw (is_sent-is_signal m.kind, e, bad) (refl, refl, refl)
    | inr good ↦ rw (is_sent-is_signal m.kind, e, good) (refl, refl, refl)
  ]

  handle-ignored :
      (s : MulticastSender) (m : Message) → is_signal m.kind ≡ true → handle fails mem s m ≡ s
  unfolding handle
  handle-ignored s m e = if_of_false _ _ (is_sent-is_signal m.kind ∙ ap not e)

  handle_all-Sent :
      (s : MulticastSender) (ms : List Message)
      → Sent fails (contents mem ms) s (handle_all fails mem s ms)
  handle_all-Sent s [] = record {
    handed = sym (append-nil s.datagrams);
    counted = omega arith;
    failed = omega arith;
  }
  handle_all-Sent s (m ∷ ms) = elim (Bool-cases (is_signal m.kind)) [
    | inl e ↦ rw (e, handle-ignored s m e) (handle_all-Sent s ms)
    | inr e ↦
        let (handed, counted, failed) = handle-sent s m e in
        let rest = handle_all-Sent (handle fails mem s m) ms in
        rw e (record {
          handed =
              rest.handed
              ∙ ap (λ d. d ++ contents mem ms) handed
              ∙ append_assoc s.datagrams (payload mem m ∷ []) (contents mem ms);
          counted = ground (arith, rest.counted, counted);
          failed = ground (arith, rest.failed, failed);
        })
  ]

  -- Where the packets that come are the datagrams that the socket was handed, none lost and none in
  -- another place, the receiver sends on the contents of the messages that the sender handled, in their
  -- order, but for heartbeats and shutdowns, whatever errors, pauses and stops come between; both ends
  -- count them modulo 2^32, and the sender counts the errors. The receiver's output message must have
  -- room for the packets, and its destination must keep it so.
  pub handle_all-Reach :
      (receiver : Receiver) (size : ℕ) (s0 : MulticastReceiver) (sender : MulticastSender)
      (ms : List Message) {log : List Packet} {s : MulticastReceiver}
      → KeepsRoom receiver size
      → sender.datagrams ≡ []
      → IsFresh size s0
      → Reach receiver size s0 log s
      → let sender' = handle_all fails mem sender ms in
        let bodies = contents mem ms in
        bytes_of log ≡ sender'.datagrams
        → (bytes_of (packets s.world.sent) ≡ bytes_of (packets s0.world.sent) ++ bodies)
          × (s.messages_received % w32 ≡ (s0.messages_received + length bodies) % w32)
          × (sender'.message_count % w32 ≡ (sender.message_count + length bodies) % w32)
          × (sender'.error_count % w32 ≡ (sender.error_count + refused fails bodies) % w32)
  handle_all-Reach receiver size s0 sender ms {log} {s} keeps none fresh run whole =
      let sent = handle_all-Sent sender ms in
      let h = Reach-IsDelivered receiver size keeps s0 fresh run in
      let same : bytes_of log ≡ contents mem ms =
        whole ∙ sent.handed ∙ ap (λ d. d ++ contents mem ms) none in
      let as_many : length log ≡ length (contents mem ms) =
        sym (length-bytes_of log) ∙ ap length same in
      (
        ap bytes_of h.sends
            ∙ bytes_of-append (packets s0.world.sent) log
            ∙ ap (λ l. bytes_of (packets s0.world.sent) ++ l) same,
        h.counts ∙ ap (λ n. (s0.messages_received + n) % w32) as_many,
        sent.counted,
        sent.failed,
      )
