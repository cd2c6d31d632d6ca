-- ===== src/Steps/Multicast/Delivery.antt =====
-- What src/StepLibrary/MulticastReceiver.cpp has sent, and which calls it has made, at every moment.
use mathlib.Core.List.{append_assoc, append-nil}
use hsqueue.Base.{
  ℕ, ◌+◌, ◌%◌, ◌≤◌, ◌<◌, ◌≡◌, refl, sym, ap, ◌∙◌, subst, Bool, true, false, List, [], ◌∷◌, ◌++◌,
  arith, length, length-append, w32, Result, if_of_true, if_of_false, Bool-cases, inl, inr,
}
use hsqueue.Message.Bounds.{IsValid}
use hsqueue.Steps.Asio
use hsqueue.Steps.Copying.{Receiver, send_to}
use hsqueue.Steps.Multicast.{
  MulticastReceiver, SocketCall, join_group, leave_group, receive, cancel, start, start_read,
  handle_packet, handle_error, pause, resume, stop,
}
use hsqueue.Steps.Copying.Room.{IsOpen, KeepsRoom}
use hsqueue.Steps.Multicast.Reads.{
  Packet, packets, packet_of, in_group, Reach, started, packet, failed, paused, resumed, stopped,
}
use hsqueue.Steps.Multicast.Receiving.{loaded, counted, handle_packet_lem, sent_packet}

-- A step that has not started.
pub record IsFresh (size : ℕ) (s : MulticastReceiver) : Type 0 where
  pub open_message : IsOpen size s.out_message
  pub no_calls : s.calls ≡ []
  pub no_reads : s.reads ≡ 0

-- The packets were sent in the order in which they came, and counted; at most one read waits for an
-- answer; and the step knows whether its socket is in the group.
pub record IsDelivered (size : ℕ) (s0 : MulticastReceiver) (log : List Packet)
    (s : MulticastReceiver) : Type 0 where
  pub open_message : IsOpen size s.out_message
  pub sends : packets s.world.sent ≡ packets s0.world.sent ++ log
  pub counts : s.messages_received % w32 ≡ (s0.messages_received + length log) % w32
  pub one_read : s.reads ≤ 1
  pub group : in_group false s.calls ≡ s.joined

in_group-append :
    (now : Bool) (calls : List SocketCall) (more : List SocketCall)
    → in_group now (calls ++ more) ≡ in_group (in_group now calls) more
in_group-append now [] more = refl
in_group-append now (SocketCall.open_socket ∷ calls) more = in_group-append now calls more
in_group-append now (SocketCall.reuse_address ∷ calls) more = in_group-append now calls more
in_group-append now (SocketCall.bind_to a p ∷ calls) more = in_group-append now calls more
in_group-append now (join_group g l ∷ calls) more = in_group-append true calls more
in_group-append now (leave_group g l ∷ calls) more = in_group-append false calls more
in_group-append now (receive ∷ calls) more = in_group-append now calls more
in_group-append now (cancel ∷ calls) more = in_group-append now calls more

module _ (receiver : Receiver) (size : ℕ) (keeps : KeepsRoom receiver size)
    (s0 : MulticastReceiver) where
  abbrev Inv : List Packet → MulticastReceiver → Type 0
  Inv log s = IsDelivered size s0 log s

  start_read-Inv :
      (log : List Packet) (s : MulticastReceiver) → Inv log s → s.reads ≡ 0 → Inv log (start_read s)
  unfolding start_read
  start_read-Inv log s h none = elim (Bool-cases s.stopping) [
    | inl over ↦ subst (Inv log) (sym (if_of_true _ _ over)) h
    | inr going ↦ subst (Inv log) (sym (if_of_false _ _ going)) (record {
      open_message = h.open_message;
      sends = h.sends;
      counts = h.counts;
      one_read = omega (arith, none);
      group = in_group-append false s.calls (receive ∷ []) ∙ h.group;
    })
  ]

  start-Inv : IsFresh size s0 → Inv [] (start s0)
  unfolding start
  start-Inv f =
      start_read-Inv [] starting
        (record {
          open_message = f.open_message;
          sends = sym (append-nil _);
          counts =
              ap (λ n. n % w32) {x = s0.messages_received} {y = s0.messages_received + 0}
                (omega arith);
          one_read = omega (arith, f.no_reads);
          group = in_group-append false s0.calls _;
        })
        f.no_reads
    where
      starting : MulticastReceiver
      starting = record s0 {
        asio = Asio.start s0.asio;
        calls =
            s0.calls
            ++ SocketCall.open_socket
              ∷ SocketCall.reuse_address
              ∷ SocketCall.bind_to s0.bind_address s0.parameters.port
              ∷ join_group s0.group_address s0.listen_address
              ∷ [];
        joined = true;
      }

  packet-Inv :
      (log : List Packet) (s : MulticastReceiver) (now : ℕ) (bytes : List ℕ)
      → Inv log s
      → 0 < s.reads
      → length bytes ≤ size
      → Inv (log ++ packet_of now bytes ∷ []) (handle_packet receiver now bytes s).1
  unfolding send_to
  packet-Inv log s now bytes h some_read fits =
      let o = h.open_message in
      let w = (counted now bytes s).world in
      let v = o.valid in
      let e = o.emptied in
      let room = o.room in
      let out = loaded now (length bytes) s.out_message in
      let loaded_valid : IsValid out = record {
        read_in = omega (arith, v.read_in, e);
        used_in = omega (arith, fits, room);
        small = v.small;
      } in
      subst (λ (r : Result {0} Unit × MulticastReceiver). Inv (log ++ packet_of now bytes ∷ []) r.1)
        (sym (handle_packet_lem receiver now bytes s size o fits))
        (start_read-Inv (log ++ packet_of now bytes ∷ []) _
          (record {
            open_message = keeps 0 w.sent w.memory out loaded_valid o.room;
            sends =
                sent_packet receiver now bytes s size o fits
                ∙ ap (λ l. l ++ packet_of now bytes ∷ []) h.sends
                ∙ append_assoc (packets s0.world.sent) log (packet_of now bytes ∷ []);
            counts = omega (arith, h.counts, length-append log (packet_of now bytes ∷ []));
            one_read = omega (arith, h.one_read);
            group = h.group;
          })
          (omega (arith, h.one_read)))

  pause-Inv : (log : List Packet) (s : MulticastReceiver) → Inv log s → Inv log (pause s)
  unfolding pause
  pause-Inv log s h = elim (Bool-cases s.joined) [
    | inl here ↦ subst (Inv log) (sym (if_of_true _ _ here)) (record {
      open_message = h.open_message;
      sends = h.sends;
      counts = h.counts;
      one_read = h.one_read;
      group = in_group-append false s.calls (leave_group s.group_address s.listen_address ∷ []);
    })
    | inr gone ↦ subst (Inv log) (sym (if_of_false _ _ gone)) (record {
      open_message = h.open_message;
      sends = h.sends;
      counts = h.counts;
      one_read = h.one_read;
      group = h.group;
    })
  ]

  resume-Inv : (log : List Packet) (s : MulticastReceiver) → Inv log s → Inv log (resume s)
  unfolding resume
  resume-Inv log s h = elim (Bool-cases s.joined) [
    | inl here ↦ subst (Inv log) (sym (if_of_true _ _ here)) (record {
      open_message = h.open_message;
      sends = h.sends;
      counts = h.counts;
      one_read = h.one_read;
      group = h.group;
    })
    | inr gone ↦ subst (Inv log) (sym (if_of_false _ _ gone)) (record {
      open_message = h.open_message;
      sends = h.sends;
      counts = h.counts;
      one_read = h.one_read;
      group = in_group-append false s.calls (join_group s.group_address s.listen_address ∷ []);
    })
  ]

  -- However packets, errors, pauses, resumptions and stops follow one another once the receiver has
  -- started: every packet that came was sent on, once, in the order in which they came, with its bytes,
  -- its type and its time; the packets are counted, modulo 2^32; at most one read is waiting for an
  -- answer; and the step says that it has joined exactly when its calls have left the socket in the
  -- group. The output message must have room for the packets, and the destination must keep it so.
  pub Reach-IsDelivered :
      {log : List Packet} {s : MulticastReceiver}
      → IsFresh size s0
      → Reach receiver size s0 log s
      → IsDelivered size s0 log s
  unfolding handle_error stop
  Reach-IsDelivered f started = start-Inv f
  Reach-IsDelivered f (packet {log} {s = s} now bytes r some_read fits e) =
      subst (λ l. Inv l (handle_packet receiver now bytes s).1) (sym e)
        (packet-Inv log s now bytes (Reach-IsDelivered f r) some_read fits)
  Reach-IsDelivered f (failed r some_read) =
      let h = Reach-IsDelivered f r in
      record {
        open_message = h.open_message;
        sends = h.sends;
        counts = h.counts;
        one_read = omega (arith, h.one_read);
        group = h.group;
      }
  Reach-IsDelivered f (paused {log} {s} r) = pause-Inv log s (Reach-IsDelivered f r)
  Reach-IsDelivered f (resumed {log} {s} r) = resume-Inv log s (Reach-IsDelivered f r)
  Reach-IsDelivered f (stopped {s = s} r) =
      let h = Reach-IsDelivered f r in
      record {
        open_message = h.open_message;
        sends = h.sends;
        counts = h.counts;
        one_read = h.one_read;
        group = in_group-append false s.calls (cancel ∷ []) ∙ h.group;
      }
