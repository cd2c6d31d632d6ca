-- ===== src/Steps/Joined.antt =====
-- Two pipelines joined by a queue: src/StepLibrary/SendToQueue.cpp at the end of one, InputQueue.cpp at
-- the start of the other.
use hsqueue.Base.{
  ℕ, suc, ◌+◌, ◌≤◌, ◌<◌, ◌≡◌, refl, sym, ap, ◌∙◌, false, List, [], ◌∷◌, ◌++◌, some, length,
  length-append, All, arith, w64, if_of_true, if_of_false,
}
use mathlib.Core.List.{append-nil, append_assoc}
use hsqueue.Message.{Message}
use hsqueue.Queue.Header.{Header}
use hsqueue.Queue.Producer
use hsqueue.Queue.Producer.{Producer, Tick, Progress, finished, thrown, still_waiting, publish}
use hsqueue.Queue.Consumer.{Consumer}
use hsqueue.Queue.Window.{ring, contents, length-contents}
use hsqueue.Queue.Window
use hsqueue.Queue.Look
use hsqueue.Queue.Look.{has_room}
use hsqueue.Queue.Round.{Finishes}
use hsqueue.Queue.Publish.{Published, publish_lem}
use hsqueue.Queue.Fifo.{has_room_of_length}
use hsqueue.Queue.Waiting.{IsStop}
use hsqueue.Steps.Send.{Destination}
use hsqueue.Steps.SendToQueue.{
  SendToQueue, State, is_shutdown, after_publish, handle, handle_all, then_handle,
}
use hsqueue.Steps.InputQueue.{Running, run}
use hsqueue.Steps.InputQueue.Relay.{IsOpen, rounds, run_lem}

-- A step that was started, with its queue in order.
pub record IsStarted (s : SendToQueue) (h : Header) (p : Producer) : Type 0 where
  pub attached : s.producer ≡ some p
  pub valid : Window.IsValid (ring h)
  pub knows : Look.Knows p h
  pub going : p.stopping ≡ false

-- What a run of messages leaves.
record Appended (s : SendToQueue) (h : Header) (ms : List Message) (r : Progress State)
    : Type 0 where
  left_step : SendToQueue
  left_header : Header
  left_message : Message
  done : r ≡ finished (left_step, left_header, left_message)
  valid : Window.IsValid (ring left_header)
  appended : contents (ring left_header) ≡ contents (ring h) ++ ms
  next : left_header.publish_position ≡ h.publish_position + length ms

handle-Appended :
    (rounds : ℕ) (t : Tick) (ts : List Tick) (s : SendToQueue) (h : Header) (p : Producer)
    (m : Message)
    → IsStarted s h p
    → Look.IsEarly h
    → is_shutdown m.kind ≡ false
    → length (contents (ring h)) < h.entry_count
    → (p' : Producer) × (s' : SendToQueue) × (h' : Header) × (m' : Message) × (handle
          (suc rounds)
          (t ∷ ts)
          s.producer
          s
          h
          m
        ≡ finished (s', h', m'))
      × IsStarted s' h' p'
      × (contents (ring h') ≡ contents (ring h) ++ m ∷ [])
      × (h'.publish_position ≡ h.publish_position + 1)
      × (h'.entry_count ≡ h.entry_count)
unfolding handle
handle-Appended rounds t ts s h p m k early plain free =
    let room = has_room_of_length h k.valid free in
    finish _ refl (
      publish_lem rounds t ts (record { producer = p; header = h; message = m }) k.valid k.knows
        early k.going (ground (arith, room)))
  where
    finish :
        (r : Progress Producer.Scene)
        → publish (suc rounds) (t ∷ ts) (record { producer = p; header = h; message = m }) ≡ r
        → Finishes (Published h m p.consumer_uses_mutex) r
        → (p' : Producer) × (s' : SendToQueue) × (h' : Header) × (m' : Message) × (handle
              (suc rounds)
              (t ∷ ts)
              s.producer
              s
              h
              m
            ≡ finished (s', h', m'))
          × IsStarted s' h' p'
          × (contents (ring h') ≡ contents (ring h) ++ m ∷ [])
          × (h'.publish_position ≡ h.publish_position + 1)
          × (h'.entry_count ≡ h.entry_count)
    finish (finished c) e pub_ = (
      c.producer,
      record s { producer = some c.producer },
      c.header,
      c.message,
      ap (λ o. handle (suc rounds) (t ∷ ts) o s h m) k.attached
          ∙ ap (after_publish m.kind s) e
          ∙ ap (λ q. finished (q, c.header, c.message)) (if_of_false _ _ plain),
      record { attached = refl; valid = pub_.valid; knows = pub_.knows; going = pub_.going },
      pub_.appended ∙ ap (λ l. l ++ m ∷ []) (if_of_true _ _ (has_room_of_length h k.valid free)),
      pub_.next,
      pub_.count,
    )
    finish (thrown e' c) e bad = absurd bad
    finish (still_waiting c) e bad = absurd bad

-- Messages other than shutdowns, for which the queue has room, are published one after the other.
handle_all-Appended :
    (n : ℕ) (t : Tick) (ts : List Tick) (ms : List Message) (s : SendToQueue) (h : Header)
    (p : Producer)
    → IsStarted s h p
    → All (λ (m : Message). is_shutdown m.kind ≡ false) ms
    → length (contents (ring h)) + length ms ≤ h.entry_count
    → h.publish_position + length ms + h.entry_count + 1 < w64
    → Appended s h ms (handle_all (suc n) (t ∷ ts) s h ms)
unfolding handle_all
handle_all-Appended n t ts [] s h p k plain room early = record {
  left_step = s;
  left_header = h;
  left_message = _;
  done = refl;
  valid = k.valid;
  appended = sym (append-nil _);
  next = omega arith;
}
handle_all-Appended n t ts (m ∷ ms) s h p k (first, plain) room early =
    let (p', s', h', m', e, k', added, next, count) =
      handle-Appended n t ts s h p m k (omega arith) first (omega arith) in
    let longer : length (contents (ring h')) ≡ length (contents (ring h)) + 1 =
      ap length added ∙ length-append (contents (ring h)) (m ∷ []) in
    let rest =
      handle_all-Appended n t ts ms s' h' p' k' plain (omega (arith, longer, count, room))
        (omega (arith, next, count, early)) in
    record {
      left_step = rest.left_step;
      left_header = rest.left_header;
      left_message = rest.left_message;
      done = ap (λ r. then_handle r (λ q g. handle_all (suc n) (t ∷ ts) q g ms)) e ∙ rest.done;
      valid = rest.valid;
      appended =
          rest.appended ∙ ap (λ l. l ++ ms) added ∙ append_assoc (contents (ring h)) (m ∷ []) ms;
      next = omega (arith, rest.next, next);
    }

-- A step that sends to a queue is handed messages that are no shutdowns and for which the queue has
-- room; then the step that reads the queue runs, with a round for each message in the queue, and `stop`
-- is called. Both return, and what the second sends to its destination is what was in the queue and
-- then the messages, in their order; the queue is empty.
pub run-handle_all :
    (receive : Destination) (n : ℕ) (t stops : Tick) (ts : List Tick) (ms : List Message)
    (s : SendToQueue) (h : Header) (p : Producer) (c : Consumer) (r : Running)
    → IsStop stops
    → IsStarted s h p
    → IsOpen c r
    → r.header ≡ h
    → All (λ (m : Message). is_shutdown m.kind ≡ false) ms
    → length (contents (ring h)) + length ms ≤ h.entry_count
    → h.publish_position + length ms + h.entry_count + 1 < w64
    → (s' : SendToQueue) × (h' : Header) × (m' : Message) × (r' : Running) × (handle_all
          (suc n)
          (t ∷ ts)
          s
          h
          ms
        ≡ finished (s', h', m'))
      × (run receive (rounds (length (contents (ring h) ++ ms)) t stops) (record r { header = h' })
          ≡ finished r')
      × (r'.sent ≡ r.sent ++ (contents (ring h) ++ ms))
      × (contents (ring r'.header) ≡ [])
run-handle_all receive n t stops ts ms s h p c r halts k o same plain room early =
    let a = handle_all-Appended n t ts ms s h p k plain room early in
    let (r', done, sent, empty, halted) =
      run_lem receive t stops (contents (ring h) ++ ms) c (record r { header = a.left_header })
        halts
        (record {
          attached = o.attached;
          going = o.going;
          calm = record {
            valid = a.valid;
            knows =
                omega (arith, a.next, o.calm.knows, ap (λ (g : Header). g.publish_position) same);
            early = omega (arith, a.next, early);
            going = o.calm.going;
          };
        })
        a.appended in
    (a.left_step, a.left_header, a.left_message, r', a.done, done, sent, empty)
