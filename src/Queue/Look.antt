-- ===== src/Queue/Look.antt =====
-- What `canPublish` of src/HighQueue/Producer.cpp finds at the publish position of a queue.
use hsqueue.Base.{◌+◌, ◌≤◌, ◌<◌, ◌≡◌, Bool, not, ◌&&◌, ◌||◌, arith, ltb, if◌then◌else◌, w64}
use hsqueue.Queue.Header.{Header}
use hsqueue.Queue.Producer.{Producer, can_publish}
use hsqueue.Queue.Window.{ring, IsValid}

-- What a producer remembers of the queue never promises room that is not there.
pub record Knows (p : Producer) (h : Header) : Type 0 where
  pub same_count : p.entry_count ≡ h.entry_count
  pub within : p.publishable ≤ h.read_position + h.entry_count

-- No position wraps soon.
abbrev pub IsEarly : Header → Type 0
IsEarly h = h.publish_position + h.entry_count + 1 < w64

abbrev pub has_room : Header → Bool
has_room h = ltb h.publish_position (h.read_position + h.entry_count)

abbrev pub may_discard : Producer → Header → Bool
may_discard p h = p.discard_messages_if_no_consumer && not h.consumer_present

-- The header that `canPublish` leaves: with everything read, where it discards.
abbrev pub made_room : Producer → Header → Header
made_room p h =
    if has_room h
    then h
    else if may_discard p h
    then record h { read_position = h.publish_position }
    else h

-- What a look at the publish position gives: whether the queue has room, or made it by discarding
-- what is in the queue, if that is asked for and no consumer is attached.
pub record Looked (p : Producer) (h : Header) (r : Bool × Producer × Header) : Type 0 where
  pub answer : r.0 ≡ (has_room h || may_discard p h)
  pub left : r.2 ≡ made_room p h
  pub knows : Knows r.1 r.2
  pub stopping : r.1.stopping ≡ p.stopping
  pub solo : r.1.solo ≡ p.solo
  pub mutex : r.1.consumer_uses_mutex ≡ p.consumer_uses_mutex
  pub strategy : r.1.wait_strategy ≡ p.wait_strategy
  pub discards : r.1.discard_messages_if_no_consumer ≡ p.discard_messages_if_no_consumer

-- `canPublish` at the publish position of a valid queue is true exactly if the queue has room or its
-- contents may be discarded, though the producer looks at a stale limit first; it changes the header
-- only where it discards, and then so that all is read; and the producer's limit stays sound.
pub can_publish_lem :
    (p : Producer) (h : Header)
    → IsValid (ring h)
    → Knows p h
    → IsEarly h
    → Looked p h (can_publish p h h.publish_position)
unfolding can_publish
can_publish_lem p h v k early = record {
  answer = ground arith;
  left = ground arith;
  knows = ground arith;
  stopping = ground arith;
  solo = ground arith;
  mutex = ground arith;
  strategy = ground arith;
  discards = ground arith;
}
