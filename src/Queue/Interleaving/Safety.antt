-- ===== src/Queue/Interleaving/Safety.antt =====
-- What no schedule of several producers and the consumer of src/HighQueue can break.
use hsqueue.Base.{
  ℕ, ◌+◌, ◌-◌, ◌%◌, ◌≤◌, ◌<◌, ◌≡◌, ◌≢◌, refl, sym, List, ◌++◌, w64, arith, length, subst, ap,
  tabulate, get_or,
}
use hsqueue.Message.{Message}
use hsqueue.Queue.Header.{Entry, blank_entry}
use hsqueue.Queue.Window.{IsValid, contents, length-contents, mod_apart}
use hsqueue.Queue.Interleaving.{allowed, seen, System, Move, run, start}
use hsqueue.Queue.Interleaving.Order.{ring_of, ProducerAgrees, ConsumerAgrees, Agrees}
use hsqueue.Queue.Interleaving.Invariant.{run-Agrees}

-- The consumer has received a first part of what was written, in order, and at most as much as there
-- are entries is missing; only one producer may write; and it does not write to the entry from which
-- the consumer is about to take a message.
pub record IsSafe (s : System) : Type 0 where
  pub in_order : (l : List Message) × (s.published ≡ s.got ++ l) × (length l ≤ s.entry_count)
  pub one_writer :
      (i j : ℕ) (m n : Message) (p q : ℕ)
      → s.producers i ≡ allowed m p
      → s.producers j ≡ allowed n q
      → i ≡ j
  pub apart :
      (i : ℕ) (m n : Message) (p q : ℕ)
      → s.producers i ≡ allowed m p
      → s.consumer ≡ seen n q
      → p % s.entry_count ≢ q % s.entry_count

module _ {s : System} {head tail : ℕ} (a : Agrees s head tail) where
  writer :
      (i : ℕ) (m : Message) (p : ℕ)
      → s.producers i ≡ allowed m p
      → ProducerAgrees (allowed m p) i s tail
  writer i m p e = subst (λ o. ProducerAgrees o i s tail) e (a.producer i)

  taker : (m : Message) (p : ℕ) → s.consumer ≡ seen m p → ConsumerAgrees (seen m p) s head
  taker m p e = subst (λ o. ConsumerAgrees o s head) e a.consumer

  Agrees-IsSafe : IsSafe s
  Agrees-IsSafe = record {
    in_order = (
      contents (ring_of s head tail),
      a.history,
      omega (arith, length-contents (ring_of s head tail), a.valid.bounded),
    );
    one_writer = λ i j m n p q e f. ground (arith, (writer i m p e).0, (writer j n q f).0);
    apart = λ i m n p q e f same.
        let (_, t, here, below) = writer i m p e in
        let (h, there, behind) = taker n q f in
        mod_apart s.entry_count q p a.valid.some_entries (omega (arith, here, there))
          (omega (arith, there, below)) (sym same);
  }

start-Agrees :
    (entries : List Entry) (entry_count position : ℕ)
    → IsValid (ring_of (start entries entry_count position) position position)
    → Agrees (start entries entry_count position) position position
unfolding contents
start-Agrees entries entry_count position v = record {
  valid = v;
  history = sym (
      ap (tabulate (λ i. (get_or entries (i % entry_count) blank_entry).message) position)
        none_held);
  producer = λ i. tt;
  unlocked = λ _. refl;
  consumer = refl;
  limit = λ i. omega arith;
  cached = omega arith;
  read_le = omega arith;
  publish_le = omega arith;
  tail_le = omega arith;
}
  where
    none_held : position - position ≡ 0
    none_held = omega arith

-- From a valid empty queue, under every schedule of any number of producers that publish and a consumer
-- that gets, short enough that positions do not wrap: messages are received in the order in which
-- they were written and none is lost or doubled, two producers never write at once, and no producer
-- writes to the entry from which the consumer is about to take a message.
pub run-IsSafe :
    (entries : List Entry) (entry_count position : ℕ) (xs : List Move)
    → IsValid (ring_of (start entries entry_count position) position position)
    → position + entry_count + 2 + length xs < w64
    → IsSafe (run xs (start entries entry_count position))
run-IsSafe entries entry_count position xs v room =
    let (head, tail, a) =
      run-Agrees xs (start entries entry_count position)
        (start-Agrees entries entry_count position v) room in
    Agrees-IsSafe a
