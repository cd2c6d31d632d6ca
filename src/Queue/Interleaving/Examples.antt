-- ===== src/Queue/Interleaving/Examples.antt =====
-- Two producers and the consumer on a queue with two entries, access by access.
use hsqueue.Base.{ℕ, ◌*◌, ◌%◌, get_or, ◌≡◌, refl, List, [], ◌∷◌, map, arith, suc, zero}
use hsqueue.Message.{Message, blank, move_to}
use hsqueue.Queue.Header.{Entry, blank_entry, empty}
use hsqueue.Queue.Window.{IsValid}
use hsqueue.Queue.Interleaving.{
  System, Move, publish, produce, peek, get, consume, run, start, produce_at, consume_at,
}
use hsqueue.Queue.Interleaving.Order.{ring_of}
use hsqueue.Queue.Interleaving.Safety.{IsSafe, run-IsSafe}

abbrev numbered : ℕ → Message
numbered n = record blank { sequence = n; container = 100 * n }

abbrev entries : List Entry
entries = blank_entry ∷ blank_entry ∷ []

-- Producer 1 spins for the lock while producer 0 writes; then the queue is full for the third message
-- until the consumer has taken one.
abbrev schedule : List Move
schedule =
    publish 0 (numbered 1)
    ∷ publish 1 (numbered 2)
    ∷ produce 0
    ∷ produce 1
    ∷ produce 0
    ∷ produce 0
    ∷ get blank
    ∷ consume
    ∷ produce 0
    ∷ get blank
    ∷ consume
    ∷ produce 0
    ∷ produce 1
    ∷ produce 1
    ∷ produce 1
    ∷ produce 1
    ∷ produce 1
    ∷ publish 0 (numbered 3)
    ∷ produce 0
    ∷ produce 0
    ∷ peek 0
    ∷ consume
    ∷ consume
    ∷ produce 0
    ∷ produce 0
    ∷ produce 0
    ∷ produce 0
    ∷ produce 0
    ∷ []

last : System
last = run schedule (start entries 2 2)

written_in_order : map (λ (m : Message). m.sequence) last.published ≡ 1 ∷ 2 ∷ 3 ∷ []
unfolding last run produce_at consume_at
written_in_order = refl

received_first : map (λ (m : Message). m.sequence) last.got ≡ 1 ∷ []
unfolding last run produce_at consume_at move_to
received_first = refl

blank_status : (i : ℕ) → (get_or entries i blank_entry).status ≡ empty
blank_status zero = refl
blank_status (suc zero) = refl
blank_status (suc (suc i)) = refl

empty_queue : IsValid (ring_of (start entries 2 2) 2 2)
empty_queue = record {
  some_entries = omega arith;
  sized = refl;
  ordered = omega arith;
  bounded = omega arith;
  no_skip = λ i bad. cc (blank_status (i % 2), bad);
  ready = λ i lo hi. absurd (omega arith);
}

run-IsSafe_example : IsSafe (run schedule (start entries 2 2))
run-IsSafe_example = run-IsSafe entries 2 2 schedule empty_queue (omega arith)
