-- ===== src/Queue/Fixture.antt =====
-- A queue with two entries, set up with one producer and a consumer, for the examples.
use hsqueue.Base.{ℕ, zero, suc, ◌∷◌, ◌≡◌, refl, List, [], true, false, arith, get_or}
use hsqueue.Message.{Message, blank}
use hsqueue.Wait.{WaitStrategy}
use hsqueue.Queue.Header.{Header, Entry, Parameters, empty, blank_entry, new_header}
use hsqueue.Queue.Producer.{Producer, make_producer}
use hsqueue.Queue.Consumer.{new_consumer}
use hsqueue.Queue.Fifo.{System}
use hsqueue.Queue.Setup.{Started, new_header-Started}

abbrev pub strategy : WaitStrategy
strategy = record {
  spin_count = 1;
  yield_count = 1;
  sleep_count = 1;
  sleep_period = 10;
  mutex_wait_timeout = 1000;
  mutex_used = true;
}

abbrev pub parameters : Parameters
parameters = record {
  producer_wait_strategy = strategy;
  consumer_wait_strategy = strategy;
  discard_messages_if_no_consumer = false;
  entry_count = 2;
  message_size = 16;
  message_count = 8;
}

abbrev pub two_entries : List Entry
two_entries = blank_entry ∷ blank_entry ∷ []

abbrev pub header : Header
header = record (new_header [] parameters two_entries) {
  producers_present = 1;
  consumer_present = true;
}

abbrev pub producer : Producer
producer = record {
  solo = false;
  stopping = false;
  entry_count = 2;
  wait_strategy = strategy;
  consumer_uses_mutex = true;
  discard_messages_if_no_consumer = false;
  publishable = 0;
  stats = record {
    fulls = 0;
    discards = 0;
    skips = 0;
    publishes = 0;
    spins = 0;
    yields = 0;
    sleeps = 0;
    waits = 0;
  };
}

abbrev pub system : System
system = record { producer = producer; consumer = new_consumer header; header = header }

pub two_empty : (i : ℕ) → (get_or two_entries i blank_entry).status ≡ empty
two_empty zero = refl
two_empty (suc zero) = refl
two_empty (suc (suc i)) = refl

pub system-Started : Started parameters system
unfolding make_producer
system-Started =
    new_header-Started [] parameters two_entries false 0 (omega arith)
      (record { sized = refl; empties = two_empty })

abbrev pub message : ℕ → Message
message n = record blank { used = 8; sequence = n }
