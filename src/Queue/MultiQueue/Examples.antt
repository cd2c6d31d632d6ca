-- ===== src/Queue/MultiQueue/Examples.antt =====
-- Two queues read through one consumer, with a message each.
use hsqueue.Base.{
  ℕ, zero, suc, ◌≤◌, ◌%◌, ◌≡◌, ◌≢◌, refl, ap, false, List, [], ◌∷◌, ◌++◌, length, get_or, arith,
}
use hsqueue.Message.{blank}
use hsqueue.Queue.Header.{Header, Entry, filled, skip, blank_entry}
use hsqueue.Queue.Consumer.{new_consumer}
use hsqueue.Queue.Fixture.{header, message}
use hsqueue.Queue.MultiQueue.{Source, MultiQueue, make_multi_queue, add_queue, multi_try_get_next}
use hsqueue.Queue.MultiQueue.Round.{IsCalm, view, poll_from, Polled}
use hsqueue.Queue.MultiQueue.Polling.{multi_try_get_next_lem}
use hsqueue.Queue.MultiQueue.Draining.{collect, all_of, collect_lem}

abbrev entries : ℕ → List Entry
entries n = record { message = message n; status = filled } ∷ blank_entry ∷ []

abbrev holding : ℕ → Header
holding n = record header { entries = entries n; publish_position = 3 }

abbrev source : ℕ → Source
source n = record { consumer = new_consumer (holding n); header = holding n }

abbrev queues : MultiQueue
unfolding add_queue
queues = add_queue (add_queue make_multi_queue (source 5)) (source 3)

entries-ne-skip : (n i : ℕ) → (get_or (entries n) i blank_entry).status ≢ skip
entries-ne-skip n zero e = cc e
entries-ne-skip n (suc zero) e = cc e
entries-ne-skip n (suc (suc i)) e = cc e

source-IsCalm : (n : ℕ) → IsCalm (source n)
source-IsCalm n = record {
  valid = record {
    some_entries = omega arith;
    sized = refl;
    ordered = omega arith;
    bounded = omega arith;
    no_skip = λ i. entries-ne-skip n (i % 2);
    ready = λ i lo hi.
        let first : i ≡ 2 = omega (arith, lo, hi) in
        ap (λ j. (get_or (entries n) (j % 2) blank_entry).status) first;
  };
  knows = omega arith;
  early = omega arith;
}

multi_try_get_next_lem_example :
    let r = multi_try_get_next queues blank in
    Polled (poll_from 2 0 2 (view queues.sources)) blank (r.0, r.1.sources, r.2)
    × (r.1.position ≡ 0)
    × (r.1.stopping ≡ false)
unfolding add_queue queues
multi_try_get_next_lem_example =
    multi_try_get_next_lem queues blank refl (source-IsCalm 5, (source-IsCalm 3, tt))

collect_lem_example :
    ((collect 2 queues blank).0 ++ all_of (collect 2 queues blank).1 ≡ all_of queues)
    × (length (all_of queues) ≤ 2 → all_of (collect 2 queues blank).1 ≡ [])
unfolding add_queue queues
collect_lem_example = collect_lem 2 queues blank refl refl (source-IsCalm 5, (source-IsCalm 3, tt))
