-- ===== src/Queue/MultiQueue.antt =====
-- src/HighQueue/MultiQueueConsumer.cpp: several queues read through one consumer. Each queue keeps
-- its own header, so a consumer and its header go together here.
mod Round
mod Polling
mod Draining
mod Examples
use hsqueue.Base.{
  ℕ, zero, suc, ◌+◌, ◌%◌, Bool, true, false, List, [], ◌∷◌, ◌++◌, Option, none, some, get_elem?,
  set, length, if◌then◌else◌, add64, map,
}
use hsqueue.Message.{Message}
use hsqueue.Queue.Header.{Header}
use hsqueue.Queue.Consumer
use hsqueue.Queue.Consumer.{Consumer, try_get_next}

pub record Source : Type 0 where
  pub consumer : Consumer
  pub header : Header

pub record MultiQueue : Type 0 where
  pub sources : List Source
  pub position : ℕ
  pub stopping : Bool

abbrev pub make_multi_queue : MultiQueue
make_multi_queue = record { sources = []; position = 0; stopping = false }

-- `addQueue`, with the consumer that the constructor gave.
unfoldable pub add_queue : MultiQueue → Source → MultiQueue
add_queue q s = record q { sources = q.sources ++ s ∷ [] }

unfoldable pub stop : MultiQueue → MultiQueue
stop q = record q {
  stopping = true;
  sources = map (λ (s : Source). record s { consumer = Consumer.stop s.consumer }) q.sources;
}

-- `nextConsumer`, which nothing calls.
unfoldable pub next_consumer : MultiQueue → ℕ × MultiQueue
next_consumer q =
    let next = add64 q.position 1 % length q.sources in (next, record q { position = next })

-- One turn of the loop of `tryGetNext`: the queue at `at` is asked.
abbrev pub ask : List Source → ℕ → Message → Bool × List Source × Message
ask sources at m =
    let looked : Option Source = get_elem? sources at in
    elim looked [
      | none ↦ (false, sources, m)
      | some s ↦
          let (found, s') =
            try_get_next (record { consumer = s.consumer; header = s.header; message = m }) in
          (
            found,
            set sources at (record { consumer = s'.consumer; header = s'.header }),
            s'.message,
          )
    ]

-- The loop of `tryGetNext`, `turns` positions from `pos` on.
abbrev pub ask_from : ℕ → ℕ → ℕ → List Source → Message → Bool × List Source × Message
ask_from zero pos size sources m = (false, sources, m)
ask_from (suc turns) pos size sources m =
    let (found, sources', m') = ask sources (pos % size) m in
    let rest = ask_from turns (pos + 1) size sources' m' in
    if found then (true, sources', m') else rest

unfoldable pub multi_try_get_next : MultiQueue → Message → Bool × MultiQueue × Message
multi_try_get_next q m =
    let (found, sources, m') =
      ask_from (length q.sources) q.position (length q.sources) q.sources m in
    if q.stopping then (false, q, m) else (found, record q { sources = sources }, m')

-- `getNext`; what other threads do between two rounds comes as a list of changes.
unfoldable pub multi_get_next :
    List (MultiQueue → MultiQueue) → MultiQueue → Message → Option (Bool × MultiQueue × Message)
multi_get_next [] q m =
    let (found, q', m') = multi_try_get_next q m in
    if q.stopping then some (false, q, m) else if found then some (true, q', m') else none
multi_get_next (change ∷ rest) q m =
    let (found, q', m') = multi_try_get_next q m in
    let more = multi_get_next rest (change q') m' in
    if q.stopping then some (false, q, m) else if found then some (true, q', m') else more
