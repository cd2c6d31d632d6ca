-- ===== src/Queue/Interleaving.antt =====
-- `publish` of src/HighQueue/Producer.cpp with several producers, and `tryGetNext` of Consumer.cpp, cut
-- at their accesses to shared memory: any thread may run between two of them. Accesses are taken to be
-- seen in one order by all threads. A consumer is present, so that nothing is discarded; pauses, which
-- touch nothing shared, are left out.
use hsqueue.Base.{
  update, ℕ, ◌%◌, Bool, true, false, List, [], ◌∷◌, ◌++◌, Option, none, some, ◌==◌, ltb,
  if◌then◌else◌, add64, set, get_or,
}
use hsqueue.Message.{Message, move_to}
use hsqueue.Queue.Header.{Entry, Status, filled, skip, blank_entry}
pub mod Order
pub mod Moves
pub mod Takes
pub mod Invariant
pub mod Safety
mod Examples

-- Where a producer is in `publish`: it has not called it; it spins for the lock; it holds the lock and
-- is about to look; it may write at a position; it has written there, or passed over an entry to skip,
-- and is about to store the publish position; it is about to let the lock go.
pub data ProducerPlace : Type 0 where
  outside leaving : ProducerPlace
  wanting holding : Message → ProducerPlace
  allowed : Message → ℕ → ProducerPlace
  written : Option Message → ℕ → ProducerPlace

-- Where the consumer is in `tryGetNext`: not in it; about to look; about to take what is at a position;
-- about to move the read position, and to look again if the entry was passed over.
pub data ConsumerPlace : Type 0 where
  resting : ConsumerPlace
  looking : Message → ConsumerPlace
  seen : Message → ℕ → ConsumerPlace
  moved : Option Message → ℕ → ConsumerPlace

-- `limits` are the producers' `publishable_`. `published` and `got` are what was written to entries,
-- and what the consumer has received, in order.
pub record System : Type 0 where
  pub entries : List Entry
  pub entry_count : ℕ
  pub read_position : ℕ
  pub publish_position : ℕ
  pub lock : Option ℕ
  pub limits : ℕ → ℕ
  pub producers : ℕ → ProducerPlace
  pub cached_publish_position : ℕ
  pub consumer : ConsumerPlace
  pub published : List Message
  pub got : List Message

abbrev pub entry : System → ℕ → Entry
entry s position = get_or s.entries (position % s.entry_count) blank_entry

abbrev pub place : ℕ → ProducerPlace → System → System
place i p s = record s { producers = update s.producers i p }

-- `canPublish` under the lock: from the producer's cached limit, or from the read position now. A
-- producer that finds the queue full lets the lock go and will spin for it again.
abbrev pub look : ℕ → Message → System → System
look i m s =
    let position = s.publish_position in
    let fresh = add64 s.read_position s.entry_count in
    let s' = record s { limits = update s.limits i fresh } in
    if ltb position (s.limits i)
    then place i (allowed m position) s
    else if ltb position fresh
    then place i (allowed m position) s'
    else place i (wanting m) (record s' { lock = none })

-- `publish(Position, Message &)`
abbrev pub write_entry : Status → ℕ → Message → ℕ → System → System
write_entry skip i m position s = place i (written (some m) position) s
write_entry _ i m position s =
    let (_, m') = move_to m (entry s position).message in
    place i (written none position) (record s {
      entries = set s.entries (position % s.entry_count) (record { message = m'; status = filled });
      published = s.published ++ m ∷ [];
    })

abbrev pub after_store : Option Message → ProducerPlace
after_store none = leaving
after_store (some m) = holding m

-- The next access of producer `i`; `none` where it spins, or has called nothing.
unfoldable pub produce_at : ProducerPlace → ℕ → System → Option System
produce_at outside i s = none
produce_at (wanting m) i s = elim s.lock [
  | none ↦ some (place i (holding m) (record s { lock = some i }))
  | some _ ↦ none
]
produce_at (holding m) i s = some (look i m s)
produce_at (allowed m position) i s = some (write_entry (entry s position).status i m position s)
produce_at (written again position) i s =
    some (place i (after_store again) (record s { publish_position = add64 position 1 }))
produce_at leaving i s = some (place i outside (record s { lock = none }))

-- `canPublish` before the wait on the condition variable, without the spin lock.
abbrev pub peek_at : ProducerPlace → ℕ → System → Option System
peek_at (wanting m) i s =
    if ltb s.publish_position (s.limits i)
    then some s
    else some (record s { limits = update s.limits i (add64 s.read_position s.entry_count) })
peek_at _ i s = none

abbrev pub take_entry : Status → Message → ℕ → System → System
take_entry filled m position s =
    let e = entry s position in
    let (m', _) = move_to e.message m in
    record s {
      entries =
          set s.entries (position % s.entry_count) (record { message = m'; status = e.status });
      consumer = moved none position;
      got = s.got ++ e.message ∷ [];
    }
take_entry _ m position s = record s { consumer = moved (some m) position }

abbrev pub look_for : Message → System → System
look_for m s =
    if ltb s.read_position s.cached_publish_position
    then record s { consumer = seen m s.read_position }
    else if ltb s.read_position s.publish_position
    then record s {
      cached_publish_position = s.publish_position;
      consumer = seen m s.read_position;
    }
    else record s { cached_publish_position = s.publish_position; consumer = resting }

abbrev pub after_advance : Option Message → ConsumerPlace
after_advance none = resting
after_advance (some m) = looking m

-- The next access of the consumer.
unfoldable pub consume_at : ConsumerPlace → System → Option System
consume_at resting s = none
consume_at (looking m) s = some (look_for m s)
consume_at (seen m position) s = some (take_entry (entry s position).status m position s)
consume_at (moved again position) s =
    some (record s { read_position = add64 s.read_position 1; consumer = after_advance again })

abbrev pub call_publish : ProducerPlace → ℕ → Message → System → Option System
call_publish outside i m s = some (place i (wanting m) s)
call_publish _ i m s = none

abbrev pub call_get : ConsumerPlace → Message → System → Option System
call_get resting m s = some (record s { consumer = looking m })
call_get _ m s = none

-- A thread calls `publish` or `tryGetNext` with its message, or makes its next access.
pub data Move : Type 0 where
  publish : ℕ → Message → Move
  produce peek : ℕ → Move
  get : Message → Move
  consume : Move

abbrev pub step : Move → System → Option System
step (publish i m) s = call_publish (s.producers i) i m s
step (produce i) s = produce_at (s.producers i) i s
step (peek i) s = peek_at (s.producers i) i s
step (get m) s = call_get s.consumer m s
step consume s = consume_at s.consumer s

abbrev pub next : Option System → System → System
next none s = s
next (some s') s = s'

-- A schedule; a thread that cannot move is passed over.
unfoldable pub run : List Move → System → System
run [] s = s
run (x ∷ xs) s = run xs (next (step x s) s)

-- A queue that nobody has used since a producer or consumer was made.
abbrev pub start : List Entry → ℕ → ℕ → System
start entries entry_count position = record {
  entries = entries;
  entry_count = entry_count;
  read_position = position;
  publish_position = position;
  lock = none;
  limits = λ _. 0;
  producers = λ _. outside;
  cached_publish_position = position;
  consumer = resting;
  published = [];
  got = [];
}
