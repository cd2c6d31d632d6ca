-- ===== src/Queue/Consumer.antt =====
-- src/HighQueue/Consumer.cpp. As for a producer, what other threads do while the consumer pauses
-- comes as a list of ticks.
use hsqueue.Base.{
  ℕ, zero, suc, ◌-◌, Bool, true, false, ◌&&◌, ◌||◌, List, [], ◌∷◌, leb, if◌then◌else◌, add64,
  Result, ok, err, second_consumer, consumer_timeout,
}
use hsqueue.Message.{Message, move_to}
use hsqueue.Wait.{WaitStrategy, Remaining, Pause, spin, yield_, sleep, block, start, pause}
use hsqueue.Queue.Header.{Header, filled, entry_at, set_entry}
use hsqueue.Queue.Producer.{Tick, Progress, finished, thrown, still_waiting}

pub record Stats : Type 0 where
  pub consumed : ℕ
  pub gets : ℕ
  pub trys : ℕ
  pub spins : ℕ
  pub yields : ℕ
  pub sleeps : ℕ
  pub waits : ℕ

pub record Consumer : Type 0 where
  pub producer_uses_mutex : Bool
  pub cached_publish_position : ℕ
  pub wait_strategy : WaitStrategy
  pub stopping : Bool
  pub stats : Stats

abbrev pub new_consumer : Header → Consumer
new_consumer h = record {
  producer_uses_mutex = h.producer_wait_strategy.mutex_used;
  cached_publish_position = h.publish_position;
  wait_strategy = h.consumer_wait_strategy;
  stopping = false;
  stats = record { consumed = 0; gets = 0; trys = 0; spins = 0; yields = 0; sleeps = 0; waits = 0 };
}

-- A queue has one consumer at a time.
unfoldable pub make_consumer : Header → Result (Consumer × Header)
make_consumer h =
    if h.consumer_present
    then err second_consumer
    else ok (new_consumer h, record h { consumer_present = true })

unfoldable pub destroy_consumer : Header → Header
destroy_consumer h = record h { consumer_present = false }

unfoldable pub stop : Consumer → Consumer
stop c = record c { stopping = true }

-- A consumer, the header and the message that receives.
pub record Scene : Type 0 where
  pub consumer : Consumer
  pub header : Header
  pub message : Message

-- A waiting producer is woken, if the producers' strategy uses the mutex.
unfoldable pub increment_read_position : Consumer → Header → Header
increment_read_position c h = record h {
  read_position = add64 h.read_position 1;
  producer_waiting =
      if c.producer_uses_mutex && h.producer_waiting then false else h.producer_waiting;
}

-- The loop of `tryGetNext`. It passes over entries that are not filled; `none` of the last kind is
-- left when the fuel is, which `tryGetNext` gives for every entry.
unfoldable pub try_loop : ℕ → Scene → Bool × Scene
try_loop zero s = (false, s)
try_loop (suc fuel) s =
    let position = s.header.read_position in
    let stale = leb s.consumer.cached_publish_position position in
    let cached = if stale then s.header.publish_position else s.consumer.cached_publish_position in
    let s1 = record s { consumer = record (s.consumer) { cached_publish_position = cached } } in
    let e = entry_at s.header position in
    let (m, m') = move_to e.message s.message in
    let c = s1.consumer in
    let taken = record s1 {
      consumer = record c { stats = record (c.stats) { consumed = add64 c.stats.consumed 1 } };
      header =
          increment_read_position c
            (set_entry s.header position (record { message = m; status = e.status }));
      message = m';
    } in
    let passed = try_loop fuel (record s1 { header = increment_read_position c s.header }) in
    if stale && leb cached position
    then (false, s1)
    else elim e.status [ filled ↦ (true, taken) | _ ↦ passed ]

-- A round for each position that is published, and one more.
unfoldable pub try_get_next : Scene → Bool × Scene
try_get_next s =
    let c = s.consumer in
    try_loop (suc (s.header.publish_position - s.header.read_position)) (record s {
      consumer = record c { stats = record (c.stats) { trys = add64 c.stats.trys 1 } };
    })

abbrev pub count_pause : Pause → Consumer → Consumer
count_pause spin c = record c { stats = record (c.stats) { spins = add64 c.stats.spins 1 } }
count_pause yield_ c = record c { stats = record (c.stats) { yields = add64 c.stats.yields 1 } }
count_pause sleep c = record c { stats = record (c.stats) { sleeps = add64 c.stats.sleeps 1 } }
count_pause block c = record c { stats = record (c.stats) { waits = add64 c.stats.waits 1 } }

-- A pause, and what the tick brings.
abbrev pub rest : Tick → Pause → Scene → Scene
rest t kind s =
    let c = count_pause kind s.consumer in
    record s { consumer = record c { stopping = c.stopping || t.stop }; header = t.change s.header }

-- The round of `getNext` after a look that found nothing: the flag is the result where it is
-- `finished`; where it is `still_waiting`, the loop goes on.
unfoldable pub wait_round : Tick → Remaining → Scene → Progress (Bool × Remaining × Scene)
wait_round t r s =
    let (kind, r') = pause r in
    let (found, s1) = try_get_next (record s { consumer = count_pause block s.consumer }) in
    let c = s1.consumer in
    let woken = record s1 {
      consumer = record c { stopping = c.stopping || t.stop };
      header = t.change (record (s1.header) { consumer_waiting = true });
    } in
    let (late, s2) = try_get_next woken in
    elim kind [
      | block ↦
          if found
          then finished (true, r, s1)
          else if t.timed_out
          then (if late then finished (true, r, s2) else thrown consumer_timeout (false, r, s2))
          else still_waiting (false, r, woken)
      | other ↦ still_waiting (false, r', rest t other s)
    ]

unfoldable pub get_loop : List Tick → Remaining → Scene → Progress (Bool × Scene)
get_loop [] r s = still_waiting (false, s)
get_loop (t ∷ ts) r s =
    let (found, s1) = try_get_next s in
    let after = wait_round t r s1 in
    let waited : Progress (Bool × Scene) = elim after [
      | finished (b, r', s') ↦ finished (b, s')
      | thrown e (b, r', s') ↦ thrown e (b, s')
      | still_waiting (b, r', s') ↦ get_loop ts r' s'
    ] in
    if s.consumer.stopping
    then finished (false, s)
    else if found
    then finished (true, s1)
    else waited

unfoldable pub get_next : List Tick → Scene → Progress (Bool × Scene)
get_next ts s =
    let c = s.consumer in
    get_loop ts (start c.wait_strategy) (record s {
      consumer = record c { stats = record (c.stats) { gets = add64 c.stats.gets 1 } };
    })
