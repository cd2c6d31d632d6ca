-- ===== src/Queue/Producer.antt =====
-- src/HighQueue/Producer.cpp. The header is shared, the producer's own members are a record. What
-- other threads do while a producer pauses comes as a list of ticks, one for each round of a loop;
-- where the list ends, the producer is still in the loop.
use hsqueue.Base.{
  ℕ, zero, suc, Bool, true, false, not, ◌&&◌, ◌||◌, List, [], ◌∷◌, ltb, leb, ◌==◌, if◌then◌else◌,
  add64, add32, sub32, Error, producer_timeout,
}
use hsqueue.Message.{Message, move_to}
use hsqueue.Wait.{WaitStrategy, Remaining, Pause, spin, yield_, sleep, block, start, pause}
use hsqueue.Queue.Header.{Header, filled, skip, entry_at, set_entry}

pub record Stats : Type 0 where
  pub fulls : ℕ
  pub discards : ℕ
  pub skips : ℕ
  pub publishes : ℕ
  pub spins : ℕ
  pub yields : ℕ
  pub sleeps : ℕ
  pub waits : ℕ

pub record Producer : Type 0 where
  pub solo : Bool
  pub stopping : Bool
  pub entry_count : ℕ
  pub wait_strategy : WaitStrategy
  pub consumer_uses_mutex : Bool
  pub discard_messages_if_no_consumer : Bool
  pub publishable : ℕ
  pub stats : Stats

-- The constructor does not set `statDiscards_`: what it finds there is an argument.
unfoldable pub make_producer : Bool → ℕ → Header → Producer × Header
make_producer solo discards h = (
  record {
    solo = solo;
    stopping = false;
    entry_count = h.entry_count;
    wait_strategy = h.producer_wait_strategy;
    consumer_uses_mutex = h.consumer_wait_strategy.mutex_used;
    discard_messages_if_no_consumer = h.discard_messages_if_no_consumer;
    publishable = 0;
    stats = record {
      fulls = 0;
      discards = discards;
      skips = 0;
      publishes = 0;
      spins = 0;
      yields = 0;
      sleeps = 0;
      waits = 0;
    };
  },
  record h { producers_present = add32 h.producers_present 1 },
)

unfoldable pub destroy_producer : Header → Header
destroy_producer h = record h { producers_present = sub32 h.producers_present 1 }

-- A producer, the header and the message being published.
pub record Scene : Type 0 where
  pub producer : Producer
  pub header : Header
  pub message : Message

unfoldable pub unreserve : Producer → Header → ℕ → Bool × Header
unreserve p h reserve =
    if p.solo
    then (true, record h { reserve_position = reserve; publish_position = reserve })
    else if leb reserve h.reserve_position
    then (
      h.reserve_position == add64 reserve 1,
      if h.reserve_position == add64 reserve 1 then record h { reserve_position = reserve } else h,
    )
    else (true, h)

-- `canPublish`
unfoldable pub can_publish : Producer → Header → ℕ → Bool × Producer × Header
can_publish p h position =
    let seen = record p { publishable = add64 h.read_position p.entry_count } in
    let full = record seen { stats = record (seen.stats) { fulls = add64 seen.stats.fulls 1 } } in
    if ltb position p.publishable
    then (true, p, h)
    else if ltb position seen.publishable
    then (true, seen, h)
    else if p.discard_messages_if_no_consumer && not h.consumer_present
    then (
      true,
      record full {
        publishable = add64 h.publish_position p.entry_count;
        stats = record (full.stats) { discards = add64 full.stats.discards 1 };
      },
      record h { read_position = h.publish_position },
    )
    else (false, full, h)

-- `publish(Position, Message &)`: the entry's old block goes to the message.
unfoldable pub publish_entry : Scene → ℕ → Bool × Scene
publish_entry s reserved =
    let e = entry_at s.header reserved in
    let (m, m') = move_to s.message e.message in
    elim e.status [
      | skip ↦ (
        false,
        record s {
          producer = record (s.producer) {
            stats = record (s.producer.stats) { skips = add64 s.producer.stats.skips 1 };
          };
        },
      )
      | _ ↦ (
        true,
        record s {
          header = set_entry s.header reserved (record { message = m'; status = filled });
          message = m;
        },
      )
    ]

-- A waiting consumer is woken, if the consumer's strategy uses the mutex.
unfoldable pub notify_consumer : Producer → Header → Header
notify_consumer p h =
    if p.consumer_uses_mutex && h.consumer_waiting then record h { consumer_waiting = false } else h

-- What happens in a round of a waiting loop besides the producer: what others do to the header,
-- whether the wait on the condition variable times out, and whether `stop` is called.
pub record Tick : Type 0 where
  pub change : Header → Header
  pub timed_out : Bool
  pub stop : Bool

-- How far a loop got.
pub data Progress {ℓ} (A : Type ℓ) : Type ℓ where
  finished : A → Progress A
  thrown : Error → A → Progress A
  still_waiting : A → Progress A

abbrev pub stop_if : Bool → Producer → Producer
stop_if stop p = record p { stopping = p.stopping || stop }

abbrev pub count_pause : Pause → Producer → Producer
count_pause spin p = record p { stats = record (p.stats) { spins = add64 p.stats.spins 1 } }
count_pause yield_ p = record p { stats = record (p.stats) { yields = add64 p.stats.yields 1 } }
count_pause sleep p = record p { stats = record (p.stats) { sleeps = add64 p.stats.sleeps 1 } }
count_pause block p = record p { stats = record (p.stats) { waits = add64 p.stats.waits 1 } }

-- A pause, and what the tick brings.
abbrev pub rest : Tick → Pause → Scene → Scene
rest t kind s = record s {
  producer = stop_if t.stop (count_pause kind s.producer);
  header = t.change s.header;
}

-- The round of `publish` with several producers that finds the queue full, after the spin lock is
-- let go: the counters, the flag `mutexTimedOut` and the scene after it, or the error. On the mutex
-- the position is read again, and a wait follows only if the queue is still full.
unfoldable pub wait_round : Tick → Remaining → Bool → Scene → Progress (Remaining × Bool × Scene)
wait_round t r mutex_timed_out s =
    let (kind, r') = pause r in
    let waiting = record s { producer = count_pause block s.producer } in
    let (can, p, h) = can_publish waiting.producer waiting.header waiting.header.publish_position in
    elim kind [
      | block ↦
          if mutex_timed_out
          then thrown producer_timeout (r, mutex_timed_out, s)
          else if can
          then finished (r, mutex_timed_out, record waiting { producer = p; header = h })
          else finished (
            r,
            t.timed_out,
            record waiting {
              producer = stop_if t.stop p;
              header = t.change (record h { producer_waiting = true });
            },
          )
      | other ↦ finished (r', mutex_timed_out, rest t other s)
    ]

-- The loop of `publish` where there may be other producers. It holds the spin lock but for the
-- waits.
unfoldable pub publish_shared : List Tick → Remaining → Bool → Scene → Progress Scene
publish_shared [] r mutex_timed_out s = still_waiting s
publish_shared (t ∷ ts) r mutex_timed_out s =
    let position = s.header.publish_position in
    let (can, p, h) = can_publish s.producer s.header position in
    let s1 = record s { producer = p; header = h } in
    let (published, s2) = publish_entry s1 position in
    let s3 = record s2 { header = record (s2.header) { publish_position = add64 position 1 } } in
    let again = publish_shared ts r mutex_timed_out s3 in
    let waited = wait_round t r mutex_timed_out s1 in
    if can
    then (if published
        then finished (record s3 { header = notify_consumer s3.producer s3.header })
        else again)
    else if p.stopping
    then finished s1
    else elim waited [
      | finished (r', late, s') ↦ publish_shared ts r' late s'
      | thrown e (r', late, s') ↦ thrown e s'
      | still_waiting (r', late, s') ↦ still_waiting s'
    ]

abbrev pub look_again : Scene → Scene
look_again s = record s {
  producer = record (s.producer) {
    publishable = add64 s.header.read_position s.producer.entry_count;
  };
}

-- A round of `waitToPublish` that found the queue full.
unfoldable pub solo_wait_round : Tick → Remaining → ℕ → Scene → Progress (Remaining × Scene)
solo_wait_round t r position s =
    let (kind, r') = pause r in
    let seen = look_again (record s { producer = count_pause block s.producer }) in
    let woken = record seen {
      producer = stop_if t.stop seen.producer;
      header = t.change (record (seen.header) { producer_waiting = true });
    } in
    elim kind [
      | block ↦
          if ltb position seen.producer.publishable
          then finished (r, look_again seen)
          else if t.timed_out && leb (look_again woken).producer.publishable position
          then thrown producer_timeout (r, look_again woken)
          else finished (r, look_again woken)
      | other ↦ finished (r', look_again (rest t other s))
    ]

-- `waitToPublish`, with the ticks that are left.
unfoldable pub wait_to_publish : List Tick → Remaining → ℕ → Scene → Progress Scene × List Tick
wait_to_publish [] r position s = (still_waiting s, [])
wait_to_publish (t ∷ ts) r position s =
    let (can, p, h) = can_publish s.producer s.header position in
    let s1 = record s { producer = p; header = h } in
    let (released, h') = unreserve p h position in
    let after =
      solo_wait_round t r position (if p.stopping then record s1 { header = h' } else s1) in
    let waited : Progress Scene × List Tick = elim after [
      | finished (r', s') ↦ wait_to_publish ts r' position s'
      | thrown e (r', s') ↦ (thrown e s', ts)
      | still_waiting (r', s') ↦ (still_waiting s', ts)
    ] in
    if can
    then (finished s1, t ∷ ts)
    else if p.stopping && released
    then (finished (record s1 { header = h' }), t ∷ ts)
    else waited

-- The loop of `publish` with one producer; `rounds` bounds how often it looks at the queue.
unfoldable pub publish_solo : ℕ → List Tick → Scene → Progress Scene
publish_solo zero ts s = still_waiting s
publish_solo (suc rounds) ts s =
    let position = s.header.publish_position in
    let (can, p, h) = can_publish s.producer s.header position in
    let s1 = record s { producer = p; header = h } in
    let (published, s2) = publish_entry s1 position in
    let s3 = record s2 { header = record (s2.header) { publish_position = add64 position 1 } } in
    let again = publish_solo rounds ts s3 in
    let (progress, ts') = wait_to_publish ts (start p.wait_strategy) position s1 in
    let on : Progress Scene = elim progress [
      | finished s' ↦ publish_solo rounds ts' s'
      | thrown e s' ↦ thrown e s'
      | still_waiting s' ↦ still_waiting s'
    ] in
    if s.producer.stopping
    then finished (record s { header = notify_consumer s.producer s.header })
    else if can
    then (if published
        then finished (record s3 { header = notify_consumer s3.producer s3.header })
        else again)
    else on

-- `publish(Message &)`
unfoldable pub publish : ℕ → List Tick → Scene → Progress Scene
publish rounds ts s =
    let p = s.producer in
    let s0 = record s {
      producer = record p { stats = record (p.stats) { publishes = add64 p.stats.publishes 1 } };
    } in
    if p.solo then publish_solo rounds ts s0 else publish_shared ts (start p.wait_strategy) false s0

unfoldable pub stop : Producer → Producer
stop p = record p { stopping = true }
