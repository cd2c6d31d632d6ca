-- ===== src/Queue/Waiting.antt =====
-- `Consumer::getNext` of src/HighQueue/Consumer.cpp: what it returns, and when.
use hsqueue.Base.{
  ℕ, zero, suc, ◌+◌, ◌≤◌, ◌<◌, ◌≡◌, refl, sym, ap, ◌∙◌, true, false, ◌||◌, List, ◌∷◌, arith, leb,
  if◌then◌else◌, add64, w64, if_of_true, if_of_false, lt→ltb,
}
use hsqueue.Wait.{Remaining, Pause, spin, yield_, sleep, block, pause, start}
use hsqueue.Queue.Header.{Header}
use hsqueue.Queue.Producer.{Tick, finished, still_waiting}
use hsqueue.Queue.Consumer.{
  Scene, increment_read_position, try_loop, try_get_next, count_pause, rest, wait_round, get_loop,
  get_next,
}
use hsqueue.Queue.Window.{ring, IsValid}
use hsqueue.Queue.Consume.{Knows, Tried, try_get_next_lem}

-- A scene in which the queue is valid and the consumer is not stopped.
pub record IsCalm (s : Scene) : Type 0 where
  pub valid : IsValid (ring s.header)
  pub knows : Knows s.consumer s.header
  pub early : s.header.publish_position + 1 < w64
  pub going : s.consumer.stopping ≡ false

-- The call counts itself and goes into the loop.
abbrev pub counted : Scene → Scene
counted s = record s {
  consumer = record (s.consumer) {
    stats = record (s.consumer.stats) { gets = add64 s.consumer.stats.gets 1 };
  };
}

-- The scene after an entry that is passed over.
abbrev passed : Scene → Scene
passed s =
    let cached =
      if leb s.consumer.cached_publish_position s.header.read_position
      then s.header.publish_position
      else s.consumer.cached_publish_position in
    let c = record (s.consumer) { cached_publish_position = cached } in
    record s { consumer = c; header = increment_read_position c s.header }

-- `tryGetNext` does not touch the stop flag.
try_loop-stopping :
    (fuel : ℕ) (s : Scene) → (try_loop fuel s).1.consumer.stopping ≡ s.consumer.stopping
unfolding try_loop
try_loop-stopping zero s = refl
try_loop-stopping (suc fuel) s = ground (arith, try_loop-stopping fuel (passed s))

pub try_get_next-stopping : (s : Scene) → (try_get_next s).1.consumer.stopping ≡ s.consumer.stopping
unfolding try_get_next
try_get_next-stopping s = try_loop-stopping _ _

-- What a look that finds nothing leaves is calm again, on the same queue.
vacant-IsCalm :
    (s : Scene)
    → IsCalm s
    → s.header.publish_position ≤ s.header.read_position
    → ((try_get_next s).0 ≡ false)
      × IsCalm (try_get_next s).1
      × ((try_get_next s).1.header ≡ s.header)
vacant-IsCalm s k none =
    let t = try_get_next_lem s k.valid k.knows k.early in
    let missed : (try_get_next s).0 ≡ false = t.found ∙ ground (arith, none) in
    (
      missed,
      record {
        valid = t.valid;
        knows = t.knows;
        early = omega (arith, t.published, k.early);
        going = try_get_next-stopping s ∙ k.going;
      },
      (t.nothing missed).0,
    )

-- Where a message is there, `getNext` returns with the oldest at its first look.
pub get_next-some :
    (t : Tick) (ts : List Tick) (s : Scene)
    → IsCalm s
    → s.header.read_position < s.header.publish_position
    → (s' : Scene) × (get_next (t ∷ ts) s ≡ finished (true, s'))
      × Tried s (true, s')
      × (s'.consumer.stopping ≡ false)
unfolding get_next get_loop
get_next-some t ts s k held =
    let tried = try_get_next_lem (counted s) k.valid k.knows k.early in
    let found : (try_get_next (counted s)).0 ≡ true = tried.found ∙ lt→ltb _ _ held in
    (
      (try_get_next (counted s)).1,
      if_of_false _ _ k.going ∙ if_of_true _ _ found,
      record {
        valid = tried.valid;
        knows = tried.knows;
        found = sym (lt→ltb _ _ held);
        taken = λ _. tried.taken found;
        nothing = λ bad. cc bad;
        published = tried.published;
        count = tried.count;
        forward = tried.forward;
        awake = λ _. tried.awake found;
      },
      try_get_next-stopping (counted s) ∙ k.going,
    )

-- A tick in which nothing but a call of `stop` happens.
abbrev pub IsStop : Tick → Type 0
IsStop t = (t.stop ≡ true) × (t.timed_out ≡ false) × ((h : Header) → t.change h ≡ h)

-- After the wait on the condition variable.
abbrev woken : Tick → Scene → Scene
woken t s = record s {
  consumer = record (s.consumer) { stopping = s.consumer.stopping || t.stop };
  header = t.change (record (s.header) { consumer_waiting = true });
}

-- A round that finds nothing and in which `stop` is called goes on, with the flag set.
wait_round-stop :
    (t : Tick) (r : Remaining) (s : Scene) (kind : Pause)
    → (pause r).0 ≡ kind
    → IsStop t
    → IsCalm s
    → s.header.publish_position ≤ s.header.read_position
    → (r' : Remaining) × (s' : Scene) × (wait_round t r s ≡ still_waiting (false, r', s'))
      × (s'.consumer.stopping ≡ true)
      × (ring s'.header ≡ ring s.header)
unfolding wait_round
wait_round-stop t r s block e (stops, in_time, same) k none =
    let waiting = record s { consumer = count_pause block s.consumer } in
    let (missed, calm, untouched) =
      vacant-IsCalm waiting
        (record { valid = k.valid; knows = k.knows; early = k.early; going = k.going }) none in
    (
      r,
      woken t (try_get_next waiting).1,
      rw (e, wait_round) (if_of_false _ _ missed ∙ if_of_false _ _ in_time),
      ground (arith, stops),
      ap ring (same _) ∙ ap ring untouched,
    )
wait_round-stop t r s spin e (stops, in_time, same) k none = (
  (pause r).1,
  rest t spin s,
  rw (e, wait_round) refl,
  ground (arith, stops),
  ap ring (same s.header),
)
wait_round-stop t r s yield_ e (stops, in_time, same) k none = (
  (pause r).1,
  rest t yield_ s,
  rw (e, wait_round) refl,
  ground (arith, stops),
  ap ring (same s.header),
)
wait_round-stop t r s sleep e (stops, in_time, same) k none = (
  (pause r).1,
  rest t sleep s,
  rw (e, wait_round) refl,
  ground (arith, stops),
  ap ring (same s.header),
)

-- Where nothing is there and `stop` is called in the first round, `getNext` returns false when it looks
-- at the flag again, and leaves the queue as it is.
pub get_next-stop :
    (t t' : Tick) (ts : List Tick) (s : Scene)
    → IsStop t
    → IsCalm s
    → s.header.publish_position ≤ s.header.read_position
    → (s' : Scene) × (get_next (t ∷ t' ∷ ts) s ≡ finished (false, s'))
      × (ring s'.header ≡ ring s.header)
unfolding get_next get_loop
get_next-stop t t' ts s stops k none =
    let (missed, calm, untouched) =
      vacant-IsCalm (counted s)
        (record { valid = k.valid; knows = k.knows; early = k.early; going = k.going }) none in
    let (r', s', e, halted, same) =
      wait_round-stop t (start s.consumer.wait_strategy) (try_get_next (counted s)).1 _ refl stops
        calm
        (omega (
          arith,
          none,
          ap (λ (h : Header). h.read_position) untouched,
          ap (λ (h : Header). h.publish_position) untouched,
        )) in
    (
      s',
      if_of_false _ _ k.going ∙ if_of_false _ _ missed ∙ rw e (if_of_true _ _ halted),
      same ∙ ap ring untouched,
    )
