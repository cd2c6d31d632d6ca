-- ===== src/Wait.antt =====
-- src/HighQueue/WaitStrategy.hpp, and the pauses that `Producer::waitToPublish`,
-- `Producer::publish` and `Consumer::getNext` make by it between two looks at the queue.
use hsqueue.Base.{
  ℕ, zero, suc, ◌+◌, ◌-◌, ◌≤◌, ◌<◌, ◌≡◌, Bool, true, false, not, ◌&&◌, arith, ltb, ◌==◌,
  if◌then◌else◌, w32, ◌⊎◌,
}

-- `~0u` is a 32-bit number.
abbrev pub forever : ℕ
forever = w32 - 1

pub record WaitStrategy : Type 0 where
  pub spin_count : ℕ
  pub yield_count : ℕ
  pub sleep_count : ℕ
  pub sleep_period : ℕ
  pub mutex_wait_timeout : ℕ
  pub mutex_used : Bool

unfoldable pub make_wait_strategy : ℕ → ℕ → ℕ → ℕ → ℕ → WaitStrategy
make_wait_strategy spin_count yield_count sleep_count sleep_period mutex_wait_timeout = record {
  spin_count = spin_count;
  yield_count = yield_count;
  sleep_count = sleep_count;
  sleep_period = sleep_period;
  mutex_wait_timeout = mutex_wait_timeout;
  mutex_used =
      not (spin_count == forever) && not (yield_count == forever) && not (sleep_count == forever);
}

-- The counters that the waiting functions keep in local variables.
pub record Remaining : Type 0 where
  pub spins : ℕ
  pub yields : ℕ
  pub sleeps : ℕ

unfoldable pub start : WaitStrategy → Remaining
start w = record { spins = w.spin_count; yields = w.yield_count; sleeps = w.sleep_count }

pub data Pause : Type 0 where
  spin yield_ sleep block : Pause

abbrev pub used_up : ℕ → ℕ
used_up n = if n == forever then n else n - 1

-- The kind of the next pause, and the counters after it. At `block` the thread waits on a condition
-- variable.
unfoldable pub pause : Remaining → Pause × Remaining
pause r =
    if ltb 0 r.spins
    then (spin, record r { spins = used_up r.spins })
    else if ltb 0 r.yields
    then (yield_, record r { yields = used_up r.yields })
    else if ltb 0 r.sleeps
    then (sleep, record r { sleeps = used_up r.sleeps })
    else (block, r)

-- The pause after `n` others.
unfoldable pub nth_pause : ℕ → Remaining → Pause
unfolding pause
nth_pause zero r = (pause r).0
nth_pause (suc n) r = nth_pause n (pause r).1

abbrev pub is_block : Pause → Bool
is_block block = true
is_block _ = false

nth_pause-block :
    (n : ℕ) (r : Remaining)
    → r.spins < forever
    → r.yields < forever
    → r.sleeps < forever
    → is_block (nth_pause n r) ≡ not (ltb n (r.spins + r.yields + r.sleeps))
unfolding nth_pause
nth_pause-block zero r a b c = ground arith
nth_pause-block (suc n) r a b c = ground (arith, nth_pause-block n (pause r).1)

-- Some counter never falls.
abbrev Endless : Remaining → Type 0
Endless r = (r.spins ≡ forever) ⊎ ((r.yields ≡ forever) ⊎ (r.sleeps ≡ forever))

nth_pause-Endless : (n : ℕ) (r : Remaining) → Endless r → is_block (nth_pause n r) ≡ false
unfolding nth_pause
nth_pause-Endless zero r e = ground arith
nth_pause-Endless (suc n) r e = ground (arith, nth_pause-Endless n (pause r).1)

-- `mutexUsed_` is exact: by a strategy whose counts are at most FOREVER, a thread comes to wait on
-- the condition variable if and only if the strategy has the flag, and then after as many pauses as
-- the counts add up to.
pub mutex_used_lem :
    (n spins yields sleeps period timeout : ℕ)
    → spins ≤ forever
    → yields ≤ forever
    → sleeps ≤ forever
    → let w = make_wait_strategy spins yields sleeps period timeout in
      is_block (nth_pause n (start w)) ≡ (w.mutex_used && not (ltb n (spins + yields + sleeps)))
unfolding make_wait_strategy start
mutex_used_lem n spins yields sleeps period timeout a b c =
    ground (arith, nth_pause-block n r, nth_pause-Endless n r)
  where
    r : Remaining
    r = record { spins = spins; yields = yields; sleeps = sleeps }

-- Past FOREVER the counts are not what they say: a spin count above it falls to FOREVER and stays
-- there, so the thread never waits on the condition variable, whatever the flag says.
pub spins_above_forever :
    (n : ℕ) (r : Remaining) → forever ≤ r.spins → is_block (nth_pause n r) ≡ false
unfolding nth_pause
spins_above_forever zero r h = ground arith
spins_above_forever (suc n) r h = ground (arith, spins_above_forever n (pause r).1)
