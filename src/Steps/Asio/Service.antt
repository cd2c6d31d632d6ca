-- ===== src/Steps/Asio/Service.antt =====
-- src/Steps/AsioService.cpp: the threads that run the loop of boost::asio. A thread is a number, given in
-- the order in which threads are started.
use hsqueue.Base.{
  update, ℕ, zero, suc, ◌+◌, ◌-◌, Bool, true, false, not, ◌&&◌, ◌||◌, List, [], ◌∷◌, ◌++◌, Option,
  none, some, ltb, ◌==◌, if◌then◌else◌,
}

-- `threads` is the array, with nothing beyond the capacity; `started` threads were made, and `joined`
-- has those that were joined, in that order.
pub record AsioService : Type 0 where
  pub stopping : Bool
  pub thread_count : ℕ
  pub thread_capacity : ℕ
  pub threads : ℕ → Option ℕ
  pub started : ℕ
  pub joined : List ℕ

abbrev pub make_asio_service : AsioService
make_asio_service = record {
  stopping = false;
  thread_count = 0;
  thread_capacity = 0;
  threads = λ i. none;
  started = 0;
  joined = [];
}

unfoldable pub stop_service : AsioService → AsioService
stop_service s = record s { stopping = true }

unfoldable pub reset_service : AsioService → AsioService
reset_service s = record s { stopping = false }

abbrev pub join_thread : Option ℕ → List ℕ → List ℕ
join_thread none joined = joined
join_thread (some t) joined = joined ++ t ∷ []

-- `std::thread::join` waits until the thread has ended. Whether a thread comes to its end, once it is
-- joined, is told by whether the service was stopped before.
abbrev pub Ends : Type 0
Ends = Bool → ℕ → Bool

abbrev pub comes_to_end : (ℕ → Bool) → Option ℕ → Bool
comes_to_end ends none = true
comes_to_end ends (some t) = ends t

-- The loop of `joinThreads`; it makes as many rounds as there are threads. `none` where the caller waits
-- forever.
abbrev pub join_rounds : Ends → ℕ → AsioService → Option AsioService
join_rounds ends zero s = some s
join_rounds ends (suc rounds) s =
    let i = s.thread_count - 1 in
    let on = join_rounds ends rounds (record s {
      thread_count = i;
      threads = update s.threads i none;
      joined = join_thread (s.threads i) s.joined;
    }) in
    if comes_to_end (ends s.stopping) (s.threads i) then on else none

unfoldable pub join_threads : Ends → AsioService → Option AsioService
join_threads ends s = join_rounds ends s.thread_count s

-- A new array with the threads of the old one.
unfoldable pub grow : ℕ → AsioService → AsioService
grow count s = record s {
  threads = λ i. if ltb i s.thread_count then s.threads i else none;
  thread_capacity = count;
}

-- The loop that starts the threads that are missing; it makes `rounds` of them.
abbrev pub start_rounds : ℕ → AsioService → AsioService
start_rounds zero s = s
start_rounds (suc rounds) s = start_rounds rounds (record s {
  threads = update s.threads s.thread_count (some s.started);
  thread_count = s.thread_count + 1;
  started = s.started + 1;
})

-- `startThreads`: `runThreads` without the use of the calling thread.
unfoldable pub start_threads : ℕ → AsioService → AsioService
unfolding grow
start_threads count s =
    let s' = if ltb s.thread_capacity count then grow count s else s in
    start_rounds (count - s'.thread_count) s'

-- `runThreads`; where the calling thread runs the loop too, its own run comes to its end before it joins.
unfoldable pub run_threads : Ends → ℕ → Bool → AsioService → Option AsioService
run_threads ends count use_this_thread s =
    let s' = start_threads count s in if use_this_thread then join_threads ends s' else some s'

-- What `io_service::run` answers in one round of `run`, and whether `stopService` was called before.
pub data Round : Type 0 where
  handled : Bool → ℕ → Round
  threw : Bool → Round

-- `run`: how many times the loop of the service is called; `none` where it goes on after all rounds.
-- `count` is what the call before answered.
unfoldable pub run : List Round → Bool → ℕ → Option ℕ
run [] stopping count = none
run (handled stop answer ∷ rounds) stopping count =
    let rest : Option ℕ = elim (run rounds (stopping || stop) answer) [
      | none ↦ none
      | some n ↦ some (suc n)
    ] in
    if not (stopping || stop) && not (count == 0) then rest else some 0
run (threw stop ∷ rounds) stopping count =
    let rest : Option ℕ = elim (run rounds (stopping || stop) count) [
      | none ↦ none
      | some n ↦ some (suc n)
    ] in
    if not (stopping || stop) && not (count == 0) then rest else some 0
