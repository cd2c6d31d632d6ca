-- ===== src/Steps/Threaded.antt =====
-- src/Steps/ThreadedStepToMessage.cpp and hpp: a step that runs in a thread of its own. What the
-- operating system does is outside: whether `thread_` can be joined, and who calls, is told.
use hsqueue.Base.{Bool, true, false, not, ◌&&◌, ◌≡◌, refl, if◌then◌else◌}

-- `me_` holds the step itself; `joinable` tells whether `thread_` stands for a thread.
pub record ThreadedStep : Type 0 where
  pub holds_itself : Bool
  pub joinable : Bool

abbrev pub make_threaded_step : ThreadedStep
make_threaded_step = record { holds_itself = false; joinable = false }

unfoldable pub start : ThreadedStep → ThreadedStep
start s = record s { holds_itself = true; joinable = true }

-- How `run` ends.
pub data Ending : Type 0 where
  returned standard_exception other_exception : Ending

-- Whether the thread ends as it should: an exception that is no `std::exception` is thrown on.
unfoldable pub start_thread : Ending → Bool
start_thread other_exception = false
start_thread _ = true

-- The first answer is whether the thread was joined.
unfoldable pub finish : Bool → ThreadedStep → Bool × ThreadedStep
finish in_own_thread s =
    if s.holds_itself && not in_own_thread
    then (true, record s { holds_itself = false; joinable = false })
    else (false, s)

-- A step is joined once, if another thread finishes it, however often that is done.
pub finish-start :
    (s : ThreadedStep)
    → let (joined, s') = finish false (start s) in
      (joined ≡ true) × (s' ≡ make_threaded_step) × ((finish false s').0 ≡ false)
unfolding finish start
finish-start s = (refl, refl, refl)

-- A step that only its own thread finishes is never joined.
pub finish_alone : (s : ThreadedStep) → finish true (start s) ≡ (false, start s)
unfolding finish start
finish_alone s = refl
