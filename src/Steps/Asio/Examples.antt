-- ===== src/Steps/Asio/Examples.antt =====
-- Two threads, and then none.
use hsqueue.Base.{ℕ, some, none, ◌+◌, ◌-◌, ◌≡◌, refl, [], ◌++◌, arith}
use hsqueue.Steps.Asio.Service.{
  AsioService, Ends, stop_service, make_asio_service, start_threads, join_threads,
}
use hsqueue.Steps.Asio.Threads.{IsRunning, down_from, join_threads-start_threads}

make_asio_service-IsRunning : IsRunning 0 make_asio_service
make_asio_service-IsRunning = record {
  within = omega arith;
  started = refl;
  running = λ i lt. absurd (omega (arith, lt));
  nothing_else = λ i le. refl;
}

-- The threads of a service run until it is stopped.
abbrev until_stopped : Ends
until_stopped stopping t = stopping

-- Nobody has stopped the service.
waiting : join_threads until_stopped (start_threads 2 make_asio_service) ≡ none
unfolding join_threads start_threads
waiting = refl

join_threads-start_threads_example :
    (s' : AsioService) × (join_threads until_stopped
        (stop_service (start_threads 2 make_asio_service))
      ≡ some s')
    × (s'.joined ≡ [] ++ down_from 0 (0 + (2 - 0)))
    × (s'.started ≡ 0 + (0 + (2 - 0)))
    × (s'.thread_count ≡ 0)
    × ((i : ℕ) → s'.threads i ≡ none)
join_threads-start_threads_example =
    join_threads-start_threads until_stopped 0 2 make_asio_service (λ t. refl)
      make_asio_service-IsRunning
