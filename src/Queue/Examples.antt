-- ===== src/Queue/Examples.antt =====
-- The theorems about the queue at a queue of two entries.
use hsqueue.Base.{
  leb, Result, some, ◌+◌, ◌∷◌, ◌≡◌, refl, List, [], true, ok, arith, not, ◌&&◌, ltb, if◌then◌else◌,
  ◌==◌,
}
use hsqueue.Message.{blank}
use hsqueue.Memory.BlockPool.{BlockPool, null_offset}
use hsqueue.Queue.Connection.{Connection, make_connection, create_local}
use hsqueue.Queue.Settled.{IsSettled, returned, create_local-IsSettled}
use hsqueue.Memory.BlockPool.{MemoryPool}
use hsqueue.Wait.{make_wait_strategy, is_block, nth_pause, start, mutex_used_lem}
use hsqueue.Queue.Header.{Header, make_header}
use hsqueue.Queue.Producer.{make_producer, publish}
use hsqueue.Queue.Consumer
use hsqueue.Queue.Consumer.{Consumer, new_consumer, make_consumer, try_get_next}
use hsqueue.Queue.Window.{ring, contents}
use hsqueue.Queue.Round.{Finishes}
use hsqueue.Queue.Publish.{Published, publish_lem}
use hsqueue.Queue.Consume.{Tried, try_get_next_lem}
use hsqueue.Queue.Fifo.{Call, put, take, idle, perform_all, serve, perform_all_lem}
use hsqueue.Queue.Setup.{Started, make_header-Started}
use hsqueue.Queue.Fixture.{parameters, header, producer, system, system-Started, message}

abbrev calls : List Call
calls = put (message 1) ∷ put (message 2) ∷ take blank ∷ put (message 3) ∷ take blank ∷ []

perform_all_example : perform_all system calls ≡ serve (contents (ring header)) calls
unfolding contents
perform_all_example =
    perform_all_lem system calls system-Started.ready (omega arith)
      (omega arith, (omega arith, (omega arith, tt)))

publish_example :
    Finishes
      (Published header (message 1) true)
      (publish 1 (idle ∷ []) (record { producer = producer; header = header; message = message 1 }))
publish_example =
    publish_lem 0 idle [] (record { producer = producer; header = header; message = message 1 })
      system-Started.ready.valid system-Started.ready.producer_knows (omega arith) refl refl

abbrev getting : Consumer.Scene
getting = record { consumer = new_consumer header; header = header; message = blank }

try_get_next_example : Tried getting (try_get_next getting)
try_get_next_example =
    try_get_next_lem getting system-Started.ready.valid system-Started.ready.consumer_knows
      (omega arith)

abbrev pool : BlockPool
pool = record {
  base = 4096;
  pool_size = 200;
  block_size = 64;
  block_count = 2;
  root_offset = 64;
  links = λ o. if o == 64 then 128 else null_offset;
}

make_header_example :
    (pool' : BlockPool) × (h : Header) × (c : Consumer) × (h' : Header) × (make_header
        (72 ∷ 81 ∷ [])
        parameters
        pool
      ≡ ok (pool', h))
    × (make_consumer (make_producer true 7 h).1 ≡ ok (c, h'))
    × Started parameters
        (record { producer = (make_producer true 7 h).0; consumer = c; header = h' })
make_header_example =
    make_header-Started (72 ∷ 81 ∷ []) parameters pool (64 ∷ 128 ∷ []) true 7
      (refl, λ e. omega (arith, e), (refl, λ e. omega (arith, e), refl)) (omega arith) (omega arith)

mutex_used_example :
    let w = make_wait_strategy 3 2 1 10 100 in
    is_block (nth_pause 6 (start w)) ≡ (w.mutex_used && not (ltb 6 (3 + 2 + 1)))
mutex_used_example = mutex_used_lem 6 3 2 1 10 100 (omega arith) (omega arith) (omega arith)

abbrev memory_pool : MemoryPool
memory_pool = record { allocated_size = 400; pool = pool; number_of_allocations = 0 }

create_local-IsSettled_example :
    (r : Result Connection × Connection) × (create_local 100 4096
        (λ o. 0)
        make_connection
        []
        parameters
        (some memory_pool)
      ≡ some r)
    × (returned r ≡ leb parameters.entry_count (2))
    × IsSettled r
create_local-IsSettled_example =
    create_local-IsSettled 100 4096 (λ o. 0) make_connection [] parameters memory_pool
      (64 ∷ 128 ∷ []) (refl, λ e. omega (arith, e), (refl, λ e. omega (arith, e), refl))
