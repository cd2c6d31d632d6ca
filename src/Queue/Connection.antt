-- ===== src/Queue/Connection.antt =====
-- src/HighQueue/Connection.cpp: how a queue in local memory is set up and who may use it. The sizes
-- of the C++ objects, and the addresses and old contents of new memory, are parameters.
use hsqueue.Base.{
  ℕ, Bool, List, Option, none, some, ◌==◌, add64, Result, ok, err, ◌>>=◌, uninitialized_connection,
}
use hsqueue.Message.{Message}
use hsqueue.Memory.BlockPool.{
  BlockPool, MemoryPool, make_memory_pool, pool_allocate, pool_try_allocate,
}
use hsqueue.Queue.Header.{Header, Parameters, make_header, release_internal_messages}

pub record Connection : Type 0 where
  pub expected_producers : ℕ
  pub memory_pool : Option MemoryPool
  pub header : Option Header

abbrev pub make_connection : Connection
make_connection = record { expected_producers = 0; memory_pool = none; header = none }

unfoldable pub will_produce : Connection → Connection
will_produce c = record c { expected_producers = add64 c.expected_producers 1 }

unfoldable pub can_solo : Connection → Bool
can_solo c = c.expected_producers == 1

-- The header is there, or an exception resets the connection and goes on to the caller.
abbrev pub with_header :
    Connection → MemoryPool → Result (BlockPool × Header) → Result Connection × Connection
with_header c mp (ok (pool, h)) =
    let c' = record c { memory_pool = some (record mp { pool = pool }); header = some h } in
    (ok c', c')
with_header c mp (err e) = (err e, record c { memory_pool = none; header = none })

-- The part of `createLocal` under `try`: the header, with the messages that it takes from the pool.
unfoldable pub create_header :
    Connection → List ℕ → Parameters → MemoryPool → Result Connection × Connection
create_header c name parameters mp = with_header c mp (make_header name parameters mp.pool)

-- `createLocal`: a pool of the connection's own, where none is given. The result is the exception, if
-- one is thrown, and the connection after the call; `none` stands for a pool whose construction does
-- not end.
unfoldable pub create_local :
    ℕ
    → ℕ
    → (ℕ → ℕ)
    → Connection
    → List ℕ
    → Parameters
    → Option MemoryPool
    → Option (Result Connection × Connection)
create_local sizeof_pool base links c name parameters (some mp) =
    some (create_header c name parameters mp)
create_local sizeof_pool base links c name parameters none =
    let made =
      make_memory_pool sizeof_pool base links parameters.message_size parameters.message_count in
    elim made [
      | ok none ↦ none
      | ok (some mp) ↦ some (create_header c name parameters mp)
      | err e ↦ some (err e, record c { memory_pool = none })
    ]

unfoldable pub get_header : Connection → Result Header
get_header c = elim c.header [ none ↦ err uninitialized_connection | some h ↦ ok h ]

-- `close`; the destructor does the same. The header and the pool stay.
unfoldable pub close : Connection → Result Connection
close c = elim c.memory_pool [
  | none ↦ ok c
  | some mp ↦ elim c.header [
    | none ↦ ok c
    | some h ↦ release_internal_messages mp.pool h >>= λ r.
        ok (record c { memory_pool = some (record mp { pool = r.0 }); header = some r.1 })
  ]
]

unfoldable pub allocate : Connection → Message → Result (Connection × Message)
allocate c m = elim c.memory_pool [
  | none ↦ err uninitialized_connection
  | some mp ↦ pool_allocate mp m >>= λ r. ok (record c { memory_pool = some r.0 }, r.1)
]

unfoldable pub try_allocate : Connection → Message → Result (Bool × Connection × Message)
try_allocate c m = elim c.memory_pool [
  | none ↦ err uninitialized_connection
  | some mp ↦
      let (done, mp', m') = pool_try_allocate mp m in
      ok (done, record c { memory_pool = some mp' }, m')
]

unfoldable pub get_message_capacity : Connection → Result ℕ
get_message_capacity c = elim c.memory_pool [
  | none ↦ err uninitialized_connection
  | some mp ↦ ok mp.pool.block_size
]
