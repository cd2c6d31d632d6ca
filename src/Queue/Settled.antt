-- ===== src/Queue/Settled.antt =====
-- What `Connection::createLocal` of src/HighQueue/Connection.cpp leaves, whether it returns or throws.
use hsqueue.Base.{
  ℕ, zero, suc, ◌<◌, ◌≡◌, refl, ap, Bool, true, false, List, [], ◌∷◌, some, leb, length, arith,
  Result, ok, err, uninitialized_connection, allocation_failed, dec_lt,
}
use hsqueue.Message.{Message, blank}
use hsqueue.Memory.BlockPool.{BlockPool, MemoryPool}
use hsqueue.Memory.BlockPool.FreeList.{Chain}
use hsqueue.Queue.Header.{Header, Parameters, allocate_internal_messages, make_header, new_header}
use hsqueue.Queue.Connection.{
  Connection, create_local, create_header, with_header, get_header, close, allocate, try_allocate,
  get_message_capacity,
}
use hsqueue.Queue.Setup.{allocate-Chain, allocate_none, allocate_internal_messages-Fresh}

-- A connection that has a header, or neither header nor pool after an error.
abbrev pub IsSettled : Result Connection × Connection → Type 0
IsSettled (ok c, c') =
    (c ≡ c')
    × ((h : Header) × (get_header c' ≡ ok h))
    × ((mp : MemoryPool) × (c'.memory_pool ≡ some mp))
IsSettled (err e, c') =
    (e ≡ allocation_failed)
    × (get_header c' ≡ err uninitialized_connection)
    × ((m : Message) → allocate c' m ≡ err uninitialized_connection)
    × ((m : Message) → try_allocate c' m ≡ err uninitialized_connection)
    × (get_message_capacity c' ≡ err uninitialized_connection)
    × (close c' ≡ ok c')

abbrev pub returned : Result Connection × Connection → Bool
returned (ok c, c') = true
returned (err e, c') = false

-- With fewer free blocks than entries there is an entry that gets no message.
allocate_internal_messages_short :
    (n : ℕ) (pool : BlockPool) (os : List ℕ)
    → Chain pool.links pool.root_offset os
    → length os < n
    → allocate_internal_messages n pool ≡ err allocation_failed
unfolding allocate_internal_messages
allocate_internal_messages_short zero pool os c few = absurd (omega (arith, few))
allocate_internal_messages_short (suc n) pool [] c few = rw (allocate_none pool c)
allocate_internal_messages_short (suc n) pool (o ∷ os) c few =
    let (given, c') = allocate-Chain pool blank o os c in
    let rest =
      allocate_internal_messages_short n (record pool { root_offset = pool.links pool.root_offset })
        os c' (omega (arith, few)) in
    rw (given, rest)

-- With a pool given, whose free blocks are `os`, `createLocal` returns exactly if there is a block for
-- each entry, and throws that the allocation failed if not. If it returns, the connection has a header
-- and the pool; if it throws, `getHeader`, `allocate`, `tryAllocate` and `getMessageCapacity` throw
-- that the connection is not initialized, and `close` does nothing.
pub create_local-IsSettled :
    (sizeof_pool base : ℕ) (links : ℕ → ℕ) (c : Connection) (name : List ℕ)
    (parameters : Parameters) (mp : MemoryPool) (os : List ℕ)
    → Chain mp.pool.links mp.pool.root_offset os
    → (r : Result Connection × Connection) × (create_local sizeof_pool base links c name parameters
          (some mp)
        ≡ some r)
      × (returned r ≡ leb parameters.entry_count (length os))
      × IsSettled r
unfolding create_local create_header get_header allocate try_allocate close make_header
    get_message_capacity
create_local-IsSettled sizeof_pool base links c name parameters mp os free =
    elim (dec_lt (length os) parameters.entry_count) [
      | yes few ↦
          let short = allocate_internal_messages_short parameters.entry_count mp.pool os free few in
          (
            with_header c mp (err allocation_failed),
            ap (λ made. some (with_header c mp made)) {y = err allocation_failed} (rw short),
            ground (arith, few),
            (refl, refl, λ m. refl, λ m. refl, refl, refl),
          )
      | no enough ↦
          let (made, e, _) =
            allocate_internal_messages-Fresh parameters.entry_count mp.pool os free
              (omega (arith, enough)) in
          let h = new_header name parameters made.1 in
          (
            with_header c mp (ok (made.0, h)),
            ap (λ m. some (with_header c mp m)) {y = ok (made.0, h)} (rw e),
            ground (arith, enough),
            (refl, (h, refl), (record mp { pool = made.0 }, refl)),
          )
    ]
