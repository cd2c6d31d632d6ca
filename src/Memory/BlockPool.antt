-- ===== src/Memory/BlockPool.antt =====
-- src/HighQueue/details/HQMemoryBlockPool.cpp: blocks of one size in a free list that runs through
-- the blocks themselves; and src/HighQueue/MemoryPool.cpp, which owns such a pool.
use hsqueue.Base.{
  ℕ, zero, suc, ◌+◌, ◌-◌, ◌*◌, ◌/◌, ◌%◌, Bool, true, false, Option, none, some, ltb, leb, ◌==◌,
  if◌then◌else◌, w64, add64, mul64, sub64, Result, ok, err, ◌>>=◌, pool_too_small,
  allocation_failed, wrong_allocator, not,
}
use hsqueue.Message.{Message, attach, reset, get}
pub mod FreeList
pub mod Carve
pub mod Ownership
pub mod Capacity
mod Examples

-- `NULL_OFFSET`
abbrev pub null_offset : ℕ
null_offset = w64 - 1

-- `base` is the address of the pool. `links` are the words in memory, by their offset from there;
-- the first word of a free block is the offset of the next one.
pub record BlockPool : Type 0 where
  pub base : ℕ
  pub pool_size : ℕ
  pub block_size : ℕ
  pub block_count : ℕ
  pub root_offset : ℕ
  pub links : ℕ → ℕ

abbrev pub store : (ℕ → ℕ) → ℕ → ℕ → ℕ → ℕ
store links offset v o = if offset == o then v else links o

unfoldable pub cache_aligned_message_size : ℕ → ℕ
cache_aligned_message_size block_size = mul64 (sub64 (add64 block_size 64) 1 / 64) 64

module _ (sizeof_pool : ℕ) where
  unfoldable pub space_needed : ℕ → ℕ → ℕ
  unfolding cache_aligned_message_size
  space_needed block_size message_count =
      add64 (add64 sizeof_pool (mul64 (cache_aligned_message_size block_size) message_count)) 64

  -- The offset of the first block, behind the pool object and on a cache line.
  unfoldable pub first_block : ℕ → ℕ
  first_block base =
      let end = sub64 (add64 (add64 base sizeof_pool) 64) 1 in sub64 (sub64 end (end % 64)) base

-- The loop of `preAllocate`, from `current`, with the words and the count; `none` if the fuel runs
-- out.
unfoldable pub carve : ℕ → ℕ → ℕ → ℕ → (ℕ → ℕ) → ℕ → Option ((ℕ → ℕ) × ℕ)
carve zero block_size pool_size current links count = none
carve (suc fuel) block_size pool_size current links count =
    let next = add64 current block_size in
    let linked = if ltb pool_size (add64 next block_size) then null_offset else next in
    let rest = carve fuel block_size pool_size linked (store links current linked) (count + 1) in
    if current == null_offset then some (links, count) else rest

-- `preAllocate`, on the pool as the constructor left it. Each round but the last takes a block, so
-- `pool_size + 2` rounds are enough.
unfoldable pub pre_allocate : ℕ → BlockPool → ℕ → ℕ → Result (Option BlockPool)
pre_allocate sizeof_pool p block_size pool_size =
    let current = first_block sizeof_pool p.base in
    if ltb pool_size (add64 current p.block_size)
    then err pool_too_small
    else ok (elim (carve (pool_size + 2) block_size pool_size current p.links 0) [
      | none ↦ none
      | some (links, count) ↦ some (record p {
        pool_size = pool_size;
        block_size = block_size;
        block_count = count;
        root_offset = current;
        links = links;
      })
    ])

-- The members as the constructor sets them, `size` being the rounded block size.
abbrev pub unformatted : ℕ → (ℕ → ℕ) → ℕ → ℕ → BlockPool
unformatted base links pool_size size = record {
  base = base;
  pool_size = pool_size;
  block_size = size;
  block_count = 0;
  root_offset = null_offset;
  links = links;
}

-- The constructor, in memory whose words are `links`.
unfoldable pub make : ℕ → ℕ → (ℕ → ℕ) → ℕ → ℕ → Result (Option BlockPool)
make sizeof_pool base links pool_size block_size =
    let size = cache_aligned_message_size block_size in
    pre_allocate sizeof_pool (unformatted base links pool_size size) size pool_size

unfoldable pub try_allocate : BlockPool → Message → Bool × BlockPool × Message
unfolding attach
try_allocate p m = if p.root_offset == null_offset then (false, p, m) else (
  true,
  record p { root_offset = p.links p.root_offset },
  attach m p.base p.block_size p.root_offset 0,
)

unfoldable pub allocate : BlockPool → Message → Result (BlockPool × Message)
unfolding try_allocate
allocate p m =
    let (done, p', m') = try_allocate p m in if done then ok (p', m') else err allocation_failed

-- The word written stands at the block's offset from the pool, since the message's container is the
-- pool.
unfoldable pub release : BlockPool → Message → Result (BlockPool × Message)
unfolding reset
release p m =
    if m.container == p.base
    then ok
        (record p { links = store p.links m.offset p.root_offset; root_offset = m.offset }, reset m)
    else err wrong_allocator

unfoldable pub is_empty : BlockPool → Bool
is_empty p = p.root_offset == null_offset

-- `Message::release`: a message with no container is left alone.
unfoldable pub release_message : BlockPool → Message → Result (BlockPool × Message)
unfolding release
release_message p m = if m.container == 0 then ok (p, m) else release p m

-- src/HighQueue/MemoryPool.cpp
pub record MemoryPool : Type 0 where
  pub allocated_size : ℕ
  pub pool : BlockPool
  pub number_of_allocations : ℕ

unfoldable pub make_memory_pool : ℕ → ℕ → (ℕ → ℕ) → ℕ → ℕ → Result (Option MemoryPool)
make_memory_pool sizeof_pool base links block_size count =
    let size = add64 (space_needed sizeof_pool block_size count) 64 in
    make sizeof_pool base links size block_size >>= λ made. ok (elim made [
      | none ↦ none
      | some p ↦ some (record { allocated_size = size; pool = p; number_of_allocations = 0 })
    ])

unfoldable pub pool_try_allocate : MemoryPool → Message → Bool × MemoryPool × Message
unfolding try_allocate
pool_try_allocate mp m =
    let (done, p, m') = try_allocate mp.pool m in
    if done
    then (
      true,
      record mp { pool = p; number_of_allocations = add64 mp.number_of_allocations 1 },
      m',
    )
    else (false, record mp { pool = p }, m')

unfoldable pub pool_allocate : MemoryPool → Message → Result (MemoryPool × Message)
unfolding allocate
pool_allocate mp m = allocate mp.pool m >>= λ r.
    ok (record mp { pool = r.0; number_of_allocations = add64 mp.number_of_allocations 1 }, r.1)
