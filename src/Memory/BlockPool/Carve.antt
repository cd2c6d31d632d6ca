-- ===== src/Memory/BlockPool/Carve.antt =====
-- What `preAllocate` makes of the memory behind the pool object.
use hsqueue.Base.{
  ℕ, zero, suc, ◌+◌, ◌*◌, ◌%◌, ◌≤◌, ◌<◌, ◌≡◌, refl, List, [], ◌∷◌, arith, w64, Option, some, ok,
  ◌≢◌, length, ap, sym, ◌∙◌,
}
use hsqueue.Memory.BlockPool.{
  BlockPool, null_offset, store, cache_aligned_message_size, first_block, carve, pre_allocate, make,
  unformatted,
}
use hsqueue.Memory.BlockPool.FreeList.{Chain, Chain-root}

-- The offsets of `n` blocks, first one first.
abbrev pub blocks : ℕ → ℕ → ℕ → List ℕ
blocks zero size offset = []
blocks (suc n) size offset = offset ∷ blocks n size (offset + size)

-- What the loop leaves from `current`: `n` blocks in a chain, and the words before them untouched.
abbrev Carved : ℕ → ℕ → ℕ → (ℕ → ℕ) → ℕ → Option ((ℕ → ℕ) × ℕ) → Type 0
Carved n size current links count r =
    (links' : ℕ → ℕ) × (r ≡ some (links', count + n))
    × Chain links' current (blocks n size current)
    × ((o : ℕ) → o < current → links' o ≡ links o)

carve_last :
    (fuel size pool_size current : ℕ) (links : ℕ → ℕ) (count : ℕ)
    → current + size ≤ pool_size
    → pool_size < current + size + size
    → pool_size + size + 1 < w64
    → Carved 1 size current links count (carve (suc (suc fuel)) size pool_size current links count)
unfolding carve
carve_last fuel size pool_size current links count fits last small =
    (store links current null_offset, ground arith, ground arith, λ o h. ground arith)

carve_more :
    (fuel size pool_size current : ℕ) (links : ℕ → ℕ) (count : ℕ)
    → 0 < size
    → current + size + size ≤ pool_size
    → pool_size + size + 1 < w64
    → carve (suc fuel) size pool_size current links count
      ≡ carve fuel size pool_size
          (current + size)
          (store links current (current + size))
          (count + 1)
unfolding carve
carve_more fuel size pool_size current links count pos fits small = ground arith

-- A block in front of a chain that starts behind it.
Carved-cons :
    (n size current : ℕ) (links : ℕ → ℕ) (count : ℕ) (r : Option ((ℕ → ℕ) × ℕ))
    → 0 < size
    → current ≢ null_offset
    → Carved n size (current + size) (store links current (current + size)) (count + 1) r
    → Carved (suc n) size current links count r
Carved-cons n size current links count r pos live (links', e, chain, before) = (
  links',
  e ∙ ap (λ k. some (links', k)) (omega arith),
  (refl, live, Chain-root links' _ _ (blocks n size (current + size)) here chain),
  λ o h. before o (omega arith) ∙ (ground arith),
)
  where
    here : links' current ≡ current + size
    here = before current (omega arith) ∙ (ground arith)

carve-Carved :
    (n fuel size pool_size current : ℕ) (links : ℕ → ℕ) (count : ℕ)
    → 0 < size
    → n < fuel
    → current + suc n * size ≤ pool_size
    → pool_size < current + suc (suc n) * size
    → pool_size + size + 1 < w64
    → Carved (suc n) size current links count (carve (suc fuel) size pool_size current links count)
carve-Carved n zero size pool_size current links count pos enough fits last small =
    absurd (omega arith)
carve-Carved zero (suc fuel) size pool_size current links count pos enough fits last small =
    carve_last fuel size pool_size current links count (omega arith) (omega arith) small
carve-Carved (suc n) (suc fuel) size pool_size current links count pos enough fits last small =
    Carved-cons (suc n) size current links count _ pos (omega arith) (
      rw (carve_more (suc fuel) size pool_size current links count pos (omega arith) small) (
        carve-Carved n fuel size pool_size (current + size) (store links current (current + size))
          (count + 1) pos (omega arith) (omega arith) (omega arith) small))

-- A pool whose free list is these offsets.
pub record Holds (p : BlockPool) (os : List ℕ) : Type 0 where
  pub chain : Chain p.links p.root_offset os
  pub counted : p.block_count ≡ length os

-- Where the pool object stands, and how large the pool is: the first block starts behind the object,
-- fewer than 64 bytes on, on a cache line of the process.
pub first_block_lem :
    (sizeof_pool base : ℕ)
    → base + sizeof_pool + 64 < w64
    → (sizeof_pool ≤ first_block sizeof_pool base)
      × (first_block sizeof_pool base < sizeof_pool + 64)
      × ((base + first_block sizeof_pool base) % 64 ≡ 0)
unfolding first_block
first_block_lem sizeof_pool base h = (omega arith, omega arith, omega arith)

pub cache_aligned_message_size_lem :
    (block_size : ℕ)
    → block_size + 64 < w64
    → let size = cache_aligned_message_size block_size in
      (block_size ≤ size) × (size < block_size + 64) × (size % 64 ≡ 0)
unfolding cache_aligned_message_size
cache_aligned_message_size_lem block_size h = (omega arith, omega arith, omega arith)

length-blocks : (n size offset : ℕ) → length (blocks n size offset) ≡ n
length-blocks zero size offset = refl
length-blocks (suc n) size offset = ap suc (length-blocks n size (offset + size))

le_mul : (n size : ℕ) → 0 < size → n ≤ suc n * size
le_mul zero size pos = omega arith
le_mul (suc n) size pos = omega (arith, le_mul n size pos)

pre_allocate_lem :
    (sizeof_pool : ℕ) (p : BlockPool) (block_size pool_size count : ℕ) (links : ℕ → ℕ)
    → first_block sizeof_pool p.base + p.block_size ≤ pool_size
    → pool_size < w64
    → carve (suc (pool_size + 1)) block_size pool_size (first_block sizeof_pool p.base) p.links 0
      ≡ some (links, 0 + count)
    → pre_allocate sizeof_pool p block_size pool_size
      ≡ ok (
          some (record p {
            pool_size = pool_size;
            block_size = block_size;
            block_count = count;
            root_offset = first_block sizeof_pool p.base;
            links = links;
          }))
unfolding pre_allocate
pre_allocate_lem sizeof_pool p block_size pool_size count links fits small e =
    let more : pool_size + 2 ≡ suc (pool_size + 1) = omega arith in rw more (rw e (ground arith))

-- Building a pool succeeds where one block fits behind the object, and then the free list holds, in
-- order, as many blocks as fit: `n` of them, if `n` blocks fit and `n + 1` do not.
pub make_lem :
    (sizeof_pool base : ℕ) (links : ℕ → ℕ) (pool_size block_size n : ℕ)
    → let size = cache_aligned_message_size block_size in
      let first = first_block sizeof_pool base in
      0 < size
      → first + suc n * size ≤ pool_size
      → pool_size < first + suc (suc n) * size
      → pool_size + size + 1 < w64
      → (p : BlockPool) × (make sizeof_pool base links pool_size block_size ≡ ok (some p))
        × Holds p (blocks (suc n) size first)
        × (p.base ≡ base)
        × (p.block_size ≡ size)
        × (p.block_count ≡ suc n)
unfolding make
make_lem sizeof_pool base links pool_size block_size n pos fits last small =
    let (links', e, chain, before) =
      carve-Carved n (pool_size + 1) _ pool_size _ links 0 pos enough fits last small in
    (
      record {
        base = base;
        pool_size = pool_size;
        block_size = cache_aligned_message_size block_size;
        block_count = suc n;
        root_offset = first_block sizeof_pool base;
        links = links';
      },
      pre_allocate_lem sizeof_pool (unformatted base links pool_size size) size pool_size (suc n)
          links' (omega arith) (omega arith) e,
      record { chain = chain; counted = ap suc (sym (length-blocks n _ _)) },
      refl,
      refl,
      refl,
    )
  where
    size : ℕ
    size = cache_aligned_message_size block_size

    enough : n < pool_size + 1
    enough = omega (arith, le_mul n (cache_aligned_message_size block_size) pos)
