-- ===== src/Memory/BlockPool/Capacity.antt =====
-- A `MemoryPool` that was asked for a number of blocks has as many, wherever its memory stands.
use mathlib.Core.List.{Mem, Perm, append-nil, Pairwise, mem-cons, not-mem-nil}
use mathlib.Core.List.Perm
use mathlib.Core.Logic.Or
use native.Mathlib.Bridge.{le_prop}
use native.Mathlib.Nat.{ℕ_set, le-div_iff_mul-le}
use hsqueue.Base.{
  ℕ, zero, suc, ◌+◌, ◌-◌, ◌*◌, ◌/◌, ◌%◌, ◌≤◌, ◌<◌, ◌≡◌, refl, sym, subst, List, [], ◌++◌, arith,
  w64, some, ok, add64, length,
}
use hsqueue.Memory.BlockPool.{
  BlockPool, cache_aligned_message_size, space_needed, first_block, make, MemoryPool,
  make_memory_pool,
}
use hsqueue.Memory.BlockPool.FreeList.{Chain}
use hsqueue.Memory.BlockPool.Carve.{
  blocks, make_lem, first_block_lem, cache_aligned_message_size_lem,
}
use hsqueue.Memory.BlockPool.Ownership.{Apart, IsBlocks, IsSound}

blocks_above : (n size offset o : ℕ) → Mem o (blocks n size offset) → offset ≤ o
blocks_above zero size offset o m = absurd (not-mem-nil m)
blocks_above (suc n) size offset o m =
    Or.elim le_prop (mem-cons.0 m) (λ e. omega arith)
      (λ m'. omega (arith, blocks_above n size (offset + size) o m'))

blocks_below : (n size offset o : ℕ) → Mem o (blocks n size offset) → o + size ≤ offset + n * size
blocks_below zero size offset o m = absurd (not-mem-nil m)
blocks_below (suc n) size offset o m =
    Or.elim le_prop (mem-cons.0 m) (λ e. omega arith)
      (λ m'. omega (arith, blocks_below n size (offset + size) o m'))

blocks-Pairwise : (n size offset : ℕ) → Pairwise (Apart size) (blocks n size offset)
blocks-Pairwise zero size offset = Pairwise.nil
blocks-Pairwise (suc n) size offset =
    Pairwise.cons (λ o m e. omega (arith, blocks_above n size (offset + size) o m))
      (blocks-Pairwise n size (offset + size))

pub blocks-IsBlocks :
    (n size offset : ℕ) → 0 < size → offset + n * size < w64 → IsBlocks (blocks n size offset) size
blocks-IsBlocks n size offset pos small = record {
  some_bytes = pos;
  apart = blocks-Pairwise n size offset;
  live = λ o m e. omega (arith, blocks_below n size offset o m);
}

blocks_aligned :
    (n size offset base o : ℕ)
    → size % 64 ≡ 0
    → (base + offset) % 64 ≡ 0
    → Mem o (blocks n size offset)
    → (base + o) % 64 ≡ 0
blocks_aligned zero size offset base o lines here m = absurd (not-mem-nil m)
blocks_aligned (suc n) size offset base o lines here m =
    Or.elim (ℕ_set _ _) (mem-cons.0 m) (λ e. omega arith)
      (λ m'. blocks_aligned n size (offset + size) base o lines (omega arith) m')

-- How many blocks of `size` bytes fit `space`, where `count` do.
floor_lem :
    (space size count : ℕ)
    → 0 < size
    → count * size ≤ space
    → (space / size * size ≤ space) × (space < suc (space / size) * size) × (count ≤ space / size)
floor_lem space size count pos fits = (ground arith, ground arith, (le-div_iff_mul-le pos).1 fits)

-- What a pool of `count` blocks or more is, in `limit` bytes at `base`.
pub record Supplies (sizeof_pool base block_size count limit : ℕ) (p : BlockPool) : Type 0 where
  pub offsets : List ℕ
  pub counted : p.block_count ≡ length offsets
  pub chain : Chain p.links p.root_offset offsets
  pub enough : count ≤ p.block_count
  pub long_enough : block_size ≤ p.block_size
  pub sound : IsSound offsets p.block_size (record { pool = p; held = [] })
  pub blocks_apart : IsBlocks offsets p.block_size
  pub placed :
      (o : ℕ)
      → Mem o offsets
      → (sizeof_pool ≤ o) × (o + p.block_size ≤ limit) × ((base + o) % 64 ≡ 0)

make-Supplies :
    (sizeof_pool base : ℕ) (links : ℕ → ℕ) (pool_size block_size count : ℕ)
    → let size = cache_aligned_message_size block_size in
      0 < block_size
      → 0 < count
      → block_size + 64 < w64
      → base + sizeof_pool + 64 < w64
      → sizeof_pool + 64 + count * size ≤ pool_size
      → pool_size + size + 1 < w64
      → (p : BlockPool) × (make sizeof_pool base links pool_size block_size ≡ ok (some p))
        × Supplies sizeof_pool base block_size count pool_size p
make-Supplies sizeof_pool base links pool_size block_size count pos more short near fits small =
    let (p, made, holds, at_base, sized, counted) =
      make_lem sizeof_pool base links pool_size block_size n positive above below small in
    (
      p,
      made,
      record {
        offsets = os;
        counted = holds.counted;
        chain = holds.chain;
        enough = omega (arith, whole);
        long_enough = omega (arith, rounded);
        sound = record { free = os; chain = holds.chain; shared = same_list; sized = refl };
        blocks_apart = subst (IsBlocks os) (sym sized) apart;
        placed = λ o m. (
          omega (arith, start, blocks_above (suc n) size first o m),
          omega (arith, blocks_below (suc n) size first o m, above),
          blocks_aligned (suc n) size first base o rounded.2 start.2 m,
        );
      },
    )
  where
    size : ℕ
    size = cache_aligned_message_size block_size

    first : ℕ
    first = first_block sizeof_pool base

    n : ℕ
    n = (pool_size - first) / size - 1

    rounded : (block_size ≤ size) × (size < block_size + 64) × (size % 64 ≡ 0)
    rounded = cache_aligned_message_size_lem block_size short

    start : (sizeof_pool ≤ first) × (first < sizeof_pool + 64) × ((base + first) % 64 ≡ 0)
    start = first_block_lem sizeof_pool base near

    positive : 0 < size
    positive = omega (arith, rounded)

    os : List ℕ
    os = blocks (suc n) size first

    whole :
        ((pool_size - first) / size * size ≤ pool_size - first)
        × (pool_size - first < suc ((pool_size - first) / size) * size)
        × (count ≤ (pool_size - first) / size)
    whole = floor_lem (pool_size - first) size count positive (omega (arith, start))

    above : first + suc n * size ≤ pool_size
    above =
        let e : suc n ≡ (pool_size - first) / size = omega (arith, whole) in
        rw e (omega (arith, start, whole))

    apart : IsBlocks os size
    apart = blocks-IsBlocks (suc n) size first positive (omega (arith, above))

    same_list : Perm (os ++ []) os
    same_list = subst (λ l. Perm l os) (sym (append-nil os)) Perm.rfl

    below : pool_size < first + suc (suc n) * size
    below =
        let e : suc n ≡ (pool_size - first) / size = omega (arith, whole) in
        rw e (omega (arith, start, whole))

-- A pool for `count` messages of `block_size` bytes, built at any address, has at least `count`
-- blocks; each is at least `block_size` bytes long, starts on a cache line behind the pool object and
-- ends inside the memory of the pool; no two overlap, and all are in the free list, if the sizes and
-- the address are such that no 64-bit sum wraps.
pub make_memory_pool_lem :
    (sizeof_pool base : ℕ) (links : ℕ → ℕ) (block_size count : ℕ)
    → 0 < block_size
    → 0 < count
    → block_size + 64 < w64
    → base + sizeof_pool + 64 < w64
    → sizeof_pool
        + (cache_aligned_message_size block_size * count + cache_aligned_message_size block_size)
        + 256
      < w64
    → (mp : MemoryPool) × (make_memory_pool sizeof_pool base links block_size count ≡ ok (some mp))
      × Supplies sizeof_pool base block_size count mp.allocated_size mp.pool
unfolding make_memory_pool
make_memory_pool_lem sizeof_pool base links block_size count pos more short near small =
    let (p, made, supplies) =
      make-Supplies sizeof_pool base links limit block_size count pos more short near
        (omega (arith, limit_lem)) (omega (arith, limit_lem)) in
    (record { allocated_size = limit; pool = p; number_of_allocations = 0 }, rw made, supplies)
  where
    limit : ℕ
    limit = add64 (space_needed sizeof_pool block_size count) 64

    limit_lem : limit ≡ sizeof_pool + count * cache_aligned_message_size block_size + 128
    limit_lem = unfold space_needed in omega arith
