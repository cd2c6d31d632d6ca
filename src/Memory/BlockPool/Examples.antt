-- ===== src/Memory/BlockPool/Examples.antt =====
-- The theorems about src/HighQueue/details/HQMemoryBlockPool.cpp at a pool of two blocks.
use mathlib.Core.List.{Pairwise}
use mathlib.Core.List.Perm
use hsqueue.Base.{◌≡◌, refl, [], ◌∷◌, some, ok, arith, ◌==◌, if◌then◌else◌}
use hsqueue.Message.{blank}
use hsqueue.Memory.BlockPool.{
  BlockPool, MemoryPool, null_offset, try_allocate, make_memory_pool, cache_aligned_message_size,
}
use hsqueue.Memory.BlockPool.Ownership.{
  State, Reach, here, next, take, IsSound, IsBlocks, Apart, held-Apart,
}
use hsqueue.Memory.BlockPool.Capacity.{Supplies, make_memory_pool_lem, blocks-IsBlocks}

-- Blocks at 64 and 128, the first linked to the second.
abbrev small_pool : BlockPool
small_pool = record {
  base = 4096;
  pool_size = 200;
  block_size = 64;
  block_count = 2;
  root_offset = 64;
  links = λ o. if o == 64 then 128 else null_offset;
}

abbrev untouched : State
untouched = record { pool = small_pool; held = [] }

untouched-IsSound : IsSound (64 ∷ 128 ∷ []) 64 untouched
untouched-IsSound = record {
  free = 64 ∷ 128 ∷ [];
  chain = (refl, λ e. omega (arith, e), (refl, λ e. omega (arith, e), refl));
  shared = Perm.rfl;
  sized = refl;
}

offsets-IsBlocks : IsBlocks (64 ∷ 128 ∷ []) 64
offsets-IsBlocks = blocks-IsBlocks 2 64 64 (omega arith) (omega arith)

abbrev one_held : State
one_held = record { pool = record small_pool { root_offset = 128 }; held = 64 ∷ [] }

one_held-Reach : Reach untouched one_held
unfolding try_allocate
one_held-Reach = next here (take blank refl)

held-Apart_example : Pairwise (Apart 64) (64 ∷ [])
held-Apart_example = held-Apart offsets-IsBlocks one_held-Reach untouched-IsSound

make_memory_pool_example :
    (mp : MemoryPool) × (make_memory_pool 100 4096 (λ o. 0) 50 3 ≡ ok (some mp))
    × Supplies 100 4096 50 3 mp.allocated_size mp.pool
make_memory_pool_example =
    make_memory_pool_lem 100 4096 (λ o. 0) 50 3 (omega arith) (omega arith) (omega arith)
      (omega arith) (unfold cache_aligned_message_size in omega arith)
