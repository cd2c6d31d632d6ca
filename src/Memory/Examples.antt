-- ===== src/Memory/Examples.antt =====
-- The theorems about src/HighQueue/details/HQAllocator.hpp and the layout of a queue at numbers of
-- their own.
use hsqueue.Base.{◌+◌, ◌*◌, ◌≡◌, arith}
use hsqueue.Memory.Allocator.{Allocator, allocate, cache_line_size, allocate_disjoint}
use hsqueue.Memory.Layout.{IsLaidOut, create_local, create_local-IsLaidOut, entry_size}

abbrev allocator : Allocator
allocator = record { available = 1000; position = 200 }

disjoint_example :
    let (first, a') = allocate allocator (2 * 64) cache_line_size in
    let (second, a'') = allocate a' 24 cache_line_size in first + 2 * 64 ≡ second
disjoint_example = allocate_disjoint allocator 2 24 (omega arith)

create_local-IsLaidOut_example : IsLaidOut 300 72 10 (create_local 300 72 4000 10)
create_local-IsLaidOut_example =
    create_local-IsLaidOut 300 72 4000 10 (omega arith) (unfold entry_size in omega arith)
      (omega arith)
