-- ===== src/Memory/Allocator.antt =====
-- src/HighQueue/details/HQAllocator.hpp: offsets handed out one after the other.
use hsqueue.Base.{
  ℕ, ◌+◌, ◌-◌, ◌*◌, ◌/◌, ◌%◌, ◌≤◌, ◌<◌, ◌≡◌, ◌≢◌, arith, leb, if◌then◌else◌, w64, w32, add32, sub64,
}

abbrev pub cache_line_size : ℕ
cache_line_size = 64

-- `align` at an integer type with `width` values; the sum is taken in `size_t`.
unfoldable pub align : ℕ → ℕ → ℕ → ℕ
align width offset alignment =
    if leb alignment 1
    then offset
    else (offset + alignment - 1) % w64 / alignment * alignment % width

pub record Allocator : Type 0 where
  pub available : ℕ
  pub position : ℕ

-- The location, and the allocator after the call. The padding is not added to the position.
unfoldable pub allocate : Allocator → ℕ → ℕ → ℕ × Allocator
unfolding align
allocate a size alignment =
    (align w32 a.position alignment, record a { position = add32 a.position (size % w32) })

-- What is left behind the aligned position, in `size_t`.
unfoldable pub available : Allocator → ℕ → ℕ
unfolding align
available a alignment = sub64 a.available (align w32 a.position alignment)

-- `align` to a cache line gives the least multiple of 64 that is not below the offset, if that is
-- a 32-bit number.
pub align_least :
    (offset : ℕ)
    → offset + 63 < w32
    → let aligned = align w32 offset cache_line_size in
      (aligned % 64 ≡ 0) × (offset ≤ aligned) × (aligned < offset + 64)
unfolding align
align_least offset h = (omega arith, omega arith, omega arith)

-- Two allocations in a row, aligned to cache lines, give areas that do not overlap if the first
-- size is a multiple of 64 and the offsets stay below 2^32.
pub allocate_disjoint :
    (a : Allocator) (lines size : ℕ)
    → a.position + lines * 64 + 63 < w32
    → let (first, a') = allocate a (lines * 64) cache_line_size in
      let (second, a'') = allocate a' size cache_line_size in first + lines * 64 ≡ second
unfolding allocate
allocate_disjoint a lines size h = omega arith

-- For other sizes they may overlap: from a position inside a line, an object that would fit the rest
-- of that line gets the start of the next one, and so does the object after it.
pub allocate_overlaps :
    (a : Allocator) (size other : ℕ)
    → a.position + 63 < w32
    → a.position % 64 ≢ 0
    → a.position % 64 + size ≤ 64
    → let (first, a') = allocate a size cache_line_size in
      let (second, a'') = allocate a' other cache_line_size in first ≡ second
unfolding allocate
allocate_overlaps a size other h inside fits = omega arith
