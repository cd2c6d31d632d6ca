-- ===== src/Memory/Layout.antt =====
-- Where the parts of a queue stand in its block: `spaceNeededForHeader` and `createLocal` of
-- src/HighQueue/Connection.cpp, and the allocations of the constructor in
-- src/HighQueue/details/HQHeader.cpp. The sizes that the compiler gives to `HQHeader` and
-- `HighQEntry` are parameters.
use hsqueue.Base.{ℕ, ◌+◌, ◌*◌, ◌/◌, ◌%◌, ◌≤◌, ◌<◌, ◌≡◌, arith, w64, w32, add64, mul64, sub64}
use hsqueue.Memory.Allocator.{Allocator, allocate, align, cache_line_size}

-- The offsets that the header keeps, and the allocator that is left.
pub record Layout : Type 0 where
  pub entries : ℕ
  pub read_position : ℕ
  pub publish_position : ℕ
  pub reserve_position : ℕ
  pub rest : Allocator

module _ (sizeof_header sizeof_entry : ℕ) where
  -- `HighQEntry::alignedSize`
  unfoldable pub entry_size : ℕ
  unfolding align
  entry_size = align w64 sizeof_entry cache_line_size

  unfoldable pub space_needed_for_header : ℕ → ℕ
  unfolding entry_size align
  space_needed_for_header entry_count =
      add64
        (add64 (add64 (align w64 sizeof_header cache_line_size) (mul64 entry_size entry_count))
          (cache_line_size * 3))
        cache_line_size

  -- The allocations of the constructor, with a pool given, as `createLocal` does.
  unfoldable pub allocate_header : Allocator → ℕ → Layout
  unfolding entry_size allocate
  allocate_header a entry_count =
      let (entries, a1) = allocate a (mul64 entry_size entry_count) cache_line_size in
      let (read_position, a2) = allocate a1 cache_line_size cache_line_size in
      let (publish_position, a3) = allocate a2 cache_line_size cache_line_size in
      let (reserve_position, a4) = allocate a3 cache_line_size cache_line_size in
      record {
        entries = entries;
        read_position = read_position;
        publish_position = publish_position;
        reserve_position = reserve_position;
        rest = a4;
      }

  -- The block at address `block` is aligned first; the allocator starts behind the header.
  unfoldable pub create_local : ℕ → ℕ → Layout
  unfolding space_needed_for_header allocate_header
  create_local block entry_count =
      let aligned = align w64 block cache_line_size in
      allocate_header
        (record {
          available = sub64 (space_needed_for_header entry_count) (sub64 aligned block);
          position = sizeof_header % w32;
        })
        entry_count

  -- What the parts need: they follow the header and one another, on cache lines, and end inside
  -- what is available.
  pub record IsLaidOut (entry_count : ℕ) (l : Layout) : Type 0 where
    pub after_header : sizeof_header ≤ l.entries
    pub entries_aligned : l.entries % 64 ≡ 0
    pub entries_end : l.entries + entry_size * entry_count ≡ l.read_position
    pub read_end : l.read_position + 64 ≡ l.publish_position
    pub publish_end : l.publish_position + 64 ≡ l.reserve_position
    pub fits : l.reserve_position + 64 ≤ l.rest.available

  -- The entries take whole cache lines.
  entries_lines :
      (entry_count : ℕ)
      → sizeof_entry + 63 < w64
      → entry_size * entry_count ≡ 64 * ((sizeof_entry + 63) / 64 * entry_count)
  unfolding entry_size
  entries_lines entry_count h = rw lines (omega arith)
    where
      lines : align w64 sizeof_entry cache_line_size ≡ 64 * ((sizeof_entry + 63) / 64)
      lines = unfold align in omega arith

  -- The padding in front of the aligned header.
  padding : (block : ℕ) → block + 63 < w64 → sub64 (align w64 block cache_line_size) block ≤ 63
  unfolding align
  padding block h = omega arith

  space_needed_for_header_lem :
      (entry_count : ℕ)
      → sizeof_header + entry_size * entry_count + 512 < w32
      → space_needed_for_header entry_count
        ≡ (sizeof_header + 63) / 64 * 64 + entry_size * entry_count + 256
  unfolding space_needed_for_header
  space_needed_for_header_lem entry_count h = omega arith

  -- Wherever the block stands, `createLocal` allocates enough for the header, the entries and the
  -- three positions, and lays them out with no overlap, if the header and the entries take fewer
  -- than 2^32 - 512 bytes, and no rounding up leaves the address space.
  pub create_local-IsLaidOut :
      (block entry_count : ℕ)
      → sizeof_entry + 63 < w64
      → sizeof_header + entry_size * entry_count + 512 < w32
      → block + 63 < w64
      → IsLaidOut entry_count (create_local block entry_count)
  unfolding create_local
  create_local-IsLaidOut block entry_count entry_small small fits = omega (
    arith,
    entries_lines entry_count entry_small,
    padding block fits,
    space_needed_for_header_lem entry_count small,
  )
