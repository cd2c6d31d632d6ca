-- ===== src/Memory.antt =====
-- The memory of a queue: src/HighQueue/details/HQAllocator.hpp and HQMemoryBlockPool.cpp, the layout
-- that Connection.cpp and HQHeader.cpp make with the first, and src/HighQueue/MemoryPool.cpp.
pub mod Allocator
pub mod Layout
pub mod BlockPool
mod Examples
