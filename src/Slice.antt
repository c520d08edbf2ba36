-- ===== src/Slice.antt =====
-- The slice allocator, src/mm/slice.c: a table of descriptors for regions of memory that the
-- operating system maps, a lock-free list of the unused ones, and counters of reserved space.
mod Examples
pub mod Types
pub mod Entry
pub mod Space
pub mod Alloc
