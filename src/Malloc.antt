-- ===== src/Malloc.antt =====
-- The lock-free malloc (src/mm/malloc, src/mm/arch/ia32/lf_malloc_data.c).
pub mod Anchor
pub mod State
pub mod Layout
pub mod Desc
pub mod Superblock
pub mod Partial
pub mod Alloc
pub mod Free
mod Examples
mod Runs
pub mod SizeClass
