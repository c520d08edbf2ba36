-- ===== src/Gc.antt =====
-- The garbage collector (src/mm/gc).
pub mod Desc
pub mod Alloc
pub mod Thread
mod Examples
