-- ===== src/Os.antt =====
-- The operating system layer, src/os.
pub mod Mem
