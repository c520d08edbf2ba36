-- ===== src/ThreadQueue.antt =====
-- The queue of threads (src/cc/lf_thread_queue.c).
pub mod Nodes
pub mod Init
pub mod Retired
pub mod Queue
mod Examples
