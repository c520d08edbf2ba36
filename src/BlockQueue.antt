-- ===== src/BlockQueue.antt =====
-- src/mm/malloc/lf_block_queue.c: the lock-free queue of blocks, its nodes and its hazard pointers.
pub mod Nodes
pub mod Links
pub mod Fifo
pub mod Retired
pub mod Queue
mod Examples
