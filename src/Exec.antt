-- ===== src/Exec.antt =====
-- src/cc/thread_executor.c and src/cc/thread.c: the executors and their threads.
pub mod State
pub mod Signals
pub mod Cycle
pub mod Threads
pub mod Life
pub mod Commands
pub mod Examples
