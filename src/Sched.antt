-- ===== src/Sched.antt =====
-- The scheduler (src/cc/noninteract_scheduler.c).
pub mod State
pub mod Local
pub mod Status
pub mod Balance
pub mod Commands
mod Examples
