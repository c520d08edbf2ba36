-- ===== src/Exec/Commands.antt =====
-- src/cc/cc.c: what the runtime offers for executors.
use masters_thesis.Base.{ℕ}
use masters_thesis.Base.Interleave.{Prog}
use masters_thesis.Exec.State.{Executors}
use masters_thesis.Exec.Cycle.{Goes, executor_sched_cycle, executor_safepoint}
use masters_thesis.Exec.Life.{executor_request, executor_stop}

unfoldable pub cc_request :
    (executor_size allocator_size gc_num_generations os_thread_size scheduler_size execs : ℕ) → ℕ
cc_request = executor_request

unfoldable pub cc_stop : (exec : ℕ) → Executors → Goes × Executors
cc_stop = executor_stop

module _ (scheduler_cycle : (exec : ℕ) → Prog Executors ℕ) where
  unfoldable pub cc_sched_cycle : (exec : ℕ) → Prog Executors Goes
  cc_sched_cycle = executor_sched_cycle scheduler_cycle

  unfoldable pub cc_safepoint : (exec sigs : ℕ) → Prog Executors Goes
  cc_safepoint = executor_safepoint scheduler_cycle
