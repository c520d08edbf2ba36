-- ===== src/Exec/State.antt =====
-- src/cc/thread_executor.c, include/cc/thread.h: executors, the mailboxes of threads, and the
-- calls of the system.
use masters_thesis.Base.{ℕ, Bool, true, false, List, ◌∷◌, ◌==◌, if◌then◌else◌}

-- The words of a thread's mailbox, each of which has a function thread_mbox_* for its address.
pub record Mailbox : Type 0 where
  pub retaddr : ℕ
  pub stkptr : ℕ
  pub executor : ℕ
  pub sigptr : ℕ
  pub write_log_index : ℕ
  pub write_log : ℕ
  pub allocators : ℕ

pub record UserThread : Type 0 where
  pub t_id : ℕ
  pub t_sched_stat_ref : ℕ
  pub t_destroy : ℕ
  pub t_mbox : Mailbox

-- An executor with the fields of its scheduler that it reads. The first three are addresses in it.
pub record Executor : Type 0 where
  pub signal_mbox_address : ℕ
  pub ex_gc_write_log : ℕ
  pub ex_gc_allocators : ℕ
  pub ex_signal_mbox : ℕ
  pub ex_c_stack : ℕ
  pub ex_gc_write_log_index : ℕ
  pub ex_thread : ℕ
  pub ex_idle_thread : ℕ
  pub ex_gc_thread : ℕ
  pub sch_curr_thread : ℕ
  pub sch_idle_thread : ℕ
  pub sch_gc_thread : ℕ
  pub sch_num_threads : ℕ

-- Calls of the system, of the schedulers, and of the function t_destroy of a thread.
pub data Call : Type 0 where
  create_signal_thread : Call
  thread_create : (exec : ℕ) → Call
  signal_send : (os_thread : ℕ) → Call
  thread_join : (os_thread : ℕ) → Call
  destroy_scheduler : (exec : ℕ) → Call
  stop_schedulers : Call
  key_destroy : Call
  destroy_thread : (t_destroy thread : ℕ) → Call

-- `ex_signal_schedule` and `ex_signal_gc` are defined outside of the repository. `calls` has the
-- last call first. `idle_code` and `gc_code` are the addresses of executor_idle_thread and
-- executor_gc_thread, and `own_thread` is what os_thread_self and os_thread_create give to an
-- executor.
pub record Executors : Type 0 where
  pub executor : ℕ → Executor
  pub thread : ℕ → UserThread
  pub thread_num : ℕ
  pub thread_id : ℕ
  pub executor_num : ℕ
  pub executor_live : Bool
  pub executor_signal_thread : ℕ
  pub null_executor : ℕ
  pub ex_signal_schedule : ℕ
  pub ex_signal_gc : ℕ
  pub own_thread : ℕ → ℕ
  pub idle_code : ℕ
  pub gc_code : ℕ
  pub calls : List Call

abbrev pub null : ℕ
null = 0

abbrev pub set_executor : (exec : ℕ) → (Executor → Executor) → Executors → Executors
set_executor exec f s = record s {
  executor = λ e. if e == exec then f (s.executor e) else s.executor e;
}

abbrev pub set_thread : (thread : ℕ) → (UserThread → UserThread) → Executors → Executors
set_thread thread f s = record s {
  thread = λ t. if t == thread then f (s.thread t) else s.thread t;
}

abbrev pub set_signal_mbox : (exec sigs : ℕ) → Executors → Executors
set_signal_mbox exec sigs = set_executor exec (λ x. record x { ex_signal_mbox = sigs })

abbrev pub call : Call → Executors → Executors
call c s = record s { calls = c ∷ s.calls }

-- `atomic_compare_and_set_uint(expect, value, &(exec->ex_signal_mbox))`
abbrev pub cas_signal_mbox : (exec expect value : ℕ) → Executors → Bool × Executors
cas_signal_mbox exec expect value s =
    if (s.executor exec).ex_signal_mbox == expect
    then (true, set_signal_mbox exec value s)
    else (false, s)
