-- ===== src/Exec/Cycle.antt =====
-- src/cc/thread_executor.c: an executor leaves its thread for another one.
pub mod Bound
use masters_thesis.Base.{
  ℕ, zero, suc, ◌+◌, none, List, length, Bool, true, false, ◌==◌, not, bit_and, bit_or,
  if◌then◌else◌,
}
use masters_thesis.Base.Interleave.{Window, Prog, pure, once, retry, modify, gets, ◌>>=◌, ◌>>◌}
use masters_thesis.Exec.State.{
  Mailbox, UserThread, Executor, Executors, null, set_executor, set_thread,
}
use masters_thesis.Exec.Signals.{take_signals}

-- What an executor goes on with: the code behind the call, a context that is loaded, or nothing,
-- where its thread of the system ends.
pub data Goes : Type 0 where
  on : Goes
  to : (retaddr stkptr : ℕ) → Goes
  away : Goes

abbrev pub set_mbox : (thread : ℕ) → (Mailbox → Mailbox) → Executors → Executors
set_mbox thread f = set_thread thread (λ t. record t { t_mbox = f t.t_mbox })

unfoldable pub executor_retire_old_thread : (exec : ℕ) → Executors → Executors
executor_retire_old_thread exec s =
    let thread = (s.executor exec).sch_curr_thread in
    if thread == null
    then s
    else set_mbox thread (λ m. record m { executor = s.null_executor })
        (set_executor exec
          (λ x. record x { ex_gc_write_log_index = (s.thread thread).t_mbox.write_log_index }) s)

-- What a thread's mailbox has when the executor enters it.
abbrev pub return_context : (exec : ℕ) → Executor → Mailbox → Mailbox
return_context exec x m = record m {
  executor = exec;
  stkptr = x.ex_c_stack;
  sigptr = x.signal_mbox_address;
  write_log_index = x.ex_gc_write_log_index;
  write_log = x.ex_gc_write_log;
  allocators = x.ex_gc_allocators;
}

-- The context of the thread is loaded. Its mailbox then has that of the executor.
unfoldable pub enter_thread : (exec thread : ℕ) → Executors → Goes × Executors
enter_thread exec thread s =
    let m = (s.thread thread).t_mbox in
    (to m.retaddr m.stkptr, set_mbox thread (return_context exec (s.executor exec)) s)

-- `scheduler_cycle` gives the thread to go on with.
module _ (scheduler_cycle : (exec : ℕ) → Prog Executors ℕ) where
  unfoldable pub executor_get_new_thread : (exec : ℕ) → Prog Executors Goes
  executor_get_new_thread exec = do
    thread ← scheduler_cycle exec
    goes ← gets (λ s. (enter_thread exec thread s).0)
    modify (λ s. (enter_thread exec thread s).1)
    pure goes

  abbrev pub if_live : (live : Bool) → Prog Executors Goes → Prog Executors Goes
  if_live true body = body
  if_live false body = pure away

  unfoldable pub do_executor_sched_cycle : (exec : ℕ) → Prog Executors Goes
  do_executor_sched_cycle exec = do
    live ← once (λ w s. ((w.before s).executor_live, w.before s))
    if_live live (do modify (executor_retire_old_thread exec); executor_get_new_thread exec)

  -- It has the same body.
  unfoldable pub do_executor_run_gc : (exec : ℕ) → Prog Executors Goes
  do_executor_run_gc exec = do
    live ← once (λ w s. ((w.before s).executor_live, w.before s))
    if_live live (do modify (executor_retire_old_thread exec); executor_get_new_thread exec)

  unfoldable pub executor_sched_cycle : (exec : ℕ) → Prog Executors Goes
  executor_sched_cycle = do_executor_sched_cycle

  -- A loop ends with a call that does not return.
  abbrev pub go_on : Goes → Prog Executors Goes → Prog Executors Goes
  go_on on rest = rest
  go_on (to retaddr stkptr) rest = pure (to retaddr stkptr)
  go_on away rest = pure away

  -- Whether the mailbox has one of these signals.
  abbrev pub has_signal : (mbox signal : ℕ) → Bool
  has_signal mbox signal = not (bit_and mbox signal == 0)

  abbrev pub process_signals : (exec mbox : ℕ) → (for_schedule for_gc : Bool) → Prog Executors Goes
  process_signals exec mbox true for_gc = do_executor_sched_cycle exec
  process_signals exec mbox false true = do_executor_run_gc exec
  process_signals exec mbox false false = pure on

  unfoldable pub executor_check_mbox_sigs : (exec sigs : ℕ) → Prog Executors Goes
  executor_check_mbox_sigs exec sigs = do
    taken ← retry (take_signals exec)
    let mbox = bit_or taken sigs
    for_schedule ← gets (λ s. has_signal mbox s.ex_signal_schedule)
    for_gc ← gets (λ s. has_signal mbox s.ex_signal_gc)
    process_signals exec mbox for_schedule for_gc

  unfoldable pub executor_safepoint : (exec sigs : ℕ) → Prog Executors Goes
  executor_safepoint = executor_check_mbox_sigs

  -- The loop of executor_idle_thread. `none` where the fuel ends first.
  unfoldable pub idle_rounds : (fuel exec : ℕ) → Prog Executors Goes
  idle_rounds zero exec ws s = none
  idle_rounds (suc fuel) exec ws s =
      (once (λ w u. ((w.before u).executor_live, w.before u)) >>= λ live.
      if_live live (executor_check_mbox_sigs exec 0 >>= λ goes. go_on goes (idle_rounds fuel exec)))
        ws s

  -- One more round than the windows of the schedule: each round uses up a window.
  unfoldable pub executor_idle_thread : (exec : ℕ) → Prog Executors Goes
  executor_idle_thread exec ws s = idle_rounds (length ws + 1) exec ws s
