-- ===== src/Exec/Life.antt =====
-- src/cc/thread_executor.c: the start and the end of the executors.
pub mod Shutdown
use masters_thesis.Base.{ℕ, zero, suc, ◌+◌, ◌-◌, true, false, ◌==◌, bit_or, if◌then◌else◌}
use masters_thesis.Base.Word.{add32}
use masters_thesis.Base.Interleave.{Prog, modify, ◌>>◌}
use masters_thesis.Malloc.Layout.{aligned}
use masters_thesis.ThreadQueue.Init.{mul32}
use masters_thesis.Exec.State.{
  Mailbox, UserThread, Executor, Executors, Call, create_signal_thread, thread_create, signal_send,
  thread_join, destroy_scheduler, stop_schedulers, key_destroy, null, set_executor, set_thread,
  call,
}
use masters_thesis.Sched.State.{t_stat_runnable, t_stat_running, t_ref}
use masters_thesis.Exec.Threads.{thread_init}
use masters_thesis.Exec.Cycle.{Goes, away, do_executor_sched_cycle}

-- The sizes of executor_t and gc_allocator_t.
unfoldable pub executor_request :
    (executor_size allocator_size gc_num_generations os_thread_size scheduler_size execs : ℕ) → ℕ
executor_request executor_size allocator_size gc_num_generations os_thread_size scheduler_size
      execs =
    let size = mul32 execs (add32 executor_size (mul32 gc_num_generations allocator_size)) in
    add32 (add32 (aligned size) scheduler_size) os_thread_size

-- The idle and the garbage collector thread at their start.
abbrev pub own_context : (s : Executors) (x : Executor) (code stkptr : ℕ) → Mailbox
own_context s x code stkptr = record {
  retaddr = code;
  stkptr = stkptr;
  executor = s.null_executor;
  sigptr = x.signal_mbox_address;
  write_log_index = 0;
  write_log = x.ex_gc_write_log;
  allocators = x.ex_gc_allocators;
}

abbrev pub start_own : (mbox : Mailbox) → UserThread
start_own mbox = record {
  t_id = 0;
  t_sched_stat_ref = bit_or t_stat_running t_ref;
  t_destroy = null;
  t_mbox = mbox;
}

unfoldable pub executor_setup_threads : (exec aligned_stkptr : ℕ) → Executors → Executors
executor_setup_threads exec aligned_stkptr s =
    let x = s.executor exec in
    set_thread x.ex_gc_thread (λ _. start_own (own_context s x s.gc_code aligned_stkptr))
      (set_thread x.ex_idle_thread (λ _. start_own (own_context s x s.idle_code aligned_stkptr)) s)

-- The write log, the closure of the collector and the signal mask are not in the state.
unfoldable pub executor_init_state : (exec stkptr aligned_stkptr : ℕ) → Executors → Executors
executor_init_state exec stkptr aligned_stkptr s =
    set_executor exec
      (λ x. record x {
        sch_num_threads = 0;
        sch_curr_thread = null;
        sch_idle_thread = x.ex_idle_thread;
        sch_gc_thread = x.ex_gc_thread;
      })
      (executor_setup_threads exec aligned_stkptr
        (set_executor exec (λ x. record x { ex_c_stack = stkptr }) s))

unfoldable pub executor_worker_thread :
    (scheduler_cycle : (exec : ℕ) → Prog Executors ℕ) (exec stkptr aligned_stkptr : ℕ)
    → Prog Executors Goes
executor_worker_thread scheduler_cycle exec stkptr aligned_stkptr =
    modify (executor_init_state exec stkptr aligned_stkptr)
    >> do_executor_sched_cycle scheduler_cycle exec

-- The executors from i on, each of which is a thread of the system.
unfoldable pub setup_rounds : (rounds i : ℕ) → Executors → Executors
setup_rounds zero i s = s
setup_rounds (suc n) i s =
    let s1 = set_executor i (λ x. record x { ex_signal_mbox = 0 }) s in
    let s2 =
      set_executor i (λ x. record x { ex_thread = s1.own_thread i }) (call (thread_create i) s1) in
    setup_rounds n (i + 1) s2

-- The executors' array is at `mem`. The result is the address behind it. The executor 0 is the
-- caller.
unfoldable pub executor_setup : (executor_size num mem : ℕ) → Executors → ℕ × Executors
executor_setup executor_size num mem s =
    let size = mul32 num executor_size in
    let aligned_size = if size == 0 then 0 else aligned size in
    let s1 = record (call create_signal_thread s) { executor_live = true; executor_num = num } in
    let s2 =
      set_executor 0 (λ x. record x { ex_signal_mbox = 0; ex_thread = s1.own_thread 0 }) s1 in
    (mem + aligned_size, setup_rounds (num - 1) 1 s2)

abbrev pub start_context : (aligned_stkptr : ℕ) → Executor → Mailbox
start_context aligned_stkptr x = record {
  retaddr = 0;
  stkptr = aligned_stkptr;
  executor = 0;
  sigptr = null;
  write_log_index = 0;
  write_log = x.ex_gc_write_log;
  allocators = x.ex_gc_allocators;
}

-- executor_start_prog up to the call of main, for a start thread at the address that malloc_lf
-- returns.
unfoldable pub start_thread : (thread stkptr aligned_stkptr : ℕ) → Executors → Executors
start_thread thread stkptr aligned_stkptr s =
    let s1 = executor_init_state 0 stkptr aligned_stkptr s in
    let s2 = thread_init thread t_stat_runnable (start_context aligned_stkptr (s1.executor 0)) s1 in
    let s3 =
      set_thread thread (λ t. record t { t_sched_stat_ref = bit_or t_stat_running t_ref }) s2 in
    set_executor 0 (λ x. record x { sch_curr_thread = thread; sch_num_threads = 1 }) s3

-- The other executors from i on are told to end, waited for, and lose their schedulers.
unfoldable pub shutdown_rounds : (rounds i exec : ℕ) → Executors → Executors
shutdown_rounds zero i exec s = s
shutdown_rounds (suc n) i exec s =
    let os_thread = (s.executor i).ex_thread in
    let s' =
      if i == exec
      then s
      else call (destroy_scheduler i)
          (call (thread_join os_thread) (call (signal_send os_thread) s)) in
    shutdown_rounds n (i + 1) exec s'

unfoldable pub executor_shutdown : (exec : ℕ) → Executors → Goes × Executors
executor_shutdown exec s =
    let s1 = call (signal_send s.executor_signal_thread) s in
    let s2 = call (thread_join s.executor_signal_thread) s1 in
    let s3 = shutdown_rounds s.executor_num 0 exec s2 in
    (away, call key_destroy (call stop_schedulers (call (destroy_scheduler exec) s3)))

unfoldable pub executor_stop : (exec : ℕ) → Executors → Goes × Executors
executor_stop exec s = executor_shutdown exec (record s { executor_live = false })

unfoldable pub executor_count : Executors → ℕ
executor_count s = s.executor_num
