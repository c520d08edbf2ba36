-- ===== src/Sched/State.antt =====
-- The state of src/cc/noninteract_scheduler.c.
use masters_thesis.Base.{
  ℕ, ◌/◌, ◌^◌, Bool, true, false, List, [], ◌∷◌, ◌++◌, ◌==◌, ltb, if◌then◌else◌,
}
use masters_thesis.Base.Word.{add32, sub32}

-- `executor` is the word of its mailbox that names the executor that runs the thread.
pub record Thread : Type 0 where
  pub t_sched_stat_ref : ℕ
  pub t_queue_next : ℕ
  pub executor : ℕ

pub record Scheduler : Type 0 where
  pub sch_num_threads : ℕ
  pub sch_queue_head : ℕ
  pub sch_queue_tail : ℕ
  pub sch_curr_thread : ℕ
  pub sch_idle_thread : ℕ
  pub sch_gc_thread : ℕ

-- Calls that leave the scheduler: thread_destroy, executor_raise with EX_SIGNAL_SCHEDULE,
-- executor_restart_idle and cc_sched_cycle.
pub data Call : Type 0 where
  destroy : (thread : ℕ) → Call
  signal : (executor : ℕ) → Call
  restart_idle : Call
  cycle : (executor : ℕ) → Call

-- Threads stand at addresses, 0 being NULL, schedulers at executors. The queue sched_workshare is
-- a sequence of threads; `workshare_full` says whether lf_thread_queue_enqueue finds no node.
-- GC_STATE_INACTIVE and GC_STATE_PHASE are defined outside of the repository. `calls` has the last
-- call first.
pub record Sched : Type 0 where
  pub thread : ℕ → Thread
  pub scheduler : ℕ → Scheduler
  pub workshare : List ℕ
  pub workshare_full : Bool
  pub sched_active_threads : ℕ
  pub executor_count : ℕ
  pub null_executor : ℕ
  pub gc_state : ℕ
  pub gc_state_inactive : ℕ
  pub gc_state_phase : ℕ
  pub calls : List Call

abbrev pub null : ℕ
null = 0

abbrev pub t_stat_runnable : ℕ
t_stat_runnable = 0x0

abbrev pub t_stat_running : ℕ
t_stat_running = 0x1

abbrev pub t_stat_suspend : ℕ
t_stat_suspend = 0x2

abbrev pub t_stat_suspended : ℕ
t_stat_suspended = 0x3

abbrev pub t_stat_term : ℕ
t_stat_term = 0x4

abbrev pub t_stat_dead : ℕ
t_stat_dead = 0x5

abbrev pub t_stat_destroy : ℕ
t_stat_destroy = 0x6

abbrev pub t_stat_gc_wait : ℕ
t_stat_gc_wait = 0x7

abbrev pub t_stat_finalizer_live : ℕ
t_stat_finalizer_live = 0x8

abbrev pub t_stat_none : ℕ
t_stat_none = 0xf

abbrev pub t_stat_mask : ℕ
t_stat_mask = 0xf

abbrev pub t_ref : ℕ
t_ref = 0x10

abbrev pub set_thread : ℕ → (Thread → Thread) → Sched → Sched
set_thread t f s = record s { thread = λ u. if u == t then f (s.thread u) else s.thread u }

abbrev pub set_scheduler : ℕ → (Scheduler → Scheduler) → Sched → Sched
set_scheduler e f s = record s {
  scheduler = λ d. if d == e then f (s.scheduler d) else s.scheduler d;
}

abbrev pub call : Call → Sched → Sched
call c s = record s { calls = c ∷ s.calls }

-- atomic_compare_and_set_uint on the status of a thread.
abbrev pub cas_stat : (thread expect value : ℕ) → Sched → Bool × Sched
cas_stat t expect value s =
    if (s.thread t).t_sched_stat_ref == expect
    then (true, set_thread t (λ u. record u { t_sched_stat_ref = value }) s)
    else (false, s)

-- atomic_increment_uint and atomic_decrement_uint
abbrev pub add_active : Sched → Sched
add_active s = record s { sched_active_threads = add32 s.sched_active_threads 1 }

abbrev pub sub_active : Sched → Sched
sub_active s = record s { sched_active_threads = sub32 s.sched_active_threads 1 }

-- lf_thread_queue_enqueue, whose result no caller reads, and lf_thread_queue_dequeue.
abbrev pub workshare_enqueue : (thread : ℕ) → Sched → Sched
workshare_enqueue t s =
    if s.workshare_full then s else record s { workshare = s.workshare ++ t ∷ [] }

abbrev pub first_thread : List ℕ → ℕ
first_thread [] = null
first_thread (t ∷ ts) = t

abbrev pub other_threads : List ℕ → List ℕ
other_threads [] = []
other_threads (t ∷ ts) = ts

abbrev pub workshare_dequeue : Sched → ℕ × Sched
workshare_dequeue s = (first_thread s.workshare, record s { workshare = other_threads s.workshare })

unfoldable pub sched_upper_bound : Sched → ℕ
sched_upper_bound s =
    let num_threads = s.sched_active_threads in
    let frac = num_threads / 2 ^ 2 in
    let numerator = add32 num_threads frac in
    let bound = numerator / s.executor_count in if bound == 0 then 1 else bound

unfoldable pub sched_lower_bound : Sched → ℕ
sched_lower_bound s =
    let num_threads = s.sched_active_threads in
    let frac = num_threads / 2 ^ 2 in
    let numerator = if ltb frac num_threads then sub32 num_threads frac else 0 in
    let bound = numerator / s.executor_count in if bound == 0 then 1 else bound
