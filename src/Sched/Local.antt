-- ===== src/Sched/Local.antt =====
-- src/cc/noninteract_scheduler.c: a scheduler and its local queue.
pub mod Contents
pub mod Teardown
use masters_thesis.Base.{
  ℕ, zero, suc, ◌+◌, Bool, true, false, not, Option, none, some, List, [], ◌∷◌, ◌==◌, if◌then◌else◌,
}
use masters_thesis.Base.Word.{add32, sub32}
use masters_thesis.Sched.State.{
  Thread, Scheduler, Sched, null, destroy, call, set_thread, set_scheduler,
}

unfoldable pub scheduler_init : (exec idle_thread gc_thread : ℕ) → Sched → Sched
scheduler_init exec idle_thread gc_thread = set_scheduler exec (λ d. record {
  sch_num_threads = 0;
  sch_queue_head = null;
  sch_queue_tail = null;
  sch_curr_thread = null;
  sch_idle_thread = idle_thread;
  sch_gc_thread = gc_thread;
})

-- `while(NULL != scheduler->sch_queue_tail)`; `none` where the fuel ends first.
unfoldable pub destroy_queue : (fuel exec : ℕ) → Sched → Option Sched
destroy_queue zero exec s = none
destroy_queue (suc fuel) exec s =
    let tail = (s.scheduler exec).sch_queue_tail in
    let next = (s.thread tail).t_queue_next in
    let further =
      destroy_queue fuel exec
        (set_scheduler exec (λ d. record d { sch_queue_tail = next }) (call (destroy tail) s)) in
    if tail == null then some s else further

unfoldable pub scheduler_destroy : (fuel exec : ℕ) → Sched → Option Sched
unfolding destroy_queue
scheduler_destroy fuel exec s =
    let d = s.scheduler exec in
    let s' = call (destroy d.sch_idle_thread) s in
    let s'' = if d.sch_curr_thread == null then s' else call (destroy d.sch_curr_thread) s' in
    destroy_queue fuel exec s''

unfoldable pub sched_queue_empty : (exec : ℕ) → Sched → Bool
sched_queue_empty exec s = (s.scheduler exec).sch_queue_tail == null

unfoldable pub sched_queue_enqueue : (exec thread : ℕ) → Sched → Sched
sched_queue_enqueue exec thread s0 =
    let s = set_thread thread (λ u. record u { t_queue_next = null }) s0 in
    let tail = (s.scheduler exec).sch_queue_tail in
    let counted =
      set_scheduler exec (λ d. record d { sch_num_threads = add32 d.sch_num_threads 1 }) s in
    if tail == null
    then set_scheduler exec (λ d. record d { sch_queue_tail = thread; sch_queue_head = thread })
        counted
    else set_scheduler exec (λ d. record d { sch_queue_tail = thread })
        (set_thread tail (λ u. record u { t_queue_next = thread }) counted)

unfoldable pub sched_queue_dequeue : (exec : ℕ) → Sched → ℕ × Sched
sched_queue_dequeue exec s =
    let out = (s.scheduler exec).sch_queue_head in
    let counted =
      set_scheduler exec (λ d. record d { sch_num_threads = sub32 d.sch_num_threads 1 }) s in
    if out == (s.scheduler exec).sch_queue_tail
    then (
      out,
      set_scheduler exec (λ d. record d { sch_queue_tail = null; sch_queue_head = null }) counted,
    )
    else (
      out,
      set_scheduler exec (λ d. record d { sch_queue_head = (s.thread out).t_queue_next }) counted,
    )
