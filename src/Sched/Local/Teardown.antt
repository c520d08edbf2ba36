-- ===== src/Sched/Local/Teardown.antt =====
-- src/cc/noninteract_scheduler.c: the end of a scheduler.
use masters_thesis.Base.{ℕ, suc, ◌≡◌, ◌≢◌, some, List, ◌∷◌, ◌==◌, if◌then◌else◌, arith}
use masters_thesis.Sched.State.{Scheduler, Sched, Call, destroy, null, set_scheduler}
use masters_thesis.Sched.Local.{destroy_queue, scheduler_destroy}

-- The destruction of the current thread, if there is one, behind that of the idle thread.
abbrev pub first_destroyed : Scheduler → List Call → List Call
first_destroyed d calls =
    if d.sch_curr_thread == null
    then destroy d.sch_idle_thread ∷ calls
    else destroy d.sch_curr_thread ∷ destroy d.sch_idle_thread ∷ calls

-- Where the thread at the tail of the local queue has no next one, scheduler_destroy ends after
-- one round: it destroys the idle thread, the current one and the one at the tail, and none of the
-- other threads of the queue.
pub destroy_tail_only :
    (fuel exec : ℕ) (s : Sched)
    → (s.scheduler exec).sch_queue_tail ≢ null
    → (s.thread (s.scheduler exec).sch_queue_tail).t_queue_next ≡ null
    → scheduler_destroy (suc (suc fuel)) exec s
      ≡ some (record (set_scheduler exec (λ d. record d { sch_queue_tail = null }) s) {
        calls =
            destroy (s.scheduler exec).sch_queue_tail ∷ first_destroyed (s.scheduler exec) s.calls;
      })
unfolding scheduler_destroy destroy_queue
destroy_tail_only fuel exec s queued last = ground (arith, queued, last)
