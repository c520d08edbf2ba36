-- ===== src/Sched/Balance/Taking.antt =====
-- src/cc/noninteract_scheduler.c: a thread that goes between the workshare queue and a local queue.
use masters_thesis.Base.{ℕ, ◌≡◌, ◌≢◌, some, List, ◌∷◌, ◌==◌, if◌then◌else◌, arith}
use masters_thesis.Base.Interleave.{Window, quiet, retry}
use masters_thesis.Sched.State.{
  Sched, destroy, null, t_stat_destroy, set_thread, call, workshare_enqueue,
}
use masters_thesis.Sched.Local.{sched_queue_enqueue, sched_queue_dequeue}
use masters_thesis.Sched.Status.{stat_of, is_runnable}
use masters_thesis.Sched.Balance.{
  scheduler_try_take_thread, scheduler_try_put_thread, take_rounds, scheduler_take_thread,
  put_rounds, scheduler_put_thread,
}

-- What becomes of a thread on its way to a queue, by its status: it is put there, destroyed, or
-- left without a reference.
abbrev pub sorted_by_status : (thread : ℕ) → (keep : Sched → Sched) → Sched → Sched
sorted_by_status thread keep s =
    let stat = stat_of (s.thread thread).t_sched_stat_ref in
    if is_runnable stat
    then keep s
    else if stat == t_stat_destroy
    then call (destroy thread) s
    else set_thread thread (λ u. record u { t_sched_stat_ref = stat }) s

-- Where no one interferes, exactly one thread leaves the workshare queue, whatever its status is:
-- where it cannot run, the scheduler gets none of the threads behind it.
pub take_thread_lem :
    (exec t : ℕ) (ts : List ℕ) (ws : List (Window Sched)) (s : Sched)
    → t ≢ null
    → s.workshare ≡ t ∷ ts
    → scheduler_take_thread exec (quiet ∷ quiet ∷ ws) s
      ≡ some (tt, ws, sorted_by_status t (sched_queue_enqueue exec t) (record s { workshare = ts }))
unfolding scheduler_take_thread take_rounds scheduler_try_take_thread retry
take_thread_lem exec t ts ws s ne shared = ground (arith, ne, shared)

-- The same of the thread at the head of a local queue that is not empty.
pub put_thread_lem :
    (exec t : ℕ) (ws : List (Window Sched)) (s s' : Sched)
    → t ≢ null
    → sched_queue_dequeue exec s ≡ (t, s')
    → scheduler_put_thread exec (quiet ∷ ws) s
      ≡ some (tt, ws, sorted_by_status t (workshare_enqueue t) s')
unfolding scheduler_put_thread put_rounds scheduler_try_put_thread retry
put_thread_lem exec t ws s s' ne left = ground (arith, ne, left)
