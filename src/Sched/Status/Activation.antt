-- ===== src/Sched/Status/Activation.antt =====
-- src/cc/noninteract_scheduler.c: the number of active threads.
use masters_thesis.Base.{
  ℕ, ◌≡◌, ◌<◌, ◌^◌, true, ◌||◌, some, List, ◌∷◌, ◌==◌, bit_or, if◌then◌else◌, arith,
}
use masters_thesis.Base.Word.{sub32}
use masters_thesis.Base.Interleave.{Window, quiet, Prog, retry, gets, result_of, ◌>>=◌}
use masters_thesis.Sched.State.{Sched, t_stat_running, t_stat_suspend, t_stat_gc_wait, t_ref}
use masters_thesis.Sched.Status.{
  scheduler_try_activate_thread, scheduler_activate_thread, scheduler_try_deactivate_thread,
  scheduler_deactivate_thread,
}

-- The number of active threads behind a deactivation and an activation.
abbrev pub active_after : (thread stat exec : ℕ) → Prog Sched ℕ
active_after thread stat exec = do
  _ ← scheduler_deactivate_thread thread stat exec
  _ ← scheduler_activate_thread thread
  gets (λ s. s.sched_active_threads)

-- A running thread that is suspended, or that waits for the collector, and is activated again,
-- where no one interferes: a suspension gives the count of active threads back, a wait for the
-- collector lowers it by one.
pub deactivate-activate :
    (thread stat exec : ℕ) (ws : List (Window Sched)) (s : Sched)
    → (s.thread thread).t_sched_stat_ref ≡ bit_or t_stat_running t_ref
    → ((stat == t_stat_suspend) || (stat == t_stat_gc_wait)) ≡ true
    → s.sched_active_threads < 2 ^ 32
    → result_of (active_after thread stat exec (quiet ∷ quiet ∷ ws) s)
      ≡ some (
          if stat == t_stat_gc_wait then sub32 s.sched_active_threads 1 else s.sched_active_threads)
unfolding scheduler_deactivate_thread scheduler_activate_thread scheduler_try_deactivate_thread
    scheduler_try_activate_thread retry
deactivate-activate thread stat exec ws s running known below = ground arith
