-- ===== src/Sched/Commands.antt =====
-- src/cc/cc.c: what the runtime offers for threads.
use masters_thesis.Base.{ℕ, Bool, true, false, ◌==◌, ◌||◌, if◌then◌else◌}
use masters_thesis.Base.Exit.{Exit, returned, crashed}
use masters_thesis.Base.Interleave.{Prog, pure, ◌>>=◌}
use masters_thesis.Sched.State.{
  Sched, t_stat_runnable, t_stat_suspend, t_stat_term, t_stat_destroy, t_stat_gc_wait, t_stat_none,
}
use masters_thesis.Sched.Status.{
  scheduler_activate_thread, scheduler_deactivate_thread, scheduler_update_thread,
}

unfoldable pub cc_thread_destroy : (thread exec : ℕ) → Prog Sched Bool
cc_thread_destroy thread exec = scheduler_deactivate_thread thread t_stat_destroy exec

-- The result is what it stores in `result`.
unfoldable pub cc_thread_update : (thread stat : ℕ) → Prog Sched Bool
cc_thread_update thread stat =
    if stat == t_stat_none
    then pure true
    else if (stat == t_stat_runnable)
        || (stat == t_stat_suspend)
        || (stat == t_stat_term)
        || (stat == t_stat_gc_wait)
    then scheduler_update_thread thread stat
    else pure false

abbrev pub returns : Prog Sched Bool → Prog Sched (Exit Bool)
returns m = m >>= λ b. pure (returned b)

unfoldable pub cc_thread_update_immediate : (thread stat exec : ℕ) → Prog Sched (Exit Bool)
cc_thread_update_immediate thread stat exec =
    if stat == t_stat_none
    then pure (returned true)
    else if stat == t_stat_runnable
    then returns (scheduler_activate_thread thread)
    else if (stat == t_stat_suspend) || (stat == t_stat_term)
    then returns (scheduler_deactivate_thread thread stat exec)
    else if stat == t_stat_destroy
    then pure crashed
    else pure (returned false)
