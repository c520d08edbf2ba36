-- ===== src/Sched/Status.antt =====
-- src/cc/noninteract_scheduler.c: the statuses of threads.
pub mod Running
pub mod Activation
use masters_thesis.Base.{
  ℕ, ◌+◌, ◌-◌, Bool, true, false, ◌&&◌, ◌||◌, not, Option, none, some, List, [], ◌∷◌, ◌==◌, ltb,
  bit_and, bit_or, if◌then◌else◌,
}
use masters_thesis.Base.Exit.{Exit, returned, crashed}
use masters_thesis.Base.Interleave.{Window, Prog, pure, retry, modify, ◌>>=◌, ◌>>◌}
use masters_thesis.Sched.State.{
  Thread, Scheduler, Sched, Call, destroy, signal, restart_idle, cycle, null, t_stat_runnable,
  t_stat_running, t_stat_suspend, t_stat_suspended, t_stat_term, t_stat_dead, t_stat_destroy,
  t_stat_gc_wait, t_stat_finalizer_live, t_stat_mask, t_ref, set_thread, call, cas_stat, add_active,
  sub_active, workshare_enqueue,
}

-- The numbers -1, 0 and 1 of the results.
pub data Code : Type 0 where
  minus_one : Code
  nought : Code
  one : Code

-- The conversion to `bool` and back: -1 becomes 1.
abbrev pub stored_in_bool : Code → Code
stored_in_bool minus_one = one
stored_in_bool nought = nought
stored_in_bool one = one

-- `for(i = 0; !(res = try()); i++)` and `0 < res`.
abbrev pub until_nonzero : Code → Option Code
until_nonzero minus_one = some minus_one
until_nonzero nought = none
until_nonzero one = some one

abbrev pub is_positive : Code → Bool
is_positive minus_one = false
is_positive nought = false
is_positive one = true

abbrev pub cas_code : Bool → Code
cas_code true = one
cas_code false = nought

pub data Action : Type 0 where
  execute : Action
  skip : Action
  discard : Action

abbrev pub stat_of : (value : ℕ) → ℕ
stat_of v = bit_and v t_stat_mask

abbrev pub is_runnable : (stat : ℕ) → Bool
is_runnable stat =
    (stat == t_stat_runnable)
    || (stat == t_stat_running)
    || (stat == t_stat_gc_wait)
    || (stat == t_stat_finalizer_live)

abbrev pub gc_inactive : Sched → Bool
gc_inactive s = s.gc_state_inactive == bit_and s.gc_state s.gc_state_phase

-- A compare-and-set of the status, and what the round of sched_set_running_status gives where it
-- succeeds.
abbrev pub acknowledge : (thread oldvalue value : ℕ) → Action → Sched → Option (Exit Action) × Sched
acknowledge thread oldvalue value action s =
    let (out, s') = cas_stat thread oldvalue value s in
    (if out then some (returned action) else none, s')

-- A round of the loop of sched_set_running_status. For a thread that waits for the collector,
-- gc_state is read behind the status, and the others may act in between.
unfoldable pub set_running_round :
    (thread : ℕ) → Window Sched → Sched → Option (Exit Action) × Sched
set_running_round thread w s0 =
    let s = w.before s0 in
    let oldvalue = (s.thread thread).t_sched_stat_ref in
    let stat = stat_of oldvalue in
    if (stat == t_stat_running) || (stat == t_stat_runnable) || (stat == t_stat_finalizer_live)
    then acknowledge thread oldvalue (bit_or t_stat_running t_ref) execute (w.between s)
    else if stat == t_stat_gc_wait
    then (let s1 = w.later 0 s in
        if gc_inactive s1
        then acknowledge thread oldvalue (bit_or t_stat_running t_ref) execute (w.between s1)
        else (some (returned skip), s1))
    else if stat == t_stat_suspend
    then acknowledge thread oldvalue t_stat_suspended discard (w.between s)
    else if stat == t_stat_term
    then acknowledge thread oldvalue t_stat_dead discard (w.between s)
    else if stat == t_stat_destroy
    then (some (returned discard), call (destroy thread) s)
    else (some crashed, s)

unfoldable pub sched_set_running_status : (thread : ℕ) → Prog Sched (Exit Action)
sched_set_running_status thread = retry (set_running_round thread)

-- An activation counts a thread unless it was counted.
abbrev pub count_activated : (oldstat : ℕ) → Sched → Sched
count_activated stat s =
    if (stat == t_stat_runnable) || (stat == t_stat_running) || (stat == t_stat_gc_wait)
    then s
    else add_active s

unfoldable pub scheduler_try_activate_thread : (thread : ℕ) → Window Sched → Sched → Code × Sched
scheduler_try_activate_thread thread w s0 =
    let s = w.before s0 in
    let oldvalue = (s.thread thread).t_sched_stat_ref in
    let oldstat = stat_of oldvalue in
    let ref = bit_and oldvalue t_ref in
    if (oldstat == t_stat_term) || (oldstat == t_stat_dead) || (oldstat == t_stat_destroy)
    then (minus_one, s)
    else let (out, s') = cas_stat thread oldvalue (bit_or t_stat_runnable t_ref) (w.between s) in
      if not out
      then (nought, s')
      else if ref == 0
      then (one, call restart_idle (workshare_enqueue thread (count_activated oldstat s')))
      else (one, count_activated oldstat s')

unfoldable pub scheduler_activate_thread : (thread : ℕ) → Prog Sched Bool
scheduler_activate_thread thread = do
  res ←
      retry (λ w s. let (c, s') = scheduler_try_activate_thread thread w s in (until_nonzero c, s'))
  pure (is_positive res)

-- The executor of the thread is told to schedule, by a signal or by a call where it is this one.
abbrev pub tell_executor : (executor exec : ℕ) → Sched → Sched
tell_executor executor exec s =
    if executor == s.null_executor
    then s
    else if executor == exec
    then call (cycle exec) s
    else call (signal executor) s

unfoldable pub scheduler_try_deactivate_thread :
    (thread stat exec : ℕ) → Window Sched → Sched → Code × Sched
scheduler_try_deactivate_thread thread stat exec w s0 =
    let s = w.before s0 in
    let executor = (s.thread thread).executor in
    let oldvalue = (s.thread thread).t_sched_stat_ref in
    let oldstat = stat_of oldvalue in
    let ref = bit_and oldvalue t_ref in
    if (not (oldstat == t_stat_dead) && not (oldstat == t_stat_term)) || (stat == t_stat_destroy)
    then (let (out, s1) = cas_stat thread oldvalue (bit_or stat ref) (w.between s) in
        let s2 = if (stat == t_stat_destroy) && (ref == 0) then call (destroy thread) s1 else s1 in
        let s3 =
          if (oldstat == t_stat_runnable) || (oldstat == t_stat_running)
          then sub_active s2
          else s2 in
        if not out then (nought, s1) else (one, tell_executor executor exec s3))
    else (minus_one, s)

unfoldable pub scheduler_deactivate_thread : (thread stat exec : ℕ) → Prog Sched Bool
scheduler_deactivate_thread thread stat exec = do
  res ← retry (λ w s.
      let (c, s') = scheduler_try_deactivate_thread thread stat exec w s in (until_nonzero c, s'))
  pure (is_positive res)

unfoldable pub scheduler_try_update_thread : (thread stat : ℕ) → Window Sched → Sched → Code × Sched
scheduler_try_update_thread thread stat w s0 =
    let s = w.before s0 in
    let oldvalue = (s.thread thread).t_sched_stat_ref in
    let oldstat = stat_of oldvalue in
    let ref = bit_and oldvalue t_ref in
    if (not (oldstat == t_stat_dead)
        && not (oldstat == t_stat_term)
        && not (oldstat == t_stat_destroy))
      || (stat == t_stat_destroy)
    then (let (out, s') = cas_stat thread oldvalue (bit_or ref stat) (w.between s) in
        (cas_code out, s'))
    else (minus_one, s)

unfoldable pub scheduler_update_thread : (thread stat : ℕ) → Prog Sched Bool
scheduler_update_thread thread stat = do
  res ←
      retry
        (λ w s. let (c, s') = scheduler_try_update_thread thread stat w s in (until_nonzero c, s'))
  pure (is_positive res)
