-- ===== src/Sched/Balance.antt =====
-- src/cc/noninteract_scheduler.c: the exchange of threads between the schedulers, and the next
-- thread of an executor. The loops run on fuel: each round but the last uses a window, so that one
-- more than the windows of the schedule is enough.
pub mod Taking
pub mod Stop
use masters_thesis.Base.{
  ℕ, zero, suc, ◌+◌, Bool, true, false, ◌&&◌, ◌||◌, not, Option, none, some, List, [], ◌∷◌, ◌==◌,
  ltb, bit_and, bit_or, length, if◌then◌else◌,
}
use masters_thesis.Base.Word.{add32, sub32}
use masters_thesis.Base.Exit.{Exit, returned, crashed}
use masters_thesis.Base.Interleave.{Window, Prog, pure, once, retry, modify, gets, ◌>>=◌, ◌>>◌}
use masters_thesis.Sched.State.{
  Scheduler, Sched, destroy, null, t_stat_destroy, set_scheduler, call, cas_stat, workshare_enqueue,
  workshare_dequeue, sched_upper_bound, sched_lower_bound,
}
use masters_thesis.Sched.Local.{sched_queue_empty, sched_queue_enqueue, sched_queue_dequeue}
use masters_thesis.Sched.Status.{
  Code, minus_one, nought, one, stored_in_bool, until_nonzero, is_positive, Action, execute, skip,
  discard, stat_of, is_runnable, sched_set_running_status,
}

-- The status is given up with its reference; `bool out` turns -1 into 1.
abbrev pub unset_reference : (thread oldvalue : ℕ) → Sched → Code × Sched
unset_reference thread oldvalue s =
    let (out, s') = cas_stat thread oldvalue (stat_of oldvalue) s in
    (if out then stored_in_bool minus_one else nought, s')

unfoldable pub scheduler_try_take_thread : (exec thread : ℕ) → Window Sched → Sched → Code × Sched
scheduler_try_take_thread exec thread w s0 =
    let s = w.before s0 in
    let oldvalue = (s.thread thread).t_sched_stat_ref in
    let oldstat = stat_of oldvalue in
    if is_runnable oldstat
    then (one, sched_queue_enqueue exec thread s)
    else if oldstat == t_stat_destroy
    then (stored_in_bool minus_one, call (destroy thread) s)
    else unset_reference thread oldvalue (w.between s)

unfoldable pub scheduler_try_put_thread : (thread : ℕ) → Window Sched → Sched → Code × Sched
scheduler_try_put_thread thread w s0 =
    let s = w.before s0 in
    let oldvalue = (s.thread thread).t_sched_stat_ref in
    let oldstat = stat_of oldvalue in
    if is_runnable oldstat
    then (one, workshare_enqueue thread s)
    else if oldstat == t_stat_destroy
    then (stored_in_bool minus_one, call (destroy thread) s)
    else unset_reference thread oldvalue (w.between s)

-- `for(i = 0; !(res = try(thread)); i++) backoff_delay(i);`
abbrev pub until_done : (Window Sched → Sched → Code × Sched) → Prog Sched Code
until_done try = retry (λ w s. let (c, s') = try w s in (until_nonzero c, s'))

unfoldable pub take_rounds : (fuel exec : ℕ) → Prog Sched (Unit {0})
take_rounds zero exec ws s = none
take_rounds (suc fuel) exec ws s =
    (do
      thread ← once (λ w s'. workshare_dequeue (w.before s'))
      if thread == null then pure tt else (do
        res ← until_done (scheduler_try_take_thread exec thread)
        if is_positive res then pure tt else take_rounds fuel exec))
      ws s

unfoldable pub scheduler_take_thread : (exec : ℕ) → Prog Sched (Unit {0})
scheduler_take_thread exec ws s = take_rounds (suc (length ws)) exec ws s

unfoldable pub put_rounds : (fuel exec : ℕ) → Prog Sched (Unit {0})
put_rounds zero exec ws s = none
put_rounds (suc fuel) exec ws s =
    let (thread, s') = sched_queue_dequeue exec s in
    (if thread == null then pure tt else (do
      res ← until_done (scheduler_try_put_thread thread)
      if is_positive res then pure tt else put_rounds fuel exec))
      ws s'

unfoldable pub scheduler_put_thread : (exec : ℕ) → Prog Sched (Unit {0})
scheduler_put_thread exec ws s = put_rounds (suc (length ws)) exec ws s

pub data Transfer : Type 0 where
  take_one : Transfer
  put_one : Transfer
  no_transfer : Transfer

-- The counter sched_active_threads is read for num_threads, and again for each bound.
abbrev pub transfer : (exec : ℕ) → Window Sched → Sched → Transfer × Sched
transfer exec w s0 =
    let s1 = w.before s0 in
    let s2 = w.between s1 in
    let s3 = w.later 0 s2 in
    if ltb s1.executor_count s1.sched_active_threads
    then if ltb (s2.scheduler exec).sch_num_threads (sched_lower_bound s2)
      then (take_one, s2)
      else if ltb (sched_upper_bound s3) (s3.scheduler exec).sch_num_threads
      then (put_one, s3)
      else (no_transfer, s3)
    else if (s1.scheduler exec).sch_num_threads == 0
    then (take_one, s1)
    else (no_transfer, s1)

unfoldable pub scheduler_balance_threads : (exec : ℕ) → Prog Sched (Unit {0})
scheduler_balance_threads exec = do
  t ← once (transfer exec)
  elim t [
    | take_one ↦ scheduler_take_thread exec
    | put_one ↦ scheduler_put_thread exec
    | no_transfer ↦ pure tt
  ]

abbrev pub set_curr_thread : (exec thread : ℕ) → Sched → Sched
set_curr_thread exec thread = set_scheduler exec (λ d. record d { sch_curr_thread = thread })

-- `sched->sch_curr_thread = thread; sched->sch_num_threads++;`
abbrev pub run_and_count : (exec thread : ℕ) → Sched → Sched
run_and_count exec thread =
    set_scheduler exec
      (λ d. record d { sch_curr_thread = thread; sch_num_threads = add32 d.sch_num_threads 1 })

-- A thread that was not discarded is the current one.
abbrev pub keep_unless_discarded :
    (exec thread : ℕ) → Prog Sched (Exit (Unit {0})) → Exit Action → Prog Sched (Exit (Unit {0}))
keep_unless_discarded exec thread again crashed = pure crashed
keep_unless_discarded exec thread again (returned discard) = again
keep_unless_discarded exec thread again (returned execute) =
    modify (run_and_count exec thread) >> (scheduler_balance_threads exec >> again)
keep_unless_discarded exec thread again (returned skip) =
    modify (run_and_count exec thread) >> (scheduler_balance_threads exec >> again)

unfoldable pub workshare_rounds : (fuel exec : ℕ) → Prog Sched (Exit (Unit {0}))
workshare_rounds zero exec ws s = none
workshare_rounds (suc fuel) exec ws s =
    (if not ((s.scheduler exec).sch_curr_thread == null) then pure (returned tt) else (do
      thread ← once (λ w s'. workshare_dequeue (w.before s'))
      if thread == null then pure (returned tt) else (do
        action ← sched_set_running_status thread
        keep_unless_discarded exec thread (workshare_rounds fuel exec) action)))
      ws s

unfoldable pub sched_try_workshare : (exec : ℕ) → Prog Sched (Exit (Unit {0}))
sched_try_workshare exec ws s = workshare_rounds (suc (length ws)) exec ws s

-- `GC_STATE_INACTIVE == gc_state.value & GC_STATE_PHASE` is the bitwise and of a comparison and
-- GC_STATE_PHASE.
unfoldable pub scheduler_result : (exec : ℕ) → Sched → ℕ
scheduler_result exec s =
    let d = s.scheduler exec in
    let equal = if s.gc_state_inactive == s.gc_state then 1 else 0 in
    if d.sch_curr_thread == null
    then (if bit_and equal s.gc_state_phase == 0 then d.sch_gc_thread else d.sch_idle_thread)
    else d.sch_curr_thread

-- A thread of the local queue that runs is the current one; its place in the count went with
-- sched_queue_dequeue.
abbrev pub keep_if_executed :
    (exec thread : ℕ) → Prog Sched (Exit (Unit {0})) → Exit Action → Prog Sched (Exit (Unit {0}))
keep_if_executed exec thread again crashed = pure crashed
keep_if_executed exec thread again (returned execute) =
    modify (set_curr_thread exec thread) >> (scheduler_balance_threads exec >> again)
keep_if_executed exec thread again (returned skip) = again
keep_if_executed exec thread again (returned discard) = again

unfoldable pub replace_rounds : (fuel exec : ℕ) → Prog Sched (Exit (Unit {0}))
replace_rounds zero exec ws s = none
replace_rounds (suc fuel) exec ws s =
    let (thread, s') = sched_queue_dequeue exec s in
    let tried = (do
      action ← sched_set_running_status thread
      keep_if_executed exec thread (replace_rounds fuel exec) action) in
    if sched_queue_empty exec s || not ((s.scheduler exec).sch_curr_thread == null)
    then pure (returned tt) ws s
    else tried ws s'

abbrev pub give_up_current : (exec : ℕ) → Sched → Sched
give_up_current exec =
    set_scheduler exec
      (λ d. record d { sch_curr_thread = null; sch_num_threads = sub32 d.sch_num_threads 1 })

abbrev pub unless_crashed :
    {A : Type 0} → Exit (Unit {0}) → Prog Sched (Exit A) → Prog Sched (Exit A)
unless_crashed crashed m = pure crashed
unless_crashed (returned _) m = m

unfoldable pub scheduler_replace : (exec : ℕ) → Prog Sched (Exit ℕ)
scheduler_replace exec ws s =
    (do
      modify (give_up_current exec)
      local ← replace_rounds (suc (length ws)) exec
      unless_crashed local (do
        shared ← sched_try_workshare exec
        unless_crashed shared (gets (λ s'. returned (scheduler_result exec s')))))
      ws s

unfoldable pub sched_active_thread_count : Sched → ℕ
sched_active_thread_count s = s.sched_active_threads

-- What scheduler_start leaves, without the memory that lf_thread_queue_init lays out.
unfoldable pub scheduler_start : Sched → Sched
scheduler_start s = record s { workshare = []; sched_active_threads = 1 }

unfoldable pub stop_rounds : (fuel : ℕ) → Prog Sched (Unit {0})
stop_rounds zero ws s = none
stop_rounds (suc fuel) ws s =
    (do
      thread ← once (λ w s'. workshare_dequeue (w.before s'))
      if thread == null then pure tt else (do modify (call (destroy thread)); stop_rounds fuel))
      ws s

-- scheduler_stop; lf_thread_queue_destroy is not part of the model.
unfoldable pub scheduler_stop : Prog Sched (Unit {0})
scheduler_stop ws s = stop_rounds (suc (length ws)) ws s
