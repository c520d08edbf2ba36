-- ===== src/Sched/Examples.antt =====
-- The theorems on the scheduler at concrete threads.
use masters_thesis.Base.{ℕ, ◌≡◌, refl, false, some, [], ◌∷◌, ◌==◌, if◌then◌else◌, arith}
use masters_thesis.Base.Word.{sub32}
use masters_thesis.Base.Interleave.{quiet, Ends, Some, result_of}
use masters_thesis.Sched.State.{Thread, Sched, destroy, t_stat_gc_wait}
use masters_thesis.Sched.Local.{sched_queue_enqueue, sched_queue_dequeue}
use masters_thesis.Sched.Local.Contents.{IsLocal, sched_queue-IsLocal}
use masters_thesis.Sched.Status.{sched_set_running_status}
use masters_thesis.Sched.Status.Running.{Acknowledged, set_running_status-Ends}
use masters_thesis.Sched.Status.Activation.{active_after, deactivate-activate}
use masters_thesis.Sched.Balance.{scheduler_take_thread, scheduler_stop}
use masters_thesis.Sched.Balance.Taking.{sorted_by_status, take_thread_lem}
use masters_thesis.Sched.Balance.Stop.{stop_ends}

-- The thread 20 is running and referenced, the thread 30 is suspended and referenced, and the
-- others are runnable. The local queue of the executor 0 has the threads 40 and 50, the workshare
-- queue 30 and 20.
abbrev threads : ℕ → Thread
threads t = record {
  t_sched_stat_ref = if t == 20 then 0x11 else if t == 30 then 0x12 else 0x10;
  t_queue_next = if t == 40 then 50 else 0;
  executor = 7;
}

abbrev busy : Sched
busy = record {
  thread = threads;
  scheduler = λ _. record {
    sch_num_threads = 3;
    sch_queue_head = 40;
    sch_queue_tail = 50;
    sch_curr_thread = 60;
    sch_idle_thread = 70;
    sch_gc_thread = 80;
  };
  workshare = 30 ∷ 20 ∷ [];
  workshare_full = false;
  sched_active_threads = 5;
  executor_count = 2;
  null_executor = 0;
  gc_state = 0;
  gc_state_inactive = 0;
  gc_state_phase = 3;
  calls = [];
}

sched_queue-IsLocal_example :
    let s1 = sched_queue_enqueue 0 20 busy in
    let (out, s2) = sched_queue_dequeue 0 s1 in
    IsLocal 0 (40 ∷ 50 ∷ 20 ∷ []) s1
    × ((s1.scheduler 0).sch_num_threads ≡ 4)
    × (out ≡ 40)
    × IsLocal 0 (50 ∷ 20 ∷ []) s2
    × ((s2.scheduler 0).sch_num_threads ≡ sub32 (s1.scheduler 0).sch_num_threads 1)
sched_queue-IsLocal_example =
    sched_queue-IsLocal 0 20 (40 ∷ 50 ∷ []) busy (omega arith) refl
      (refl, (refl, refl), (omega arith, refl, (omega arith, refl, tt)))

set_running_status-Ends_example :
    Ends
      (λ action t. Some (λ w. Acknowledged 20 w action t) (quiet ∷ []))
      (sched_set_running_status 20 (quiet ∷ []) busy)
set_running_status-Ends_example = set_running_status-Ends 20 (quiet ∷ []) busy

deactivate-activate_example :
    result_of (active_after 20 t_stat_gc_wait 0 (quiet ∷ quiet ∷ []) busy) ≡ some 4
deactivate-activate_example =
    deactivate-activate 20 t_stat_gc_wait 0 [] busy refl refl (omega arith)

take_thread_lem_example :
    scheduler_take_thread 0 (quiet ∷ quiet ∷ []) busy
    ≡ some (
      tt,
      [],
      sorted_by_status 30 (sched_queue_enqueue 0 30) (record busy { workshare = 20 ∷ [] }),
    )
take_thread_lem_example = take_thread_lem 0 30 (20 ∷ []) [] busy (omega arith) refl

stop_ends_example :
    scheduler_stop (quiet ∷ quiet ∷ quiet ∷ []) busy
    ≡ some (tt, [], record busy { workshare = []; calls = destroy 20 ∷ destroy 30 ∷ [] })
stop_ends_example = stop_ends (30 ∷ 20 ∷ []) [] busy (omega arith, (omega arith, tt)) refl
