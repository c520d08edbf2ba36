-- ===== src/Exec/Examples.antt =====
-- The theorems on the executors at concrete states.
use masters_thesis.Base.{
  ℕ, ◌≡◌, ◌≢◌, ◌⊎◌, inl, refl, true, false, some, List, [], ◌∷◌, ◌==◌, if◌then◌else◌, arith,
}
use masters_thesis.Base.Interleave.{Window, Prog, quiet, retry, Runs}
use masters_thesis.Exec.State.{
  Executors, Call, key_destroy, stop_schedulers, destroy_scheduler, set_signal_mbox, set_executor,
  set_thread,
}
use masters_thesis.Exec.Signals.{
  executor_try_signal, executor_raise, take_signals, executor_restart_idle,
}
use masters_thesis.Exec.Signals.Atomic.{Interfered, IsRaised, IsTaken, mailbox-Ends}
use masters_thesis.Exec.Signals.Idle.{quiets, told, restart_idle_lem, raise_idle_silent}
use masters_thesis.Exec.Cycle.{to, away, executor_retire_old_thread, do_executor_sched_cycle}
use masters_thesis.Exec.Cycle.Bound.{IsBound, Schedules, current, named, cycle-IsBound}
use masters_thesis.Exec.Life.{executor_stop}
use masters_thesis.Exec.Life.Shutdown.{destroyed, stop_lem}

-- Three executors, of which the first runs the thread 9 and the others have none. Their idle
-- threads are 20, 21 and 22.
abbrev three : Executors
three = record {
  executor = λ e. record {
    signal_mbox_address = 0x100;
    ex_gc_write_log = 0x200;
    ex_gc_allocators = 0x300;
    ex_signal_mbox = if e == 1 then 1 else 0;
    ex_c_stack = 0x400;
    ex_gc_write_log_index = 3;
    ex_thread = if e == 0 then 40 else if e == 1 then 41 else 42;
    ex_idle_thread = 20;
    ex_gc_thread = 30;
    sch_curr_thread = if e == 0 then 9 else 0;
    sch_idle_thread = 20;
    sch_gc_thread = 30;
    sch_num_threads = 0;
  };
  thread = λ t. record {
    t_id = t;
    t_sched_stat_ref = 0x11;
    t_destroy = 0;
    t_mbox = record {
      retaddr = 0x500;
      stkptr = 0x600;
      executor = if t == 9 then 0 else 0xff;
      sigptr = 0x100;
      write_log_index = if t == 9 then 5 else 0;
      write_log = 0x200;
      allocators = 0x300;
    };
  };
  thread_num = 1;
  thread_id = 10;
  executor_num = 3;
  executor_live = true;
  executor_signal_thread = 50;
  null_executor = 0xff;
  ex_signal_schedule = 1;
  ex_signal_gc = 2;
  own_thread = λ e. if e == 0 then 40 else if e == 1 then 41 else 42;
  idle_code = 0x700;
  gc_code = 0x800;
  calls = [];
}

three-IsBound : IsBound three
three-IsBound = record { bound = λ e. ground arith }

-- The first try fails, since another executor raises a signal in between.
abbrev disturbed : Window Executors
disturbed = record { before = λ s. s; between = set_signal_mbox 0 4; later = λ _ s. s }

mailbox-Ends_example :
    Runs
      (Interfered 0)
      (IsRaised 0 2)
      (disturbed ∷ quiet ∷ [])
      three
      (retry (executor_try_signal 0 2) (disturbed ∷ quiet ∷ []) three)
    × Runs
        (Interfered 0)
        (IsTaken 0)
        (disturbed ∷ quiet ∷ [])
        three
        (retry (take_signals 0) (disturbed ∷ quiet ∷ []) three)
mailbox-Ends_example = mailbox-Ends 0 2 (disturbed ∷ quiet ∷ []) three

-- The executor 1 has the signal already; 2 gets it.
restart_idle_lem_example :
    (ws : List (Window Executors)) × (executor_restart_idle (quiets 3) three
      ≡ some (tt, ws, told (some 2) three))
restart_idle_lem_example = restart_idle_lem three

raise_idle_silent_example :
    executor_raise 2 1 (quiet ∷ quiet ∷ []) three ≡ some (tt, [], set_signal_mbox 2 1 three)
raise_idle_silent_example = raise_idle_silent 2 1 three refl (omega arith)

-- The executor 0 goes on with the thread 10, which is counted and has another status then.
abbrev ten_scheduled : (exec : ℕ) → Executors → Executors
ten_scheduled exec s =
    set_thread 10 (λ t. record t { t_sched_stat_ref = 0x11 })
      (set_executor exec (λ x. record x { sch_curr_thread = 10; sch_num_threads = 2 }) s)

abbrev to_ten : (exec : ℕ) → Prog Executors ℕ
to_ten exec ws s = some (10, ws, ten_scheduled exec s)

to_ten-Schedules :
    Schedules 0 10
      (executor_retire_old_thread 0 three)
      (ten_scheduled 0 (executor_retire_old_thread 0 three))
unfolding executor_retire_old_thread
to_ten-Schedules = record {
  own = inl refl;
  other = λ e. ground arith;
  mailbox = λ u. ground arith;
  index = refl;
}

not_ten : (e : ℕ) → (e ≡ 0) ⊎ (current e three ≢ 10)
not_ten e = ground arith

cycle-IsBound_example :
    (t : Executors) × (do_executor_sched_cycle to_ten 0 (quiet ∷ []) three
      ≡ some (to 0x500 0x600, [], t))
    × IsBound t
    × (named 10 t ≡ 0)
    × ((t.thread 10).t_mbox.write_log_index ≡ 5)
cycle-IsBound_example =
    cycle-IsBound to_ten 0 10 [] [] three (ten_scheduled 0 (executor_retire_old_thread 0 three))
      refl refl to_ten-Schedules not_ten (omega arith) (omega arith) three-IsBound

-- The executor 1 ends the program.
stop_lem_example :
    let (goes, t) = executor_stop 1 three in
    (goes ≡ away)
    × (t.executor_live ≡ false)
    × (destroyed 2 t.calls ≡ 1)
    × ((cs : List Call) × (t.calls ≡ key_destroy ∷ stop_schedulers ∷ destroy_scheduler 1 ∷ cs)
        × (destroyed 1 cs ≡ 0))
stop_lem_example = stop_lem 1 2 three (omega arith) (omega arith)
