-- ===== src/Exec/Cycle/Bound.antt =====
-- The mailbox of a thread that an executor runs names the executor.
use masters_thesis.Base.{ℕ, ◌≡◌, ◌≢◌, true, some, List, ◌∷◌, ◌⊎◌, arith}
use masters_thesis.Base.Interleave.{Window, Prog, quiet}
use masters_thesis.Exec.State.{Executors, null}
use masters_thesis.Exec.Cycle.{
  to, executor_retire_old_thread, enter_thread, executor_get_new_thread, do_executor_sched_cycle,
}

-- The current thread of an executor.
abbrev pub current : (exec : ℕ) → Executors → ℕ
current exec s = (s.executor exec).sch_curr_thread

-- What the mailbox of a thread names.
abbrev pub named : (thread : ℕ) → Executors → ℕ
named thread s = (s.thread thread).t_mbox.executor

pub record IsBound (s : Executors) : Type 0 where
  pub bound : (e : ℕ) → (current e s ≡ null) ⊎ (named (current e s) s ≡ e)

-- What scheduler_cycle may do for an executor that goes on with the thread `th`: its current thread
-- is `th` then or NULL; it leaves the current threads of the other executors, the mailboxes of the
-- threads, and where the executor's write log ends. The counts of threads, their statuses and all
-- else may change.
pub record Schedules (exec th : ℕ) (s v : Executors) : Type 0 where
  pub own : (current exec v ≡ th) ⊎ (current exec v ≡ null)
  pub other : (e : ℕ) → (e ≡ exec) ⊎ (current e v ≡ current e s)
  pub mailbox : (u : ℕ) → (v.thread u).t_mbox ≡ (s.thread u).t_mbox
  pub index : (v.executor exec).ex_gc_write_log_index ≡ (s.executor exec).ex_gc_write_log_index

module _ (exec th : ℕ) (s v : Executors)
    (c : Schedules exec th (executor_retire_old_thread exec s) v) where
  abbrev entered : Executors
  entered = (enter_thread exec th v).1

  entered-bound :
      IsBound s
      → ((e : ℕ) → (e ≡ exec) ⊎ (current e s ≢ th))
      → (e : ℕ) → (current e entered ≡ null) ⊎ (named (current e entered) entered ≡ e)
  unfolding executor_retire_old_thread enter_thread
  entered-bound b alone e =
      ground (arith, b.bound e, b.bound exec, c.own, c.other e, c.mailbox (current e v), alone e)

-- Where the executor is live and has a current thread, the others do nothing at first, and
-- scheduler_cycle goes on with a thread that is neither the executor's current one nor another
-- executor's, has that thread or NULL for the current one, and leaves alone the other executors'
-- current threads, the mailboxes and the executor's place in its write log, while it may change all
-- else: the executor loads the context that the thread had, the thread goes on with the write log
-- where the old one left it, and the mailboxes of the executors' current threads go on naming their
-- executors.
pub cycle-IsBound :
    (scheduler_cycle : (exec : ℕ) → Prog Executors ℕ) (exec th : ℕ)
    (ws ws' : List (Window Executors)) (s v : Executors)
    → s.executor_live ≡ true
    → scheduler_cycle exec ws (executor_retire_old_thread exec s) ≡ some (th, ws', v)
    → Schedules exec th (executor_retire_old_thread exec s) v
    → ((e : ℕ) → (e ≡ exec) ⊎ (current e s ≢ th))
    → current exec s ≢ null
    → current exec s ≢ th
    → IsBound s
    → (t : Executors) × (do_executor_sched_cycle scheduler_cycle exec (quiet ∷ ws) s
        ≡ some (to (s.thread th).t_mbox.retaddr (s.thread th).t_mbox.stkptr, ws', t))
      × IsBound t
      × (named th t ≡ exec)
      × ((t.thread th).t_mbox.write_log_index ≡ (s.thread (current exec s)).t_mbox.write_log_index)
unfolding do_executor_sched_cycle executor_get_new_thread executor_retire_old_thread enter_thread
cycle-IsBound scheduler_cycle exec th ws ws' s v live cycle c alone some_thread other b = (
  entered exec th s v c,
  ground (arith, live, cycle, some_thread, other, c.mailbox th),
  record { bound = entered-bound exec th s v c b (λ e. ground (arith, alone e)) },
  ground arith,
  ground (arith, some_thread, other, c.index),
)
