-- ===== src/Sched/Status/Running.antt =====
-- src/cc/noninteract_scheduler.c: the status of a thread that was about to run.
use masters_thesis.Base.{
  ℕ, ◌≡◌, ◌≢◌, refl, Bool-cases, inl, inr, ==_iff, Bool, true, false, ◌||◌, not, List, ◌==◌, bit_or,
  ◌⊎◌, arith,
}
use masters_thesis.Base.Exit.{Exit, returned, crashed}
use masters_thesis.Base.Interleave.{Window, TryEnds, Ends, Some, retry-Ends_window}
use masters_thesis.Sched.State.{
  Sched, t_stat_runnable, t_stat_running, t_stat_suspend, t_stat_suspended, t_stat_term,
  t_stat_dead, t_stat_destroy, t_stat_gc_wait, t_stat_finalizer_live, t_ref,
}
use masters_thesis.Sched.Status.{
  Action, execute, skip, discard, stat_of, gc_inactive, set_running_round, sched_set_running_status,
}

abbrev pub value_of : (thread : ℕ) → Sched → ℕ
value_of thread s = (s.thread thread).t_sched_stat_ref

-- A status that sched_set_running_status has no case for.
abbrev pub is_unexpected : (stat : ℕ) → Bool
is_unexpected stat = not (
    (stat == t_stat_runnable)
    || (stat == t_stat_running)
    || (stat == t_stat_finalizer_live)
    || (stat == t_stat_gc_wait)
    || (stat == t_stat_suspend)
    || (stat == t_stat_term)
    || (stat == t_stat_destroy))

-- What is known of a thread by the action that was taken, and by the window in which it was: for
-- SKIP, the steps of the others between the two reads lead from `u` to the end.
abbrev pub Acknowledged : (thread : ℕ) → Window Sched → Exit Action → Sched → Type 0
Acknowledged thread w (returned execute) s = value_of thread s ≡ bit_or t_stat_running t_ref
Acknowledged thread w (returned skip) s =
    (gc_inactive s ≡ false)
    × ((u : Sched) × (stat_of (value_of thread u) ≡ t_stat_gc_wait) × (s ≡ w.later 0 u))
Acknowledged thread w (returned discard) s =
    (value_of thread s ≡ t_stat_suspended)
    ⊎ (value_of thread s ≡ t_stat_dead)
    ⊎ (stat_of (value_of thread s) ≡ t_stat_destroy)
Acknowledged thread w crashed s = is_unexpected (stat_of (value_of thread s)) ≡ true

-- The round for a thread that waits for the collector.
waiting_round :
    (thread : ℕ) (w : Window Sched) (s : Sched)
    → stat_of (value_of thread (w.before s)) ≡ t_stat_gc_wait
    → TryEnds (Acknowledged thread w) (set_running_round thread w s)
unfolding set_running_round
waiting_round thread w s waits = elim (Bool-cases (gc_inactive (w.later 0 (w.before s)))) [
  | inl inactive ↦ rw waits (rw inactive (ground arith))
  | inr active ↦ rw waits (rw active (active, (w.before s, waits, refl)))
]

other_round :
    (thread : ℕ) (w : Window Sched) (s : Sched)
    → stat_of (value_of thread (w.before s)) ≢ t_stat_gc_wait
    → TryEnds (Acknowledged thread w) (set_running_round thread w s)
unfolding set_running_round
other_round thread w s ne = ground (arith, ne)

round-TryEnds :
    (thread : ℕ) (w : Window Sched) (s : Sched)
    → TryEnds (Acknowledged thread w) (set_running_round thread w s)
round-TryEnds thread w s =
    let stat = stat_of (value_of thread (w.before s)) in
    elim (Bool-cases (stat == t_stat_gc_wait)) [
      | inl waits ↦ waiting_round thread w s ((==_iff stat t_stat_gc_wait).0 waits)
      | inr other ↦ other_round thread w s (ground (arith, other))
    ]

-- Whatever the others do: when sched_set_running_status of a thread ends, at that time the thread
-- is running and referenced if it says EXECUTE; the collector is active if it says SKIP, and the
-- thread waited for the collector when the status was read, from where only the steps of the
-- others in a window of the schedule lead to the end; the thread is suspended, dead or to be
-- destroyed if it says DISCARD; and after a failed check its status is none that the code has a
-- case for.
pub set_running_status-Ends :
    (thread : ℕ) (ws : List (Window Sched)) (s : Sched)
    → Ends
        (λ action t. Some (λ w. Acknowledged thread w action t) ws)
        (sched_set_running_status thread ws s)
unfolding sched_set_running_status
set_running_status-Ends thread ws s =
    retry-Ends_window (set_running_round thread) (Acknowledged thread) (round-TryEnds thread) ws s
