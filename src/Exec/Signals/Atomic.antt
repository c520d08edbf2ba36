-- ===== src/Exec/Signals/Atomic.antt =====
-- The loops on a mailbox are atomic.
use masters_thesis.Base.{ℕ, ◌≡◌, ◌≢◌, refl, List, ◌==◌, bit_or, ==_iff, Bool-cases, inl, inr, arith}
use masters_thesis.Base.Interleave.{Window, retry, TryRuns, Runs, retry-Runs}
use masters_thesis.Exec.State.{Executors, set_signal_mbox}
use masters_thesis.Exec.Signals.{mbox_of, executor_try_signal, take_signals}

-- The others change the mailbox between the read and the compare-and-set.
abbrev pub Interfered : (exec : ℕ) → Window Executors → Executors → Type 0
Interfered exec w s = mbox_of exec (w.between (w.before s)) ≢ mbox_of exec (w.before s)

-- The signals are added to those that the mailbox has, and nothing else is changed.
abbrev pub IsRaised : (exec sigs : ℕ) → Unit {0} → Executors → Executors → Type 0
IsRaised exec sigs done u t = t ≡ set_signal_mbox exec (bit_or (mbox_of exec u) sigs) u

-- All signals that the mailbox has are taken, and nothing else is changed.
abbrev pub IsTaken : (exec : ℕ) → (taken : ℕ) → Executors → Executors → Type 0
IsTaken exec taken u t = (taken ≡ mbox_of exec u) × (t ≡ set_signal_mbox exec 0 u)

raise_step :
    (exec sigs : ℕ) (w : Window Executors) (s : Executors)
    → TryRuns (Interfered exec) (IsRaised exec sigs) w s (executor_try_signal exec sigs w s)
unfolding executor_try_signal
raise_step exec sigs w s =
    let old = mbox_of exec (w.before s) in
    let now = mbox_of exec (w.between (w.before s)) in
    elim (Bool-cases (now == old)) [
      | inl same ↦ rw same (rw ((==_iff now old).0 same) refl)
      | inr other ↦ rw other (refl, ground (arith, other))
    ]

take_step :
    (exec : ℕ) (w : Window Executors) (s : Executors)
    → TryRuns (Interfered exec) (IsTaken exec) w s (take_signals exec w s)
unfolding take_signals
take_step exec w s =
    let old = mbox_of exec (w.before s) in
    let now = mbox_of exec (w.between (w.before s)) in
    elim (Bool-cases (now == old)) [
      | inl same ↦ rw same (ground (arith, same), refl)
      | inr other ↦ rw other (refl, ground (arith, other))
    ]

-- Whatever the others do: a round of the loop of executor_raise or executor_check_mbox_sigs goes
-- on to the next one, without a change of its own, only where the others change the mailbox between
-- its read and its compare-and-set. The round that ends the loop changes the state that the others
-- made up to then by adding the signals to those that the mailbox has, or by taking all that it
-- has, which are the result, and changes nothing else.
pub mailbox-Ends :
    (exec sigs : ℕ) (ws : List (Window Executors)) (s : Executors)
    → Runs (Interfered exec) (IsRaised exec sigs) ws s (retry (executor_try_signal exec sigs) ws s)
      × Runs (Interfered exec) (IsTaken exec) ws s (retry (take_signals exec) ws s)
mailbox-Ends exec sigs ws s = (
  retry-Runs (Interfered exec) (IsRaised exec sigs) (executor_try_signal exec sigs)
      (raise_step exec sigs) ws s,
  retry-Runs (Interfered exec) (IsTaken exec) (take_signals exec) (take_step exec) ws s,
)
