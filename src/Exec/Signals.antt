-- ===== src/Exec/Signals.antt =====
-- src/cc/thread_executor.c: the signals of executors.
pub mod Atomic
pub mod Idle
use masters_thesis.Base.{
  ℕ, zero, suc, ◌+◌, Bool, true, false, Option, none, some, ◌==◌, ◌&&◌, not, bit_and, bit_or,
  if◌then◌else◌,
}
use masters_thesis.Base.Interleave.{Window, Prog, pure, once, retry, ◌>>=◌, ◌>>◌}
use masters_thesis.Exec.State.{Executors, Call, signal_send, null, call, cas_signal_mbox}

-- The signals of an executor.
abbrev pub mbox_of : (exec : ℕ) → Executors → ℕ
mbox_of exec s = (s.executor exec).ex_signal_mbox

unfoldable pub executor_try_signal :
    (exec sigs : ℕ) → Window Executors → Executors → Option (Unit {0}) × Executors
executor_try_signal exec sigs w s0 =
    let s = w.before s0 in
    let oldsigs = mbox_of exec s in
    let (out, s') = cas_signal_mbox exec oldsigs (bit_or oldsigs sigs) (w.between s) in
    (if out then some tt else none, s')

-- Behind the loop of executor_raise.
abbrev pub interrupt_if_idle : (exec : ℕ) → Executors → Executors
interrupt_if_idle exec s =
    let ex = s.executor exec in
    if ex.sch_curr_thread == ex.sch_idle_thread then call (signal_send ex.ex_thread) s else s

unfoldable pub executor_raise : (exec sigs : ℕ) → Prog Executors (Unit {0})
executor_raise exec sigs = do
  retry (executor_try_signal exec sigs)
  once (λ w s. (tt, interrupt_if_idle exec (w.before s)))

-- A round of the loop of executor_check_mbox_sigs.
unfoldable pub take_signals : (exec : ℕ) → Window Executors → Executors → Option ℕ × Executors
take_signals exec w s0 =
    let s = w.before s0 in
    let mbox = mbox_of exec s in
    let (out, s') = cas_signal_mbox exec mbox 0 (w.between s) in
    (if out then some mbox else none, s')

-- What executor_try_wakeup returns: 1, 0 or -1.
pub data Wakeup : Type 0 where
  woken : Wakeup
  failed : Wakeup
  awake : Wakeup

-- The others may act before the current thread is read, which is the second window.
unfoldable pub executor_try_wakeup : (exec : ℕ) → Window Executors → Executors → Wakeup × Executors
executor_try_wakeup exec w s0 =
    let s = w.before s0 in
    let oldsigs = mbox_of exec s in
    let s1 = w.later 0 s in
    if ((s1.executor exec).sch_curr_thread == null) && (bit_and oldsigs s1.ex_signal_schedule == 0)
    then (let (out, s2) =
          cas_signal_mbox exec oldsigs (bit_or oldsigs s1.ex_signal_schedule) (w.between s1) in
        if out then (woken, call (signal_send (s2.executor exec).ex_thread) s2) else (failed, s2))
    else (awake, s1)

-- `!(res = executor_try_wakeup(executors + i))` goes on; the result is whether res is 1.
abbrev pub until_answered : Wakeup → Option Bool
until_answered woken = some true
until_answered failed = none
until_answered awake = some false

abbrev pub wakeup : (exec : ℕ) → Prog Executors Bool
wakeup exec = retry (λ w s. let (r, s') = executor_try_wakeup exec w s in (until_answered r, s'))

-- The loop of executor_restart_idle over the executors from i on.
unfoldable pub restart_rounds : (rounds i : ℕ) → Prog Executors (Unit {0})
restart_rounds zero i = pure tt
restart_rounds (suc n) i = do
  done ← wakeup i
  elim done [ true ↦ pure tt | false ↦ restart_rounds n (i + 1) ]

unfoldable pub executor_restart_idle : Prog Executors (Unit {0})
executor_restart_idle ws s = restart_rounds s.executor_num 0 ws s
