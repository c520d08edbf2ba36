-- ===== src/Exec/Life/Shutdown.antt =====
-- What the end of the executors does.
use masters_thesis.Base.{
  ℕ, zero, suc, ◌+◌, ◌<◌, ◌≡◌, refl, Bool, true, false, List, [], ◌∷◌, ◌==◌, ◌&&◌, not, leb, ltb,
  if◌then◌else◌, Bool-cases, inl, inr, arith,
}
use masters_thesis.Exec.State.{
  Executors, Call, destroy_scheduler, stop_schedulers, key_destroy, signal_send, thread_join, call,
}
use masters_thesis.Exec.Cycle.{away}
use masters_thesis.Exec.Life.{shutdown_rounds, executor_shutdown, executor_stop}

-- How often the scheduler of an executor was destroyed.
abbrev pub destroyed : (e : ℕ) → List Call → ℕ
destroyed e [] = 0
destroyed e (destroy_scheduler i ∷ cs) = (if i == e then 1 else 0) + destroyed e cs
destroyed e (c ∷ cs) = destroyed e cs

-- The executor i loses its scheduler.
abbrev pub ended : (i : ℕ) → Executors → Executors
ended i s =
    call (destroy_scheduler i)
      (call (thread_join (s.executor i).ex_thread) (call (signal_send (s.executor i).ex_thread) s))

-- Whether an executor is one of n, from i on.
abbrev pub is_among : (n i e : ℕ) → Bool
is_among n i e = leb i e && ltb e (i + n)

rounds_none : (i exec : ℕ) (s : Executors) → shutdown_rounds zero i exec s ≡ s
unfolding shutdown_rounds
rounds_none i exec s = refl

rounds_skip :
    (n i exec : ℕ) (s : Executors)
    → (i == exec) ≡ true
    → shutdown_rounds (suc n) i exec s ≡ shutdown_rounds n (i + 1) exec s
unfolding shutdown_rounds
rounds_skip n i exec s same = rw same refl

rounds_end :
    (n i exec : ℕ) (s : Executors)
    → (i == exec) ≡ false
    → shutdown_rounds (suc n) i exec s ≡ shutdown_rounds n (i + 1) exec (ended i s)
unfolding shutdown_rounds
rounds_end n i exec s other = rw other refl

-- The loop destroys the schedulers of the other executors among these, and leaves executor_live.
shutdown_rounds_lem :
    (n i exec e : ℕ) (s : Executors)
    → (destroyed e (shutdown_rounds n i exec s).calls
        ≡ (if not (e == exec) && is_among n i e then 1 else 0) + destroyed e s.calls)
      × ((shutdown_rounds n i exec s).executor_live ≡ s.executor_live)
shutdown_rounds_lem zero i exec e s = rw (rounds_none i exec s) (ground arith, refl)
shutdown_rounds_lem (suc n) i exec e s = elim (Bool-cases (i == exec)) [
  | inl same ↦
      let (count, live) = shutdown_rounds_lem n (i + 1) exec e s in
      rw (rounds_skip n i exec s same) (ground (arith, count, same), live)
  | inr other ↦
      let (count, live) = shutdown_rounds_lem n (i + 1) exec e (ended i s) in
      rw (rounds_end n i exec s other) (ground (arith, count, other), live)
]

-- executor_stop ends the executor's thread of the system and the program, and destroys the
-- scheduler of each executor exactly once, its own behind all the others. What the schedulers share
-- is stopped behind that, and the key of the executors is destroyed last.
pub stop_lem :
    (exec e : ℕ) (s : Executors)
    → exec < s.executor_num
    → e < s.executor_num
    → let (goes, t) = executor_stop exec s in
      (goes ≡ away)
      × (t.executor_live ≡ false)
      × (destroyed e t.calls ≡ 1 + destroyed e s.calls)
      × ((cs : List Call) × (t.calls ≡ key_destroy ∷ stop_schedulers ∷ destroy_scheduler exec ∷ cs)
          × (destroyed exec cs ≡ destroyed exec s.calls))
unfolding executor_stop executor_shutdown
stop_lem exec e s valid valid_e =
    let told : Executors =
      call (thread_join s.executor_signal_thread)
        (call (signal_send s.executor_signal_thread) (record s { executor_live = false })) in
    let (count, live) = shutdown_rounds_lem s.executor_num 0 exec e told in
    let (own, _) = shutdown_rounds_lem s.executor_num 0 exec exec told in
    (
      refl,
      live,
      ground (arith, count, valid, valid_e),
      ((shutdown_rounds s.executor_num 0 exec told).calls, refl, ground (arith, own)),
    )
