-- ===== src/Exec/Signals/Idle.antt =====
-- How an idle executor is told that there is work.
use masters_thesis.Base.{
  ℕ, zero, suc, ◌+◌, ◌≡◌, ◌≢◌, refl, ◌∙◌, Bool, true, false, Option, none, some, List, [], ◌∷◌,
  ◌==◌, ◌&&◌, bit_and, bit_or, if◌then◌else◌, eq→==, ne→==, Bool-cases, inl, inr, arith,
}
use masters_thesis.Base.Interleave.{Window, quiet, retry, retry_done, bind_done}
use masters_thesis.Exec.State.{Executors, signal_send, null, set_signal_mbox, call}
use masters_thesis.Exec.Signals.{
  mbox_of, executor_try_signal, executor_raise, woken, awake, executor_try_wakeup, until_answered,
  wakeup, restart_rounds, executor_restart_idle,
}

abbrev pub quiets : ℕ → List (Window Executors)
quiets zero = []
quiets (suc n) = quiet ∷ quiets n

-- An executor is without a thread and was not told to schedule.
abbrev pub is_idle : (exec : ℕ) → Executors → Bool
is_idle exec s =
    ((s.executor exec).sch_curr_thread == null)
    && (bit_and (mbox_of exec s) s.ex_signal_schedule == 0)

-- The first such executor from i on.
abbrev pub first_idle : (rounds i : ℕ) → Executors → Option ℕ
first_idle zero i s = none
first_idle (suc n) i s = let rest = first_idle n (i + 1) s in if is_idle i s then some i else rest

-- The executor, if any, has the signal, and its thread of the system is interrupted.
abbrev pub told : Option ℕ → Executors → Executors
told none s = s
told (some e) s =
    let t = set_signal_mbox e (bit_or (mbox_of e s) s.ex_signal_schedule) s in
    call (signal_send (t.executor e).ex_thread) t

try_wakeup_idle :
    (e : ℕ) (s : Executors)
    → is_idle e s ≡ true
    → executor_try_wakeup e quiet s ≡ (woken, told (some e) s)
unfolding executor_try_wakeup
try_wakeup_idle e s idle = rw idle (rw (eq→== (mbox_of e s) (mbox_of e s) refl) refl)

try_wakeup_awake :
    (e : ℕ) (s : Executors) → is_idle e s ≡ false → executor_try_wakeup e quiet s ≡ (awake, s)
unfolding executor_try_wakeup
try_wakeup_awake e s busy = rw busy refl

wakeup_idle :
    (e : ℕ) (ws : List (Window Executors)) (s : Executors)
    → is_idle e s ≡ true
    → wakeup e (quiet ∷ ws) s ≡ some (true, ws, told (some e) s)
wakeup_idle e ws s idle =
    retry_done (λ w u. let (r, u') = executor_try_wakeup e w u in (until_answered r, u')) quiet ws s
      (told (some e) s) true (rw (try_wakeup_idle e s idle) refl)

wakeup_awake :
    (e : ℕ) (ws : List (Window Executors)) (s : Executors)
    → is_idle e s ≡ false
    → wakeup e (quiet ∷ ws) s ≡ some (false, ws, s)
wakeup_awake e ws s busy =
    retry_done (λ w u. let (r, u') = executor_try_wakeup e w u in (until_answered r, u')) quiet ws s
      s false (rw (try_wakeup_awake e s busy) refl)

restart_rounds_lem :
    (n i : ℕ) (s : Executors)
    → (ws : List (Window Executors)) × (restart_rounds n i (quiets n) s
        ≡ some (tt, ws, told (first_idle n i s) s))
unfolding restart_rounds
restart_rounds_lem zero i s = ([], refl)
restart_rounds_lem (suc n) i s =
    let (ws, rest) = restart_rounds_lem n (i + 1) s in
    elim (Bool-cases (is_idle i s)) [
      | inl idle ↦ (
        quiets n,
        bind_done (wakeup i) _ (quiets (suc n)) (quiets n) s (told (some i) s) true
              (wakeup_idle i (quiets n) s idle)
            ∙ rw idle refl,
      )
      | inr busy ↦ (
        ws,
        bind_done (wakeup i) _ (quiets (suc n)) (quiets n) s s false
              (wakeup_awake i (quiets n) s busy)
            ∙ rw busy rest,
      )
    ]

-- Where no one interferes: executor_restart_idle gives the signal to schedule to the first
-- executor without a thread that does not have it, and interrupts it; it changes nothing else, and
-- nothing at all where there is no such executor.
pub restart_idle_lem :
    (s : Executors)
    → (ws : List (Window Executors)) × (executor_restart_idle (quiets s.executor_num) s
        ≡ some (tt, ws, told (first_idle s.executor_num 0 s) s))
unfolding executor_restart_idle
restart_idle_lem s = restart_rounds_lem s.executor_num 0 s

try_signal_run :
    (e sigs : ℕ) (s : Executors)
    → executor_try_signal e sigs quiet s
      ≡ (some tt, set_signal_mbox e (bit_or (mbox_of e s) sigs) s)
unfolding executor_try_signal
try_signal_run e sigs s = rw (eq→== (mbox_of e s) (mbox_of e s) refl) refl

-- Where no one interferes: executor_raise on an executor without a thread, whose idle thread is
-- not NULL, adds the signals to its mailbox, but does not interrupt it.
pub raise_idle_silent :
    (e sigs : ℕ) (s : Executors)
    → (s.executor e).sch_curr_thread ≡ null
    → (s.executor e).sch_idle_thread ≢ null
    → executor_raise e sigs (quiet ∷ quiet ∷ []) s
      ≡ some (tt, [], set_signal_mbox e (bit_or (mbox_of e s) sigs) s)
unfolding executor_raise
raise_idle_silent e sigs s none_current idle_thread =
    bind_done (retry (executor_try_signal e sigs)) _ (quiet ∷ quiet ∷ []) (quiet ∷ []) s raised tt (
      retry_done (executor_try_signal e sigs) quiet (quiet ∷ []) s raised tt
        (try_signal_run e sigs s))
    ∙ rw (eq→== e e refl) (
        rw
          (ne→== (s.executor e).sch_curr_thread (s.executor e).sch_idle_thread
            (ground (arith, none_current, idle_thread)))
          refl)
  where
    raised : Executors
    raised = set_signal_mbox e (bit_or (mbox_of e s) sigs) s
