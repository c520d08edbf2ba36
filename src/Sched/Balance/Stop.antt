-- ===== src/Sched/Balance/Stop.antt =====
-- src/cc/noninteract_scheduler.c: the end of the scheduler system.
use masters_thesis.Base.{ℕ, suc, ◌≡◌, ◌<◌, refl, ap, some, List, [], ◌∷◌, length, ne→==, arith}
use masters_thesis.Base.Interleave.{Window, quiet}
use masters_thesis.Sched.State.{Sched, Call, destroy, null, call}
use masters_thesis.Sched.Balance.{stop_rounds, scheduler_stop}

-- No thread is NULL.
abbrev pub NoNull : List ℕ → Type 0
NoNull [] = Unit {0}
NoNull (t ∷ ts) = (0 < t) × NoNull ts

-- A quiet window for each thread, and one for the end.
abbrev pub quiet_for : List ℕ → List (Window Sched) → List (Window Sched)
quiet_for [] ws = quiet ∷ ws
quiet_for (t ∷ ts) ws = quiet ∷ quiet_for ts ws

-- The calls of thread_destroy, the last one first.
abbrev pub destroyed : List ℕ → List Call → List Call
destroyed [] calls = calls
destroyed (t ∷ ts) calls = destroyed ts (destroy t ∷ calls)

abbrev fuel_for : List ℕ → ℕ → ℕ
fuel_for [] more = suc more
fuel_for (t ∷ ts) more = suc (fuel_for ts more)

rounds_lem :
    (more : ℕ) (ts : List ℕ) (ws : List (Window Sched)) (s : Sched)
    → NoNull ts
    → s.workshare ≡ ts
    → stop_rounds (fuel_for ts more) (quiet_for ts ws) s
      ≡ some (tt, ws, record s { workshare = []; calls = destroyed ts s.calls })
unfolding stop_rounds
rounds_lem more [] ws s pos shared = ground (arith, shared)
rounds_lem more (t ∷ ts) ws s pos shared = rw shared (
    rw (ne→== t null (ground (arith, pos.0)))
      (rounds_lem more ts ws (call (destroy t) (record s { workshare = ts })) pos.1 refl))

fuel_lem :
    (ts : List ℕ) (ws : List (Window Sched))
    → suc (length (quiet_for ts ws)) ≡ fuel_for ts (suc (length ws))
fuel_lem [] ws = refl
fuel_lem (t ∷ ts) ws = ap suc (fuel_lem ts ws)

-- Where no one interferes, scheduler_stop ends after one more round than the workshare queue has
-- threads: it destroys each of them, in their order, and leaves the queue empty.
pub stop_ends :
    (ts : List ℕ) (ws : List (Window Sched)) (s : Sched)
    → NoNull ts
    → s.workshare ≡ ts
    → scheduler_stop (quiet_for ts ws) s
      ≡ some (tt, ws, record s { workshare = []; calls = destroyed ts s.calls })
unfolding scheduler_stop
stop_ends ts ws s pos shared = rw (fuel_lem ts ws) (rounds_lem (suc (length ws)) ts ws s pos shared)
