-- ===== src/Gc/Thread/Phase/Stuck.antt =====
-- The request for a collection.
use masters_thesis.Base.{
  ℕ, ◌≡◌, refl, ◌∙◌, Bool, true, false, none, some, List, [], ◌∷◌, ◌==◌, if◌then◌else◌, arith,
}
use masters_thesis.Base.Interleave.{Window, Each, Keeps, retry, retry_again, bind_stuck}
use masters_thesis.Gc.Thread.{Collector}
use masters_thesis.Gc.Thread.Phase.{
  phase_of, gc_thread_try_activate, while_true, gc_thread_activate,
}

abbrev pub is_inactive : Collector → Bool
is_inactive s = phase_of s == s.gc_state_inactive

-- A try has nothing to do, and the loop goes on.
try_activate_again :
    (w : Window Collector) (s : Collector)
    → is_inactive (w.before s) ≡ false
    → gc_thread_try_activate w s ≡ (true, w.before s)
unfolding gc_thread_try_activate
try_activate_again w s active = ground (arith, active)

activate_rounds_never :
    (ws : List (Window Collector)) (s : Collector)
    → is_inactive s ≡ false
    → Each (Keeps is_inactive) ws
    → while_true gc_thread_try_activate ws s ≡ none
unfolding retry
activate_rounds_never [] s active keep = refl
activate_rounds_never (w ∷ ws) s active keep =
    let active' = keep.0.before s ∙ active in
    retry_again
      (λ v t. let (b, t') = gc_thread_try_activate v t in (if b then none else some tt, t')) w ws s
      (w.before s) (rw (try_activate_again w s active') refl)
    ∙ activate_rounds_never ws (w.before s) active' keep.1

-- Where a collection was requested or is under way, and the others do not end it:
-- gc_thread_activate never ends, however long the schedule.
pub activate_never :
    (gen : ℕ) (ws : List (Window Collector)) (s : Collector)
    → is_inactive s ≡ false
    → Each (Keeps is_inactive) ws
    → gc_thread_activate gen ws s ≡ none
unfolding gc_thread_activate
activate_never gen ws s active keep =
    bind_stuck (while_true gc_thread_try_activate) _ ws s (activate_rounds_never ws s active keep)
