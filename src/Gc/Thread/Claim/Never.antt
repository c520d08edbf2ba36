-- ===== src/Gc/Thread/Claim/Never.antt =====
-- gc_thread_check_ptr on a pointer that is NULL on both sides.
use masters_thesis.Base.{ℕ, zero, suc, ◌+◌, ◌≡◌, refl, Bool, none, List, [], ◌∷◌, length, arith}
use masters_thesis.Base.Interleave.{Window, Each, Keeps}
use masters_thesis.Gc.Thread.{Collector, null}
use masters_thesis.Gc.Thread.Claim.{Allocation, look, check_rounds, gc_thread_check_ptr}

check_rounds_never :
    (fuel : ℕ) (a : Allocation) (dstptr srcptr max_gen : ℕ) (do_weak : Bool)
    (ws : List (Window Collector)) (s : Collector)
    → (look dstptr srcptr s).0 ≡ null
    → (look dstptr srcptr s).1 ≡ null
    → Each (Keeps (look dstptr srcptr)) ws
    → check_rounds fuel a dstptr srcptr max_gen do_weak ws s ≡ none
unfolding check_rounds
check_rounds_never zero a dstptr srcptr max_gen do_weak ws s src dst keep = refl
check_rounds_never (suc fuel) a dstptr srcptr max_gen do_weak [] s src dst keep = refl
check_rounds_never (suc fuel) a dstptr srcptr max_gen do_weak (w ∷ ws) s src dst keep = ground (
  arith,
  keep.0.before s,
  src,
  dst,
  check_rounds_never fuel a dstptr srcptr max_gen do_weak ws (w.before s),
)

-- Where a pointer is NULL in the source and in the destination, and the others leave both alone:
-- gc_thread_check_ptr never ends, however long the schedule.
pub check_ptr_never :
    (a : Allocation) (dstptr srcptr max_gen : ℕ) (do_weak : Bool) (ws : List (Window Collector))
    (s : Collector)
    → (look dstptr srcptr s).0 ≡ null
    → (look dstptr srcptr s).1 ≡ null
    → Each (Keeps (look dstptr srcptr)) ws
    → gc_thread_check_ptr a dstptr srcptr max_gen do_weak ws s ≡ none
unfolding gc_thread_check_ptr
check_ptr_never a dstptr srcptr max_gen do_weak ws s =
    check_rounds_never (length ws + 1) a dstptr srcptr max_gen do_weak ws s
