-- ===== src/Gc/Thread/Weak.antt =====
-- src/mm/gc/gc_thread.c: weak pointers that are checked, the push to the shared queue, and the
-- mark of a copied object.
use masters_thesis.Base.{
  ℕ, zero, suc, ◌+◌, ◌-◌, ◌%◌, Option, Bool, true, false, none, some, length, ◌==◌, if◌then◌else◌,
}
use masters_thesis.Base.Exit.{Exit, returned, crashed}
use masters_thesis.Base.Interleave.{Window, Prog, pure, once, retry, modify, ◌>>=◌, ◌>>◌}
use masters_thesis.ObjectQueue.{ObjectQueue, lf_object_queue_enqueue}
use masters_thesis.Gc.Desc.{gc_header_fwd_ptr, gc_header_compare_and_set_fwd_ptr}
use masters_thesis.Gc.Thread.{Collector, null, unclaimed}
use masters_thesis.Gc.Thread.Local.{gc_thread_enqueue, gc_thread_dequeue}
use masters_thesis.Gc.Thread.Claim.{set_unused, look}

-- The loop of gc_thread_check_weak_ptr; `none` where the fuel ends first.
unfoldable pub check_weak_rounds : (fuel srcptr dstptr : ℕ) → Prog Collector (Unit {0})
check_weak_rounds zero srcptr dstptr ws s = none
check_weak_rounds (suc fuel) srcptr dstptr ws s =
    let again = check_weak_rounds fuel srcptr dstptr in
    (once (λ w u. (look dstptr srcptr (w.before u), w.before u)) >>= λ (src, dst, fwd_ptr).
    if src == null
    then (if dst == null then again else modify (set_unused dstptr null))
    else if fwd_ptr == unclaimed s
    then (if dst == null then pure tt else modify (set_unused dstptr null) >> again)
    else (if dst == fwd_ptr then pure tt else modify (set_unused dstptr fwd_ptr) >> again))
      ws s

-- One more round than the windows of the schedule: each round uses up a window.
unfoldable pub gc_thread_check_weak_ptr : (srcptr dstptr : ℕ) → Prog Collector (Unit {0})
gc_thread_check_weak_ptr srcptr dstptr ws s = check_weak_rounds (length ws + 1) srcptr dstptr ws s

-- The closure's local queue; gth_workshare_count and the table of the write log are not in the
-- state.
unfoldable pub gc_thread_executor_init : Collector → Collector
gc_thread_executor_init s = record s { gth_queue_size = 0; gth_head = null; gth_tail = null }

-- An object that the shared queue has no node for goes back to the local queue.
unfoldable pub gc_thread_push : (exec : ℕ) → Collector → Prog ObjectQueue (Exit (Bool × Collector))
gc_thread_push exec s =
    let (obj, s') = gc_thread_dequeue s in
    lf_object_queue_enqueue obj exec >>= λ out. elim out [
      | crashed ↦ pure crashed
      | returned true ↦ pure (returned (true, s'))
      | returned false ↦ pure (returned (false, gc_thread_enqueue obj s'))
    ]

-- `(void*)((unsigned int)old ^ 0x1)`
abbrev pub flip_copied : (old : ℕ) → ℕ
flip_copied old = if old % 2 == 0 then old + 1 else old - 1

unfoldable pub gc_thread_try_set_copied :
    (obj : ℕ) → Window Collector → Collector → Option (Unit {0}) × Collector
gc_thread_try_set_copied obj w s0 =
    let s = w.before s0 in
    let old = gc_header_fwd_ptr obj s.words in
    let s1 = w.between s in
    let (done, words) = gc_header_compare_and_set_fwd_ptr old (flip_copied old) obj s1.words in
    (if done then some tt else none, record s1 { words = words })

unfoldable pub gc_thread_set_copied : (obj : ℕ) → Prog Collector (Unit {0})
gc_thread_set_copied obj = retry (gc_thread_try_set_copied obj)
