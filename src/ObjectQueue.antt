-- ===== src/ObjectQueue.antt =====
-- src/mm/gc/lf_object_queue.c: the queue of objects of the collector. It is the code of
-- src/cc/lf_thread_queue.c with other names, over void pointers: each function is that one, over
-- the same states.
use masters_thesis.Base.{ℕ, Bool, Option}
use masters_thesis.Base.Exit.{Exit}
use masters_thesis.Base.Interleave.{Window, Prog}
use masters_thesis.BlockQueue.Retired.{Ptab}
use masters_thesis.ThreadQueue.Nodes.{
  NodeQueue, ThreadHazards, lf_thread_queue_allocator_upper_bound,
  lf_thread_queue_allocator_lower_bound, lf_thread_queue_node_alloc_try_push,
  lf_thread_queue_node_alloc_push, lf_thread_queue_node_alloc_pull,
  lf_thread_queue_node_alloc_balance, lf_thread_queue_node_alloc, lf_thread_queue_node_free,
}
use masters_thesis.ThreadQueue.Init.{Sizes, lf_thread_queue_request, lf_thread_queue_init}
use masters_thesis.ThreadQueue.Retired.{
  lf_thread_queue_ptab_lookup, lf_thread_queue_ptab_insert, lf_thread_queue_scan_build_ptab,
  lf_thread_queue_scan_free_rlist, lf_thread_queue_scan, lf_thread_queue_node_retire,
}
use masters_thesis.ThreadQueue.Queue.{
  lf_thread_queue_destroy, lf_thread_queue_try_enqueue, lf_thread_queue_enqueue,
  lf_thread_queue_try_dequeue, lf_thread_queue_dequeue,
}

abbrev pub ObjectHazards : Type 0
ObjectHazards = ThreadHazards

-- An object queue with its allocator and its nodes.
abbrev pub ObjectQueue : Type 0
ObjectQueue = NodeQueue

unfoldable pub lf_object_queue_allocator_upper_bound : ObjectQueue → ℕ
lf_object_queue_allocator_upper_bound = lf_thread_queue_allocator_upper_bound

unfoldable pub lf_object_queue_allocator_lower_bound : ObjectQueue → ℕ
lf_object_queue_allocator_lower_bound = lf_thread_queue_allocator_lower_bound

unfoldable pub lf_object_queue_node_alloc_try_push :
    (node : ℕ) → Window ObjectQueue → ObjectQueue → Option (Unit {0}) × ObjectQueue
lf_object_queue_node_alloc_try_push = lf_thread_queue_node_alloc_try_push

unfoldable pub lf_object_queue_node_alloc_push : (node : ℕ) → Prog ObjectQueue (Unit {0})
lf_object_queue_node_alloc_push = lf_thread_queue_node_alloc_push

unfoldable pub lf_object_queue_node_alloc_pull : Prog ObjectQueue ℕ
lf_object_queue_node_alloc_pull = lf_thread_queue_node_alloc_pull

unfoldable pub lf_object_queue_node_alloc_balance : (exec : ℕ) → Prog ObjectQueue (Exit (Unit {0}))
lf_object_queue_node_alloc_balance = lf_thread_queue_node_alloc_balance

unfoldable pub lf_object_queue_node_alloc : (exec : ℕ) → Prog ObjectQueue (Exit ℕ)
lf_object_queue_node_alloc = lf_thread_queue_node_alloc

unfoldable pub lf_object_queue_node_free : (node exec : ℕ) → Prog ObjectQueue (Exit (Unit {0}))
lf_object_queue_node_free = lf_thread_queue_node_free

unfoldable pub lf_object_queue_request : Sizes → (num execs : ℕ) → ℕ
lf_object_queue_request = lf_thread_queue_request

unfoldable pub lf_object_queue_init :
    Sizes → (mem num execs : ℕ) → ObjectQueue → Exit ℕ × ObjectQueue
lf_object_queue_init = lf_thread_queue_init

unfoldable pub lf_object_queue_ptab_lookup : Ptab → (node size : ℕ) → Bool
lf_object_queue_ptab_lookup = lf_thread_queue_ptab_lookup

unfoldable pub lf_object_queue_ptab_insert : (addr size : ℕ) → Ptab → Ptab
lf_object_queue_ptab_insert = lf_thread_queue_ptab_insert

unfoldable pub lf_object_queue_scan_build_ptab :
    Window ObjectQueue → ObjectQueue → Ptab × ObjectQueue
lf_object_queue_scan_build_ptab = lf_thread_queue_scan_build_ptab

unfoldable pub lf_object_queue_scan_free_rlist :
    (exec : ℕ) → Ptab → Prog ObjectQueue (Exit (Unit {0}))
lf_object_queue_scan_free_rlist = lf_thread_queue_scan_free_rlist

unfoldable pub lf_object_queue_scan : (exec : ℕ) → Prog ObjectQueue (Exit (Unit {0}))
lf_object_queue_scan = lf_thread_queue_scan

unfoldable pub lf_object_queue_node_retire : (node exec : ℕ) → Prog ObjectQueue (Exit (Unit {0}))
lf_object_queue_node_retire = lf_thread_queue_node_retire

unfoldable pub lf_object_queue_destroy : (exec : ℕ) → ObjectQueue → ObjectQueue
lf_object_queue_destroy = lf_thread_queue_destroy

unfoldable pub lf_object_queue_try_enqueue :
    (node exec : ℕ) → Window ObjectQueue → ObjectQueue → Option ℕ × ObjectQueue
lf_object_queue_try_enqueue = lf_thread_queue_try_enqueue

unfoldable pub lf_object_queue_enqueue : (object exec : ℕ) → Prog ObjectQueue (Exit Bool)
lf_object_queue_enqueue = lf_thread_queue_enqueue

unfoldable pub lf_object_queue_try_dequeue :
    (exec : ℕ) → Window ObjectQueue → ObjectQueue → Option (Option (ℕ × ℕ)) × ObjectQueue
lf_object_queue_try_dequeue = lf_thread_queue_try_dequeue

unfoldable pub lf_object_queue_dequeue : (exec : ℕ) → Prog ObjectQueue (Exit ℕ)
lf_object_queue_dequeue = lf_thread_queue_dequeue
