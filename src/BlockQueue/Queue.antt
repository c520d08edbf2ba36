-- ===== src/BlockQueue/Queue.antt =====
-- The operations of src/mm/malloc/lf_block_queue.c on the queue.
pub mod Chain
pub mod Dequeue
use masters_thesis.Base.{
  ℕ, zero, suc, ◌+◌, ◌*◌, Bool, true, false, Option, none, some, List, [], ◌∷◌, ◌==◌, not,
  if◌then◌else◌,
}
use masters_thesis.Base.Exit.{Exit, returned, crashed}
use masters_thesis.Base.Interleave.{Window, Prog, pure, once, retry, modify, gets, ◌>>=◌, ◌>>◌}
use masters_thesis.Malloc.State.{null}
use masters_thesis.BlockQueue.Nodes.{
  Blocks, Node, HazardPtrs, set_node, set_next, set_hptrs, set_hazard, cas_next, cas_head, cas_tail,
  lf_block_queue_alloc_node,
}
use masters_thesis.BlockQueue.Retired.{lf_block_queue_scan, lf_block_queue_node_retire}

-- The state with a sentinel node, no hazards and no retired nodes.
abbrev pub initialised : (execs sentinel : ℕ) → Blocks → Blocks
initialised execs sentinel s =
    record (set_node sentinel (λ _. record { lfn_next = null; lfn_data = null }) s) {
      lf_block_queue_hptrs = execs;
      lf_block_queue_hptr_threshold = execs * 2;
      lf_head = sentinel;
      lf_tail = sentinel;
      lf_hptrs = λ _. record { bhp_rcount = 0; bhp_rlist = null; bhp_ptrs = λ _. null };
    }

unfoldable pub lf_block_queue_init : (size_of execs : ℕ) → Prog Blocks (Exit (Unit {0}))
lf_block_queue_init size_of execs = do
  sentinel ← lf_block_queue_alloc_node size_of
  if sentinel == null
      then pure crashed
      else (do modify (initialised execs sentinel); pure (returned tt))

unfoldable pub lf_block_queue_destroy : (exec : ℕ) → Prog Blocks (Exit (Unit {0}))
lf_block_queue_destroy exec = do
  head ← gets (λ s. s.lf_head)
  out ← lf_block_queue_node_retire head exec
  elim out [ crashed ↦ pure crashed | returned _ ↦ lf_block_queue_scan exec ]

-- The others may act before each access to shared memory: `later 0` before lf_tail is read again,
-- `later 1` before the tail's next node is, `later 2` before lf_tail is read a third time.
unfoldable pub lf_block_queue_try_enqueue :
    (node exec : ℕ) → Window Blocks → Blocks → Option ℕ × Blocks
lf_block_queue_try_enqueue node exec w s0 =
    let s = w.before s0 in
    let tail = s.lf_tail in
    let s1 = w.later 0 (set_hazard exec 0 tail s) in
    if not (tail == s1.lf_tail)
    then (none, s1)
    else let s2 = w.later 1 s1 in
      let next = (s2.node tail).lfn_next in
      let s3 = w.later 2 s2 in
      if not (tail == s3.lf_tail)
      then (none, s3)
      else if not (next == null)
      then (none, (cas_tail tail next (w.between s3)).1)
      else let (out, s4) = cas_next tail null node (w.between s3) in
        (if out then some tail else none, s4)

unfoldable pub lf_block_queue_enqueue : (size_of block exec : ℕ) → Prog Blocks (Exit (Unit {0}))
lf_block_queue_enqueue size_of block exec = do
  node ← lf_block_queue_alloc_node size_of
  if node == null then pure crashed else (do
    modify (set_node node (λ _. record { lfn_next = null; lfn_data = block }))
    tail ← retry (lf_block_queue_try_enqueue node exec)
    once (λ w s. (tt, (cas_tail tail node (w.between (w.before s))).1))
    modify (set_hazard exec 0 null)
    pure (returned tt))

-- lf_block_queue_try_dequeue up to its compare-and-set: `some none` where the queue is empty, and
-- the old head and its next node where the head moved.
unfoldable pub lf_block_queue_try_dequeue :
    (exec : ℕ) → Window Blocks → Blocks → Option (Option (ℕ × ℕ)) × Blocks
lf_block_queue_try_dequeue exec w s0 =
    let s = w.before s0 in
    let head = s.lf_head in
    let s1 = w.later 0 (set_hazard exec 0 head s) in
    if not (head == s1.lf_head)
    then (none, s1)
    else let s2 = w.later 1 s1 in
      let tail = s2.lf_tail in
      let s3 = w.later 2 s2 in
      let next = (s3.node head).lfn_next in
      let s4 = w.later 3 (set_hazard exec 1 next s3) in
      if not (head == s4.lf_head)
      then (none, s4)
      else if next == null
      then (some none, set_hazard exec 1 null (set_hazard exec 0 null s4))
      else if head == tail
      then (none, (cas_tail tail next (w.between s4)).1)
      else let (out, s5) = cas_head head next (w.between s4) in
        (if out then some (some (head, next)) else none, s5)

-- The rest of lf_block_queue_try_dequeue.
unfoldable pub dequeued : (exec head next : ℕ) → Prog Blocks (Exit ℕ)
dequeued exec head next = do
  block ← gets (λ s. (s.node next).lfn_data)
  modify (set_hazard exec 1 null)
  out ← lf_block_queue_node_retire head exec
  elim out [
    | crashed ↦ pure crashed
    | returned _ ↦ (do modify (set_hazard exec 0 null); pure (returned block))
  ]

unfoldable pub lf_block_queue_dequeue : (exec : ℕ) → Prog Blocks (Exit ℕ)
lf_block_queue_dequeue exec = do
  taken ← retry (lf_block_queue_try_dequeue exec)
  elim taken [ none ↦ pure (returned null) | some (head, next) ↦ dequeued exec head next ]
