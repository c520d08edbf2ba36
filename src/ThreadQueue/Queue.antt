-- ===== src/ThreadQueue/Queue.antt =====
-- src/cc/lf_thread_queue.c: the operations on the queue.
pub mod Fifo
use masters_thesis.Base.{
  ℕ, Bool, true, false, Option, none, some, List, [], ◌∷◌, ◌==◌, not, if◌then◌else◌,
}
use masters_thesis.Base.Exit.{Exit, returned, crashed}
use masters_thesis.Base.Interleave.{Window, Prog, pure, once, retry, modify, gets, ◌>>=◌, ◌>>◌}
use masters_thesis.BlockQueue.Nodes.{Node}
use masters_thesis.ThreadQueue.Nodes.{
  NodeQueue, ThreadHazards, null, set_node, set_hazard, cas_next, cas_head, cas_tail,
  lf_thread_queue_node_alloc,
}
use masters_thesis.ThreadQueue.Retired.{lf_thread_queue_node_retire}

-- It has nothing to do.
unfoldable pub lf_thread_queue_destroy : (exec : ℕ) → NodeQueue → NodeQueue
lf_thread_queue_destroy exec s = s

-- The others may act before each access to shared memory: `later 0` before lf_tail is read again,
-- `later 1` before the tail's next node is, `later 2` before lf_tail is read a third time.
unfoldable pub lf_thread_queue_try_enqueue :
    (node exec : ℕ) → Window NodeQueue → NodeQueue → Option ℕ × NodeQueue
lf_thread_queue_try_enqueue node exec w s0 =
    let s = w.before s0 in
    let tail = s.lf_tail in
    let s1 = w.later 0 (set_hazard exec 0 tail s) in
    if not (tail == s1.lf_tail)
    then (none, s1)
    else let s2 = w.later 1 s1 in
      let next = (s2.node tail).lfn_next in
      let s3 = w.later 2 s2 in
      if not (tail == s3.lf_tail)
      then (none, s3)
      else if not (next == null)
      then (none, (cas_tail tail next (w.between s3)).1)
      else let (out, s4) = cas_next tail null node (w.between s3) in
        (if out then some tail else none, s4)

-- What follows the allocation of a node.
unfoldable pub enqueue_node : (node thread exec : ℕ) → Prog NodeQueue (Exit Bool)
enqueue_node node thread exec = do
  modify (set_node node (λ _. record { lfn_next = null; lfn_data = thread }))
  tail ← retry (lf_thread_queue_try_enqueue node exec)
  once (λ w s. (tt, (cas_tail tail node (w.between (w.before s))).1))
  modify (set_hazard exec 0 null)
  pure (returned true)

abbrev pub if_allocated : Exit ℕ → (ℕ → Prog NodeQueue (Exit Bool)) → Prog NodeQueue (Exit Bool)
if_allocated crashed body = pure crashed
if_allocated (returned node) body = if node == null then pure (returned false) else body node

unfoldable pub lf_thread_queue_enqueue : (thread exec : ℕ) → Prog NodeQueue (Exit Bool)
lf_thread_queue_enqueue thread exec = do
  node ← lf_thread_queue_node_alloc exec
  if_allocated node (λ n. enqueue_node n thread exec)

-- lf_thread_queue_try_dequeue up to its compare-and-set: `some none` where the queue is empty, and
-- the old head and its next node where the head moved.
unfoldable pub lf_thread_queue_try_dequeue :
    (exec : ℕ) → Window NodeQueue → NodeQueue → Option (Option (ℕ × ℕ)) × NodeQueue
lf_thread_queue_try_dequeue exec w s0 =
    let s = w.before s0 in
    let head = s.lf_head in
    let s1 = w.later 0 (set_hazard exec 0 head s) in
    if not (head == s1.lf_head)
    then (none, s1)
    else let s2 = w.later 1 s1 in
      let tail = s2.lf_tail in
      let s3 = w.later 2 s2 in
      let next = (s3.node head).lfn_next in
      let s4 = w.later 3 (set_hazard exec 1 next s3) in
      if not (head == s4.lf_head)
      then (none, s4)
      else if next == null
      then (some none, set_hazard exec 1 null (set_hazard exec 0 null s4))
      else if head == tail
      then (none, (cas_tail tail next (w.between s4)).1)
      else let (out, s5) = cas_head head next (w.between s4) in
        (if out then some (some (head, next)) else none, s5)

-- The rest of lf_thread_queue_try_dequeue.
unfoldable pub dequeued : (exec head next : ℕ) → Prog NodeQueue (Exit ℕ)
dequeued exec head next = do
  thread ← gets (λ s. (s.node next).lfn_data)
  modify (set_hazard exec 1 null)
  out ← lf_thread_queue_node_retire head exec
  elim out [
    | crashed ↦ pure crashed
    | returned _ ↦ (do modify (set_hazard exec 0 null); pure (returned thread))
  ]

unfoldable pub lf_thread_queue_dequeue : (exec : ℕ) → Prog NodeQueue (Exit ℕ)
lf_thread_queue_dequeue exec = do
  taken ← retry (lf_thread_queue_try_dequeue exec)
  elim taken [ none ↦ pure (returned null) | some (head, next) ↦ dequeued exec head next ]
