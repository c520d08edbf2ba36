-- ===== src/ThreadQueue/Queue/Fifo.antt =====
-- The queue of threads is the sequence of its threads, for an executor that is alone.
use masters_thesis.Base.{
  ℕ, ◌≤◌, ◌<◌, ◌≡◌, ◌≢◌, refl, ◌∙◌, true, false, none, some, List, [], ◌∷◌, ◌++◌, ne→==, eq→==,
  ltb_of_ge, arith,
}
use masters_thesis.Base.Word.{sub32}
use masters_thesis.Base.Exit.{returned}
use masters_thesis.Base.Interleave.{Window, quiet, retry, retry_done, bind_done}
use masters_thesis.BlockQueue.Fifo.{IsFifo, snoc-IsFifo, tail-IsFifo}
use masters_thesis.BlockQueue.Retired.Table.{has}
use masters_thesis.ThreadQueue.Nodes.{
  NodeQueue, null, set_node, set_lfn_next, set_hazard, set_nl_list, set_nl_count,
  lf_thread_queue_allocator_upper_bound, lf_thread_queue_allocator_lower_bound,
  lf_thread_queue_node_alloc_balance, lf_thread_queue_node_alloc,
}
use masters_thesis.ThreadQueue.Retired.{kept, lf_thread_queue_node_retire}
use masters_thesis.ThreadQueue.Queue.{
  lf_thread_queue_try_enqueue, enqueue_node, lf_thread_queue_enqueue, lf_thread_queue_try_dequeue,
  dequeued, lf_thread_queue_dequeue,
}

abbrev pub IsQueue : (ns threads : List ℕ) → NodeQueue → Type 0
IsQueue ns threads s = IsFifo s.node s.lf_head s.lf_tail ns threads

-- The executor has as many unused nodes as the balance leaves it.
pub record IsBalanced (exec : ℕ) (s : NodeQueue) : Type 0 where
  pub enough : lf_thread_queue_allocator_lower_bound s ≤ s.nl_count exec
  pub few : s.nl_count exec ≤ lf_thread_queue_allocator_upper_bound s

-- One try, where the others do nothing.
try_enqueue_lem :
    (n exec : ℕ) (s : NodeQueue)
    → (s.node s.lf_tail).lfn_next ≡ null
    → lf_thread_queue_try_enqueue n exec quiet s
      ≡ (some s.lf_tail, set_lfn_next s.lf_tail n (set_hazard exec 0 s.lf_tail s))
unfolding lf_thread_queue_try_enqueue
try_enqueue_lem n exec s ended = ground (arith, ended)

module _ (thread exec : ℕ) (s : NodeQueue) where
  abbrev n : ℕ
  n = s.nl_list exec

  -- The first unused node is taken.
  abbrev removed : NodeQueue
  removed = set_nl_count exec (sub32 (s.nl_count exec) 1) (set_nl_list exec (s.node n).lfn_next s)

  abbrev filled : NodeQueue
  filled = set_node n (λ _. record { lfn_next = null; lfn_data = thread }) removed

  -- It is linked behind the tail.
  abbrev linked : NodeQueue
  linked = set_lfn_next s.lf_tail n (set_hazard exec 0 s.lf_tail filled)

  abbrev enqueued : NodeQueue
  enqueued = set_hazard exec 0 null (record linked { lf_tail = n })

  balance_run :
      (ws : List (Window NodeQueue))
      → IsBalanced exec s
      → lf_thread_queue_node_alloc_balance exec ws s ≡ some (returned tt, ws, s)
  unfolding lf_thread_queue_node_alloc_balance
  balance_run ws b =
      rw (ltb_of_ge (lf_thread_queue_allocator_upper_bound s) (s.nl_count exec) b.few)
        (rw (ltb_of_ge (s.nl_count exec) (lf_thread_queue_allocator_lower_bound s) b.enough) refl)

  alloc_run :
      (ws : List (Window NodeQueue))
      → IsBalanced exec s
      → n ≢ null
      → lf_thread_queue_node_alloc exec ws s ≡ some (returned n, ws, removed)
  unfolding lf_thread_queue_node_alloc
  alloc_run ws b some_node =
      bind_done (lf_thread_queue_node_alloc_balance exec) _ ws ws s s (returned tt)
        (balance_run ws b)
      ∙ rw (ne→== n null some_node) refl

  link_run :
      (ws : List (Window NodeQueue))
      → (filled.node s.lf_tail).lfn_next ≡ null
      → retry (lf_thread_queue_try_enqueue n exec) (quiet ∷ ws) filled
        ≡ some (s.lf_tail, ws, linked)
  link_run ws ended =
      retry_done (lf_thread_queue_try_enqueue n exec) quiet ws filled linked s.lf_tail
        (try_enqueue_lem n exec filled ended)

  enqueue_run :
      (ws : List (Window NodeQueue))
      → IsBalanced exec s
      → n ≢ null
      → (filled.node s.lf_tail).lfn_next ≡ null
      → lf_thread_queue_enqueue thread exec (quiet ∷ quiet ∷ ws) s
        ≡ some (returned true, ws, enqueued)
  unfolding lf_thread_queue_enqueue enqueue_node
  enqueue_run ws b some_node ended =
      bind_done (lf_thread_queue_node_alloc exec) _ (quiet ∷ quiet ∷ ws) (quiet ∷ quiet ∷ ws) s
        removed (returned n) (alloc_run (quiet ∷ quiet ∷ ws) b some_node)
      ∙ rw (ne→== n null some_node) (ground (arith, link_run (quiet ∷ ws) ended))

module _ (exec : ℕ) (s : NodeQueue) where
  abbrev next : ℕ
  next = (s.node s.lf_head).lfn_next

  abbrev watched : NodeQueue
  watched = set_hazard exec 1 next (set_hazard exec 0 s.lf_head s)

  try_dequeue_empty :
      next ≡ null
      → lf_thread_queue_try_dequeue exec quiet s
        ≡ (some none, set_hazard exec 1 null (set_hazard exec 0 null watched))
  unfolding lf_thread_queue_try_dequeue
  try_dequeue_empty ended = ground (arith, ended)

  try_dequeue_some :
      next ≢ null
      → s.lf_head ≢ s.lf_tail
      → lf_thread_queue_try_dequeue exec quiet s
        ≡ (some (some (s.lf_head, next)), record watched { lf_head = next })
  unfolding lf_thread_queue_try_dequeue
  try_dequeue_some more apart = ground (arith, more, apart)

  -- The state once the head moved, with the second hazard pointer unset.
  abbrev moved : NodeQueue
  moved = set_hazard exec 1 null (record watched { lf_head = next })

  abbrev taken : NodeQueue
  taken = set_hazard exec 0 null (kept exec s.lf_head moved)

  retire_run :
      (ws : List (Window NodeQueue))
      → (s.lf_hptrs exec).thp_rcount < s.lf_thread_queue_hptr_threshold
      → lf_thread_queue_node_retire s.lf_head exec ws moved
        ≡ some (returned tt, ws, kept exec s.lf_head moved)
  unfolding lf_thread_queue_node_retire
  retire_run ws few = ground (arith, few)

  dequeue_run :
      (ws : List (Window NodeQueue))
      → next ≢ null
      → s.lf_head ≢ s.lf_tail
      → (s.lf_hptrs exec).thp_rcount < s.lf_thread_queue_hptr_threshold
      → lf_thread_queue_dequeue exec (quiet ∷ ws) s
        ≡ some (returned (s.node next).lfn_data, ws, taken)
  unfolding lf_thread_queue_dequeue dequeued
  dequeue_run ws more apart few = ground (
    arith,
    retry_done (lf_thread_queue_try_dequeue exec) quiet ws s (record watched { lf_head = next })
        (some (s.lf_head, next)) (try_dequeue_some more apart),
    retire_run ws few,
  )

  empty_run :
      (ws : List (Window NodeQueue))
      → next ≡ null
      → lf_thread_queue_dequeue exec (quiet ∷ ws) s
        ≡ some (returned null, ws, set_hazard exec 1 null (set_hazard exec 0 null watched))
  unfolding lf_thread_queue_dequeue
  empty_run ws ended = ground (
    arith,
    retry_done (lf_thread_queue_try_dequeue exec) quiet ws s
        (set_hazard exec 1 null (set_hazard exec 0 null watched)) none (try_dequeue_empty ended),
  )

-- Where no other executor interferes, for an executor whose unused nodes need no balance:
-- lf_thread_queue_enqueue takes its first unused node, which is not a node of the queue, and
-- returns true, and the queue then holds the thread behind its others.
pub enqueue-IsFifo :
    (thread exec : ℕ) (ns xs : List ℕ) (ws : List (Window NodeQueue)) (s : NodeQueue)
    → IsQueue ns xs s
    → IsBalanced exec s
    → s.nl_list exec ≢ null
    → s.nl_list exec ≢ s.lf_tail
    → has (s.nl_list exec) ns ≡ false
    → (u : NodeQueue) × (lf_thread_queue_enqueue thread exec (quiet ∷ quiet ∷ ws) s
        ≡ some (returned true, ws, u))
      × IsQueue (ns ++ s.lf_tail ∷ []) (xs ++ thread ∷ []) u
      × (u.nl_list exec ≡ (s.node (s.nl_list exec)).lfn_next)
enqueue-IsFifo thread exec ns xs ws s q b some_node ne out = (
  enqueued thread exec s,
  enqueue_run thread exec s ws b some_node (ground (arith, q.ended, ne)),
  snoc-IsFifo s.node s.lf_head s.lf_tail (s.nl_list exec) thread ns xs q some_node ne out,
  rw (eq→== exec exec refl) refl,
)

-- Where no other executor interferes, for an executor whose unused nodes need no balance and that
-- has none: lf_thread_queue_enqueue returns false and changes nothing.
pub enqueue_full :
    (thread exec : ℕ) (ws : List (Window NodeQueue)) (s : NodeQueue)
    → IsBalanced exec s
    → s.nl_list exec ≡ null
    → lf_thread_queue_enqueue thread exec ws s ≡ some (returned false, ws, s)
unfolding lf_thread_queue_enqueue lf_thread_queue_node_alloc
enqueue_full thread exec ws s b empty =
    bind_done (lf_thread_queue_node_alloc exec) _ ws ws s s (returned null) allocated ∙ refl
  where
    allocated : lf_thread_queue_node_alloc exec ws s ≡ some (returned null, ws, s)
    allocated =
        bind_done (lf_thread_queue_node_alloc_balance exec) _ ws ws s s (returned tt)
          (balance_run thread exec s ws b)
        ∙ rw empty refl

-- Where no other executor interferes: lf_thread_queue_dequeue on a queue returns its first thread,
-- which the queue holds no more, for an executor that has fewer retired nodes than the threshold;
-- on an empty queue it returns NULL and leaves the queue empty.
pub dequeue-IsFifo :
    (exec f x : ℕ) (ns xs : List ℕ) (ws : List (Window NodeQueue)) (s e : NodeQueue)
    → IsQueue (f ∷ ns) (x ∷ xs) s
    → (s.lf_hptrs exec).thp_rcount < s.lf_thread_queue_hptr_threshold
    → IsQueue [] [] e
    → ((u : NodeQueue) × (lf_thread_queue_dequeue exec (quiet ∷ ws) s ≡ some (returned x, ws, u))
        × IsQueue ns xs u)
      × ((v : NodeQueue) × (lf_thread_queue_dequeue exec (quiet ∷ ws) e
            ≡ some (returned null, ws, v))
          × IsQueue [] [] v)
dequeue-IsFifo exec f x ns xs ws s e q few empty =
    let (rest, data_read, more, apart) =
      tail-IsFifo s.node s.lf_head s.lf_tail f x ((moved exec s).lf_hptrs exec).thp_rlist ns xs q in
    (
      (taken exec s, dequeue_run exec s ws more apart few ∙ rw data_read refl, rest),
      (
        _,
        empty_run exec e ws (rw empty.links empty.ended),
        record {
          links = empty.links;
          ended = empty.ended;
          positive = empty.positive;
          distinct = tt;
          apart = refl;
          contents = tt;
        },
      ),
    )
