-- ===== src/BlockQueue/Queue/Chain.antt =====
-- The queue is the sequence of its blocks, for an executor that is alone.
use masters_thesis.Base.{
  ℕ, ◌≡◌, ◌≢◌, refl, false, none, some, List, [], ◌∷◌, ◌++◌, ne→==, eq→==, arith,
}
use masters_thesis.Base.Exit.{returned}
use masters_thesis.Base.Interleave.{Window, quiet, retry, retry_done}
use masters_thesis.Malloc.State.{null}
use masters_thesis.BlockQueue.Nodes.{
  Blocks, set_node, set_next, set_hazard, lf_block_queue_try_alloc_node, lf_block_queue_alloc_node,
}
use masters_thesis.BlockQueue.Fifo.{IsFifo, snoc-IsFifo}
use masters_thesis.BlockQueue.Retired.Table.{has}
use masters_thesis.BlockQueue.Queue.{
  lf_block_queue_try_enqueue, lf_block_queue_enqueue, lf_block_queue_try_dequeue,
}

-- `ns` are the nodes in front of the tail, the first of them, or the tail, being a sentinel, and
-- `blocks` what the nodes behind the sentinel hold.
abbrev pub IsQueue : (ns blocks : List ℕ) → Blocks → Type 0
IsQueue ns blocks s = IsFifo s.node s.lf_head s.lf_tail ns blocks

-- One try, where the others do nothing.
try_enqueue_lem :
    (n exec : ℕ) (s : Blocks)
    → (s.node s.lf_tail).lfn_next ≡ null
    → lf_block_queue_try_enqueue n exec quiet s
      ≡ (some s.lf_tail, set_next s.lf_tail n (set_hazard exec 0 s.lf_tail s))
unfolding lf_block_queue_try_enqueue
try_enqueue_lem n exec s ended = ground (arith, ended)

module _ (exec : ℕ) (s : Blocks) where
  abbrev pub next : ℕ
  next = (s.node s.lf_head).lfn_next

  abbrev pub watched : Blocks
  watched = set_hazard exec 1 next (set_hazard exec 0 s.lf_head s)

  pub try_dequeue_empty :
      next ≡ null
      → lf_block_queue_try_dequeue exec quiet s
        ≡ (some none, set_hazard exec 1 null (set_hazard exec 0 null watched))
  unfolding lf_block_queue_try_dequeue
  try_dequeue_empty ended = ground (arith, ended)

  pub try_dequeue_some :
      next ≢ null
      → s.lf_head ≢ s.lf_tail
      → lf_block_queue_try_dequeue exec quiet s
        ≡ (some (some (s.lf_head, next)), record watched { lf_head = next })
  unfolding lf_block_queue_try_dequeue
  try_dequeue_some more apart = ground (arith, more, apart)

module _ (size_of block exec : ℕ) (s : Blocks) where
  abbrev n : ℕ
  n = s.lf_block_queue_nodes

  -- The first unused node is taken, and filled.
  abbrev filled : Blocks
  filled =
      set_node n (λ _. record { lfn_next = null; lfn_data = block })
        (record s { lf_block_queue_nodes = (s.node n).lfn_next })

  -- It is linked behind the tail.
  abbrev linked : Blocks
  linked = set_next filled.lf_tail n (set_hazard exec 0 filled.lf_tail filled)

  abbrev enqueued : Blocks
  enqueued = set_hazard exec 0 null (record linked { lf_tail = n })

  alloc_run :
      (ws : List (Window Blocks))
      → n ≢ null
      → lf_block_queue_alloc_node size_of (quiet ∷ ws) s
        ≡ some (n, ws, record s { lf_block_queue_nodes = (s.node n).lfn_next })
  unfolding lf_block_queue_alloc_node
  alloc_run ws ne =
      retry_done (lf_block_queue_try_alloc_node size_of) quiet ws s
        (record s { lf_block_queue_nodes = (s.node n).lfn_next }) n (one_try ne)
    where
      one_try :
          n ≢ null
          → lf_block_queue_try_alloc_node size_of quiet s
            ≡ (some n, record s { lf_block_queue_nodes = (s.node n).lfn_next })
      one_try ne =
          unfold lf_block_queue_try_alloc_node in
          rw (ne→== s.lf_block_queue_nodes null ne)
            (rw (eq→== s.lf_block_queue_nodes s.lf_block_queue_nodes refl) refl)

  link_run :
      (ws : List (Window Blocks))
      → (filled.node filled.lf_tail).lfn_next ≡ null
      → retry (lf_block_queue_try_enqueue n exec) (quiet ∷ ws) filled
        ≡ some (filled.lf_tail, ws, linked)
  link_run ws ended =
      retry_done (lf_block_queue_try_enqueue n exec) quiet ws filled linked filled.lf_tail
        (try_enqueue_lem n exec filled ended)

  enqueue_run :
      (ws : List (Window Blocks))
      → n ≢ null
      → (filled.node filled.lf_tail).lfn_next ≡ null
      → lf_block_queue_enqueue size_of block exec (quiet ∷ quiet ∷ quiet ∷ ws) s
        ≡ some (returned tt, ws, enqueued)
  unfolding lf_block_queue_enqueue
  enqueue_run ws ne ended =
      ground (arith, alloc_run (quiet ∷ quiet ∷ ws) ne, link_run (quiet ∷ ws) ended)

  filled_end :
      (s.node s.lf_tail).lfn_next ≡ null
      → n ≢ s.lf_tail
      → (filled.node filled.lf_tail).lfn_next ≡ null
  filled_end ended ne = ground (arith, ended, ne)

-- Where no other executor interferes: lf_block_queue_enqueue on a queue takes the first unused
-- node, which is not a node of the queue, and returns; the queue then holds the block behind its
-- others.
pub enqueue-IsQueue :
    (size_of block exec : ℕ) (ns xs : List ℕ) (ws : List (Window Blocks)) (s : Blocks)
    → IsQueue ns xs s
    → s.lf_block_queue_nodes ≢ null
    → s.lf_block_queue_nodes ≢ s.lf_tail
    → has s.lf_block_queue_nodes ns ≡ false
    → (u : Blocks) × (lf_block_queue_enqueue size_of block exec (quiet ∷ quiet ∷ quiet ∷ ws) s
        ≡ some (returned tt, ws, u))
      × IsQueue (ns ++ s.lf_tail ∷ []) (xs ++ block ∷ []) u
      × (u.lf_block_queue_nodes ≡ (s.node s.lf_block_queue_nodes).lfn_next)
enqueue-IsQueue size_of block exec ns xs ws s q pos ne out = (
  enqueued size_of block exec s,
  enqueue_run size_of block exec s ws pos (filled_end size_of block exec s q.ended ne),
  snoc-IsFifo s.node s.lf_head s.lf_tail s.lf_block_queue_nodes block ns xs q pos ne out,
  refl,
)
