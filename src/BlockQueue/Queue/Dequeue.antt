-- ===== src/BlockQueue/Queue/Dequeue.antt =====
-- Taking the first block off the queue, for an executor that is alone.
use masters_thesis.Base.{ℕ, ◌<◌, ◌≡◌, ◌≢◌, refl, ◌∙◌, none, some, List, [], ◌∷◌, arith}
use masters_thesis.Base.Exit.{returned}
use masters_thesis.Base.Interleave.{Window, quiet, retry_done}
use masters_thesis.Malloc.State.{null}
use masters_thesis.BlockQueue.Nodes.{Blocks, set_hazard}
use masters_thesis.BlockQueue.Fifo.{tail-IsFifo}
use masters_thesis.BlockQueue.Retired.{retired, lf_block_queue_node_retire}
use masters_thesis.BlockQueue.Queue.{lf_block_queue_try_dequeue, dequeued, lf_block_queue_dequeue}
use masters_thesis.BlockQueue.Queue.Chain.{
  IsQueue, next, watched, try_dequeue_empty, try_dequeue_some,
}

module _ (exec : ℕ) (s : Blocks) where
  -- The state once the head moved, with the second hazard pointer unset.
  abbrev moved : Blocks
  moved = set_hazard exec 1 null (record (watched exec s) { lf_head = next exec s })

  abbrev taken : Blocks
  taken = set_hazard exec 0 null (retired s.lf_head exec moved)

  retire_run :
      (ws : List (Window Blocks))
      → (s.lf_hptrs exec).bhp_rcount < s.lf_block_queue_hptr_threshold
      → lf_block_queue_node_retire s.lf_head exec ws moved
        ≡ some (returned tt, ws, retired s.lf_head exec moved)
  unfolding lf_block_queue_node_retire
  retire_run ws few = ground (arith, few)

  dequeue_run :
      (ws : List (Window Blocks))
      → next exec s ≢ null
      → s.lf_head ≢ s.lf_tail
      → (s.lf_hptrs exec).bhp_rcount < s.lf_block_queue_hptr_threshold
      → lf_block_queue_dequeue exec (quiet ∷ ws) s
        ≡ some (returned (s.node (next exec s)).lfn_data, ws, taken)
  unfolding lf_block_queue_dequeue dequeued
  dequeue_run ws more apart few = ground (
    arith,
    retry_done (lf_block_queue_try_dequeue exec) quiet ws s
        (record (watched exec s) { lf_head = next exec s }) (some (s.lf_head, next exec s))
        (try_dequeue_some exec s more apart),
    retire_run ws few,
  )

  empty_run :
      (ws : List (Window Blocks))
      → next exec s ≡ null
      → lf_block_queue_dequeue exec (quiet ∷ ws) s
        ≡ some (returned null, ws, set_hazard exec 1 null (set_hazard exec 0 null (watched exec s)))
  unfolding lf_block_queue_dequeue
  empty_run ws ended = ground (
    arith,
    retry_done (lf_block_queue_try_dequeue exec) quiet ws s
        (set_hazard exec 1 null (set_hazard exec 0 null (watched exec s))) none
        (try_dequeue_empty exec s ended),
  )

-- Where no other executor interferes: lf_block_queue_dequeue on a queue returns its first block,
-- which the queue holds no more; on an empty queue it returns NULL and leaves the queue empty. It
-- holds for an executor that has fewer retired nodes than the threshold.
pub dequeue-IsQueue :
    (exec f x : ℕ) (ns xs : List ℕ) (ws : List (Window Blocks)) (s e : Blocks)
    → IsQueue (f ∷ ns) (x ∷ xs) s
    → (s.lf_hptrs exec).bhp_rcount < s.lf_block_queue_hptr_threshold
    → IsQueue [] [] e
    → ((u : Blocks) × (lf_block_queue_dequeue exec (quiet ∷ ws) s ≡ some (returned x, ws, u))
        × IsQueue ns xs u)
      × ((v : Blocks) × (lf_block_queue_dequeue exec (quiet ∷ ws) e ≡ some (returned null, ws, v))
          × IsQueue [] [] v)
dequeue-IsQueue exec f x ns xs ws s e q few empty =
    let (kept, data_read, more, apart) =
      tail-IsFifo s.node s.lf_head s.lf_tail f x ((moved exec s).lf_hptrs exec).bhp_rlist ns xs q in
    (
      (taken exec s, dequeue_run exec s ws more apart few ∙ rw data_read refl, kept),
      (
        _,
        empty_run exec e ws (rw empty.links empty.ended),
        record {
          links = empty.links;
          ended = empty.ended;
          positive = empty.positive;
          distinct = tt;
          apart = refl;
          contents = tt;
        },
      ),
    )
