-- ===== src/BlockQueue/Examples.antt =====
-- The theorems on the queue of blocks at concrete nodes.
use masters_thesis.Base.{ℕ, ◌≡◌, refl, true, some, [], ◌∷◌, ◌==◌, if◌then◌else◌, arith}
use masters_thesis.Base.Exit.{returned, crashed}
use masters_thesis.Base.Interleave.{quiet}
use masters_thesis.BlockQueue.Nodes.{Node, Blocks}
use masters_thesis.BlockQueue.Links.{Links}
use masters_thesis.BlockQueue.Retired.{
  ptab_size, lf_block_queue_ptab_lookup, lf_block_queue_scan_build_ptab, lf_block_queue_scan,
}
use masters_thesis.BlockQueue.Retired.Table.{lookup-build_kept}
use masters_thesis.BlockQueue.Retired.Free.{IsRetired}
use masters_thesis.BlockQueue.Retired.Hazards.{scan_lem}
use masters_thesis.BlockQueue.Queue.{lf_block_queue_enqueue, lf_block_queue_dequeue}
use masters_thesis.BlockQueue.Queue.Chain.{IsQueue, enqueue-IsQueue}
use masters_thesis.BlockQueue.Queue.Dequeue.{dequeue-IsQueue}

-- The queue has the sentinel 1 and the node 2 with the block 0x70; 3 is unused; the executor 0 has
-- retired 4 and then 5. A hazard pointer of the executor 1 names `hazard`, one of the executor 0
-- `other`.
abbrev nodes : ℕ → Node
nodes n = record {
  lfn_next = if n == 1 then 2 else if n == 5 then 4 else 0;
  lfn_data = if n == 2 then 0x70 else 0;
}

abbrev state : (head hazard other : ℕ) → Blocks
state head hazard other = record {
  node = nodes;
  lf_head = head;
  lf_tail = 2;
  lf_hptrs = λ e. record {
    bhp_rcount = if e == 0 then 2 else 0;
    bhp_rlist = if e == 0 then 5 else 0;
    bhp_ptrs = λ j. if j == 0 then (if e == 1 then hazard else other) else 0;
  };
  lf_block_queue_nodes = 3;
  lf_block_queue_hptrs = 2;
  lf_block_queue_hptr_threshold = 4;
  slices = [];
  freed = [];
}

abbrev one_block : Blocks
one_block = state 1 4 0

one_block-IsQueue : IsQueue (1 ∷ []) (0x70 ∷ []) one_block
one_block-IsQueue = record {
  links = (refl, refl);
  ended = refl;
  positive = omega arith;
  distinct = (omega arith, refl, tt);
  apart = refl;
  contents = (refl, tt);
}

abbrev no_block : Blocks
no_block = state 2 4 0

no_block-IsQueue : IsQueue [] [] no_block
no_block-IsQueue = record {
  links = refl;
  ended = refl;
  positive = omega arith;
  distinct = tt;
  apart = refl;
  contents = tt;
}

enqueue-IsQueue_example :
    (u : Blocks) × (lf_block_queue_enqueue 8 0x71 0 (quiet ∷ quiet ∷ quiet ∷ []) one_block
      ≡ some (returned tt, [], u))
    × IsQueue (1 ∷ 2 ∷ []) (0x70 ∷ 0x71 ∷ []) u
    × (u.lf_block_queue_nodes ≡ 0)
enqueue-IsQueue_example =
    enqueue-IsQueue 8 0x71 0 (1 ∷ []) (0x70 ∷ []) [] one_block one_block-IsQueue (omega arith)
      (omega arith) refl

dequeue-IsQueue_example :
    ((u : Blocks) × (lf_block_queue_dequeue 0 (quiet ∷ []) one_block ≡ some (returned 0x70, [], u))
      × IsQueue [] [] u)
    × ((v : Blocks) × (lf_block_queue_dequeue 0 (quiet ∷ []) no_block ≡ some (returned 0, [], v))
        × IsQueue [] [] v)
dequeue-IsQueue_example =
    dequeue-IsQueue 0 1 0x70 [] [] [] one_block no_block one_block-IsQueue (omega arith)
      no_block-IsQueue

state-IsRetired : (hazard other : ℕ) → IsRetired 0 (5 ∷ 4 ∷ []) (3 ∷ []) (state 1 hazard other)
state-IsRetired hazard other = record {
  rlist = (refl, (refl, refl));
  rcount = refl;
  distinct = (omega arith, refl, (omega arith, refl, tt));
  unused = (refl, refl);
  apart = (refl, (refl, tt));
}

lookup-build_kept_example :
    lf_block_queue_ptab_lookup
      (lf_block_queue_scan_build_ptab quiet one_block).0
      4
      (ptab_size one_block)
    ≡ true
lookup-build_kept_example =
    lookup-build_kept 4 1 0 quiet one_block (omega arith) (omega arith) refl (λ _ _ e. e)

-- A hazard pointer names 4, so that 5 is freed; where hazard pointers name 4 and 5, the scan
-- crashes.
scan_lem_example :
    ((u : Blocks) × (lf_block_queue_scan 0 (quiet ∷ quiet ∷ []) one_block
        ≡ some (returned tt, [], u))
      × Links u.node u.lf_block_queue_nodes (5 ∷ 3 ∷ []) 0
      × Links u.node (u.lf_hptrs 0).bhp_rlist (4 ∷ []) 0
      × ((u.lf_hptrs 0).bhp_rcount ≡ 1))
    × ((v : Blocks) × (lf_block_queue_scan 0 (quiet ∷ quiet ∷ []) (state 1 4 5)
          ≡ some (crashed, quiet ∷ [], v)))
scan_lem_example =
    scan_lem 0 (5 ∷ 4 ∷ []) (3 ∷ []) [] one_block (state 1 4 5) (state-IsRetired 4 0) (ground arith)
      (state-IsRetired 4 5) refl
