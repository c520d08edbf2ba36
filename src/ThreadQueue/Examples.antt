-- ===== src/ThreadQueue/Examples.antt =====
-- The theorems on the queue of threads at concrete queues.
use masters_thesis.Base.{◌+◌, ◌≡◌, refl, true, some, [], ◌∷◌, ◌==◌, if◌then◌else◌, arith}
use masters_thesis.Base.Exit.{returned, crashed}
use masters_thesis.Base.Interleave.{quiet}
use masters_thesis.ThreadQueue.Nodes.{
  NodeQueue, null, set_lfn_next, set_nl_list, lf_thread_queue_node_alloc_balance,
  lf_thread_queue_allocator_upper_bound, lf_thread_queue_allocator_lower_bound,
}
use masters_thesis.ThreadQueue.Nodes.Balance.{balance_shares}
use masters_thesis.ThreadQueue.Init.{Sizes, lf_thread_queue_request, lf_thread_queue_init}
use masters_thesis.ThreadQueue.Init.Sentinel.{init_shares_sentinel}
use masters_thesis.ThreadQueue.Queue.{lf_thread_queue_enqueue, lf_thread_queue_dequeue}
use masters_thesis.ThreadQueue.Queue.Fifo.{IsQueue, IsBalanced, enqueue-IsFifo, dequeue-IsFifo}

-- Eight nodes and two executors, with the bounds 3 and 5. The executor 0 has the nodes 1 to 6; 7
-- is shared.
abbrev many_nodes : NodeQueue
many_nodes = record {
  node = λ n. record {
    lfn_next = if n == 6 then 0 else if n == 7 then 0 else if n == 9 then 0 else n + 1;
    lfn_data = n + 0x70;
  };
  qna_shared_list = 7;
  qna_count = 8;
  nl_list = λ _. 1;
  nl_count = λ _. 6;
  lf_head = 8;
  lf_tail = 9;
  lf_hptrs = λ _. record { thp_rcount = 0; thp_rlist = null; thp_ptrs = λ _. null };
  lf_thread_queue_hptrs = 2;
  lf_thread_queue_hptr_threshold = 4;
  executor_count = 2;
}

abbrev few_nodes : NodeQueue
few_nodes = record many_nodes { qna_shared_list = 0; nl_count = λ _. 2 }

-- The queue holds the thread 0x79, and the executor has the nodes 3 to 6.
abbrev one_thread : NodeQueue
one_thread = record many_nodes { nl_list = λ _. 3; nl_count = λ _. 4 }

abbrev no_thread : NodeQueue
no_thread = record many_nodes { lf_head = 9 }

one_thread-IsQueue : IsQueue (8 ∷ []) (0x79 ∷ []) one_thread
one_thread-IsQueue = record {
  links = (refl, refl);
  ended = refl;
  positive = omega arith;
  distinct = (omega arith, refl, tt);
  apart = refl;
  contents = (refl, tt);
}

no_thread-IsQueue : IsQueue [] [] no_thread
no_thread-IsQueue = record {
  links = refl;
  ended = refl;
  positive = omega arith;
  distinct = tt;
  apart = refl;
  contents = tt;
}

one_thread-IsBalanced : IsBalanced 0 one_thread
unfolding lf_thread_queue_allocator_upper_bound lf_thread_queue_allocator_lower_bound
one_thread-IsBalanced = record { enough = omega arith; few = omega arith }

-- The thread 0x30 goes behind 0x79.
enqueue-IsFifo_example :
    (u : NodeQueue) × (lf_thread_queue_enqueue 0x30 0 (quiet ∷ quiet ∷ []) one_thread
      ≡ some (returned true, [], u))
    × IsQueue (8 ∷ 9 ∷ []) (0x79 ∷ 0x30 ∷ []) u
    × (u.nl_list 0 ≡ 4)
enqueue-IsFifo_example =
    enqueue-IsFifo 0x30 0 (8 ∷ []) (0x79 ∷ []) [] one_thread one_thread-IsQueue
      one_thread-IsBalanced (omega arith) (omega arith) refl

dequeue-IsFifo_example :
    ((u : NodeQueue) × (lf_thread_queue_dequeue 0 (quiet ∷ []) one_thread
        ≡ some (returned 0x79, [], u))
      × IsQueue [] [] u)
    × ((v : NodeQueue) × (lf_thread_queue_dequeue 0 (quiet ∷ []) no_thread
          ≡ some (returned null, [], v))
        × IsQueue [] [] v)
dequeue-IsFifo_example =
    dequeue-IsFifo 0 8 0x79 [] [] [] one_thread no_thread one_thread-IsQueue (omega arith)
      no_thread-IsQueue

abbrev sizes : Sizes
sizes = record {
  size_of_node = 8;
  size_of_queue = 16;
  size_of_hazard_ptrs = 16;
  size_of_atomic_ptr = 4;
  size_of_allocator = 12;
  size_of_node_list = 8;
}

-- Two executors and a queue of one thread: 14 nodes, the last one being the sentinel, of which 6 are
-- for each executor.
init_shares_sentinel_example :
    let (out, t) = lf_thread_queue_init sizes 0x1000 1 2 many_nodes in
    (out ≡ returned (0x1000 + lf_thread_queue_request sizes 1 2))
    × (t.qna_shared_list ≡ t.lf_head)
    × (t.lf_head ≡ t.lf_tail)
    × ((t.node t.lf_head).lfn_next ≡ null)
init_shares_sentinel_example =
    init_shares_sentinel sizes 0x1000 1 2 many_nodes (omega arith) (omega arith) (omega arith)
      (omega arith)

-- The executor has the list of 7 alone, and the nodes 2 to 6 are on no list.
balance_shares_example :
    (lf_thread_queue_node_alloc_balance 0 (quiet ∷ quiet ∷ []) many_nodes
      ≡ some (
        returned tt,
        [],
        set_nl_list 0 7 (record (set_lfn_next 1 7 many_nodes) { qna_shared_list = 1 }),
      ))
    × (lf_thread_queue_node_alloc_balance 0 (quiet ∷ []) few_nodes ≡ some (crashed, [], few_nodes))
unfolding lf_thread_queue_allocator_upper_bound lf_thread_queue_allocator_lower_bound
balance_shares_example =
    balance_shares 0 [] many_nodes few_nodes (omega arith) (omega arith) (omega arith) (omega arith)
      refl
