-- ===== src/ThreadQueue/Nodes/Balance.antt =====
-- src/cc/lf_thread_queue.c: what lf_thread_queue_node_alloc_balance does to the lists.
use masters_thesis.Base.{ℕ, ◌≤◌, ◌<◌, ◌≡◌, ◌≢◌, some, List, ◌∷◌, arith}
use masters_thesis.Base.Exit.{returned, crashed}
use masters_thesis.Base.Interleave.{Window, quiet, retry}
use masters_thesis.ThreadQueue.Nodes.{
  NodeQueue, null, set_lfn_next, set_nl_list, lf_thread_queue_allocator_upper_bound,
  lf_thread_queue_allocator_lower_bound, lf_thread_queue_node_alloc_try_push,
  lf_thread_queue_node_alloc_push, pull_round, lf_thread_queue_node_alloc_pull, balance_push,
  balance_pull, lf_thread_queue_node_alloc_balance,
}

-- Where no other executor interferes: for an executor with more nodes than the upper bound, the
-- balance puts its first node in front of the shared ones and then makes those shared nodes the
-- executor's list as well, so that the rest of its own nodes is lost; for one with fewer nodes
-- than the lower bound and no shared node, it writes through a NULL pointer. Neither changes the
-- counts.
pub balance_shares :
    (exec : ℕ) (ws : List (Window NodeQueue)) (s r : NodeQueue)
    → lf_thread_queue_allocator_upper_bound s < s.nl_count exec
    → s.nl_list exec ≢ null
    → r.nl_count exec < lf_thread_queue_allocator_lower_bound r
    → r.nl_count exec ≤ lf_thread_queue_allocator_upper_bound r
    → r.qna_shared_list ≡ null
    → (lf_thread_queue_node_alloc_balance exec (quiet ∷ quiet ∷ ws) s
        ≡ some (
          returned tt,
          ws,
          set_nl_list exec s.qna_shared_list
              (record (set_lfn_next (s.nl_list exec) s.qna_shared_list s) {
                qna_shared_list = s.nl_list exec;
              }),
        ))
      × (lf_thread_queue_node_alloc_balance exec (quiet ∷ ws) r ≡ some (crashed, ws, r))
unfolding lf_thread_queue_node_alloc_try_push lf_thread_queue_node_alloc_push pull_round
    lf_thread_queue_node_alloc_pull balance_push balance_pull lf_thread_queue_node_alloc_balance
    retry
balance_shares exec ws s r many listed few below empty =
    (ground (arith, many, listed), ground (arith, few, below, empty))
