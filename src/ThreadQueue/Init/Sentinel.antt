-- ===== src/ThreadQueue/Init/Sentinel.antt =====
-- src/cc/lf_thread_queue.c: what lf_thread_queue_init makes.
use masters_thesis.Base.{
  ℕ, zero, suc, ◌+◌, ◌-◌, ◌*◌, ◌/◌, ◌^◌, ◌<◌, ◌≡◌, ◌≢◌, refl, ap, ne→==, eq→==, ◌==◌, if◌then◌else◌,
  Bool-cases, inl, inr, arith,
}
use masters_thesis.Base.Word.{add32, sub32}
use masters_thesis.Base.Exit.{returned}
use masters_thesis.Malloc.Layout.{aligned_lem}
use masters_thesis.ThreadQueue.Nodes.{NodeQueue, null, set_lfn_next}
use masters_thesis.ThreadQueue.Init.{
  Sizes, extra_nodes, nodes_size, queue_size, allocator_size, lf_thread_queue_request, node_at,
  nodes_address, link_back, init_lists, init_shared, lf_thread_queue_init,
}

-- The number of nodes without the sentinel.
abbrev pub last_index : (num execs : ℕ) → ℕ
last_index num execs = sub32 (add32 num (extra_nodes execs)) 1

link_back_shared :
    (nodes size rounds k : ℕ) (s : NodeQueue)
    → (link_back nodes size rounds k s).qna_shared_list ≡ s.qna_shared_list
unfolding link_back
link_back_shared nodes size zero k s = refl
link_back_shared nodes size (suc n) k s = link_back_shared nodes size n (k + 1) _

init_shared_list :
    (nodes size executor_nodes execs last : ℕ) (s : NodeQueue)
    → (init_shared nodes size executor_nodes execs last s).qna_shared_list
      ≡ (if sub32 last (executor_nodes * execs) == 0 then null else node_at nodes size last)
unfolding init_shared
init_shared_list nodes size executor_nodes execs last s =
    elim (Bool-cases (sub32 last (executor_nodes * execs) == 0)) [
      | inl even ↦ rw even refl
      | inr uneven ↦ rw uneven (
          link_back_shared nodes size (last - (executor_nodes * execs + 1))
            (executor_nodes * execs + 1)
            (set_lfn_next (node_at nodes size (executor_nodes * execs)) null
              (record s { qna_shared_list = node_at nodes size last })))
    ]

-- For at least one executor, and memory below 4 GiB with its padding, of which the nodes and the
-- queue have some: lf_thread_queue_init makes an empty queue of one node, the sentinel, and returns
-- the end of the memory that lf_thread_queue_request counts. Where the nodes but the sentinel can be
-- split evenly among the executors, none is shared; where they cannot, the sentinel is the first of
-- the shared unused nodes as well, and the last one, so that the others that were to be shared are
-- on no list.
pub init_shares_sentinel :
    (z : Sizes) (mem num execs : ℕ) (s : NodeQueue)
    → execs ≢ 0
    → 0 < nodes_size z num execs
    → 0 < queue_size z execs
    → queue_size z execs + nodes_size z num execs + allocator_size z execs + 62 < 2 ^ 32
    → let (out, t) = lf_thread_queue_init z mem num execs s in
      (out ≡ returned (mem + lf_thread_queue_request z num execs))
      × (t.qna_shared_list ≡ (
          if sub32 (last_index num execs) (last_index num execs / execs * execs) == 0
          then null
          else t.lf_head))
      × (t.lf_head ≡ t.lf_tail)
      × ((t.node t.lf_head).lfn_next ≡ null)
unfolding lf_thread_queue_init lf_thread_queue_request
init_shares_sentinel z mem num execs s some_execs some_nodes some_queue fits =
    rw (ne→== execs 0 some_execs) (
      ap returned (
          omega (
            arith,
            aligned_lem (queue_size z execs),
            aligned_lem (nodes_size z num execs),
            fits,
            some_nodes,
            some_queue,
          )),
      init_shared_list (nodes_address z mem execs) z.size_of_node (last_index num execs / execs)
          execs (last_index num execs)
          (init_lists (nodes_address z mem execs) z.size_of_node (last_index num execs / execs)
            execs 0 s),
      refl,
      rw
          (eq→== (node_at (nodes_address z mem execs) z.size_of_node (last_index num execs))
            (node_at (nodes_address z mem execs) z.size_of_node (last_index num execs)) refl)
          refl,
    )
