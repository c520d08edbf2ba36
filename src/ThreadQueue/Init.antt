-- ===== src/ThreadQueue/Init.antt =====
-- src/cc/lf_thread_queue.c: the memory of a queue, and its nodes at the start.
pub mod Sentinel
use masters_thesis.Base.{
  ℕ, zero, suc, ◌+◌, ◌-◌, ◌*◌, ◌/◌, ◌%◌, ◌^◌, Bool, true, false, List, [], ◌∷◌, ◌==◌, bit_and,
  if◌then◌else◌,
}
use masters_thesis.Base.Word.{add32, sub32}
use masters_thesis.Base.Exit.{Exit, returned, crashed}
use masters_thesis.Malloc.Layout.{aligned}
use masters_thesis.ThreadQueue.Nodes.{
  NodeQueue, ThreadHazards, null, set_node, set_lfn_next, set_nl_list, set_nl_count,
}

-- The sizes of lf_thread_queue_node_t, lf_thread_queue_t, lf_thread_queue_hazard_ptrs_t,
-- atomic_ptr_t, lf_thread_queue_node_allocator_t and lf_thread_queue_node_list_t.
pub record Sizes : Type 0 where
  pub size_of_node : ℕ
  pub size_of_queue : ℕ
  pub size_of_hazard_ptrs : ℕ
  pub size_of_atomic_ptr : ℕ
  pub size_of_allocator : ℕ
  pub size_of_node_list : ℕ

abbrev pub mul32 : ℕ → ℕ → ℕ
mul32 a b = a * b % 2 ^ 32

abbrev pub extra_nodes : (execs : ℕ) → ℕ
extra_nodes execs = add32 (add32 (mul32 (mul32 execs execs) 2) (mul32 execs 2)) 1

-- The size of the nodes, of the queue with its hazard pointers, and of the allocator.
abbrev pub nodes_size : Sizes → (num execs : ℕ) → ℕ
nodes_size z num execs = mul32 z.size_of_node (add32 (extra_nodes execs) num)

abbrev pub queue_size : Sizes → (execs : ℕ) → ℕ
queue_size z execs =
    add32 z.size_of_queue (mul32 (add32 z.size_of_hazard_ptrs (mul32 2 z.size_of_atomic_ptr)) execs)

abbrev pub allocator_size : Sizes → (execs : ℕ) → ℕ
allocator_size z execs = add32 z.size_of_allocator (mul32 execs z.size_of_node_list)

unfoldable pub lf_thread_queue_request : Sizes → (num execs : ℕ) → ℕ
lf_thread_queue_request z num execs =
    add32 (add32 (aligned (queue_size z execs)) (aligned (nodes_size z num execs)))
      (allocator_size z execs)

-- The address of a node, by its index.
abbrev pub node_at : (nodes size index : ℕ) → ℕ
node_at nodes size index = nodes + index * size

-- `for(k; ...; k++) nodes[k].lfn_next.value = nodes + (k - 1)`, for `rounds` values of k.
unfoldable pub link_back : (nodes size rounds k : ℕ) → NodeQueue → NodeQueue
link_back nodes size zero k s = s
link_back nodes size (suc n) k s =
    link_back nodes size n (k + 1)
      (set_lfn_next (node_at nodes size k) (node_at nodes size (k - 1)) s)

-- The loop over the executors from i on.
unfoldable pub init_lists : (nodes size executor_nodes rounds i : ℕ) → NodeQueue → NodeQueue
unfolding link_back
init_lists nodes size executor_nodes zero i s = s
init_lists nodes size executor_nodes (suc n) i s =
    let first = i * executor_nodes in
    let s1 = set_lfn_next (node_at nodes size first) null s in
    let s2 = set_nl_count i executor_nodes s1 in
    let s3 = set_nl_list i (node_at nodes size (first + (executor_nodes - 1))) s2 in
    init_lists nodes size executor_nodes n (i + 1)
      (link_back nodes size (executor_nodes - 1) (first + 1) s3)

-- The nodes that the executors do not have. `last` is the number of nodes without the sentinel.
unfoldable pub init_shared : (nodes size executor_nodes execs last : ℕ) → NodeQueue → NodeQueue
unfolding link_back
init_shared nodes size executor_nodes execs last s =
    let shared_nodes = sub32 last (executor_nodes * execs) in
    if shared_nodes == 0
    then record s { qna_shared_list = null }
    else link_back nodes size (last - (executor_nodes * execs + 1)) (executor_nodes * execs + 1) (
        set_lfn_next (node_at nodes size (executor_nodes * execs)) null
          (record s { qna_shared_list = node_at nodes size last }))

-- The queue without threads, and without hazards.
abbrev pub start_empty : (sentinel count execs : ℕ) → NodeQueue → NodeQueue
start_empty sentinel count execs s =
    record (set_node sentinel (λ _. record { lfn_next = null; lfn_data = null }) s) {
      qna_count = count;
      lf_thread_queue_hptrs = execs;
      lf_thread_queue_hptr_threshold = execs * 2;
      lf_head = sentinel;
      lf_tail = sentinel;
      lf_hptrs = λ _. record { thp_rcount = 0; thp_rlist = null; thp_ptrs = λ _. null };
    }

-- The address of the nodes.
abbrev pub nodes_address : Sizes → (mem execs : ℕ) → ℕ
nodes_address z mem execs = mem + aligned (queue_size z execs) + allocator_size z execs

-- The nodes that are not the sentinel are split among the executors by a division, which fails where
-- there are none.
unfoldable pub lf_thread_queue_init : Sizes → (mem num execs : ℕ) → NodeQueue → Exit ℕ × NodeQueue
lf_thread_queue_init z mem num execs s =
    let count = add32 num (extra_nodes execs) in
    let last = sub32 count 1 in
    let executor_nodes = last / execs in
    let nodes = nodes_address z mem execs in
    let s1 = init_lists nodes z.size_of_node executor_nodes execs 0 s in
    let s2 = init_shared nodes z.size_of_node executor_nodes execs last s1 in
    if execs == 0 then (crashed, s) else (
      returned (nodes + aligned (nodes_size z num execs)),
      start_empty (node_at nodes z.size_of_node last) count execs s2,
    )
