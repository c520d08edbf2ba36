-- ===== src/ThreadQueue/Nodes.antt =====
-- src/cc/lf_thread_queue.c: the private and the shared lists of unused nodes.
pub mod Balance
use masters_thesis.Base.{
  ℕ, ◌+◌, ◌/◌, ◌^◌, Bool, true, false, Option, none, some, List, [], ◌∷◌, ◌==◌, ltb, if◌then◌else◌,
}
use masters_thesis.Base.Word.{add32, sub32}
use masters_thesis.Base.Exit.{Exit, returned, crashed}
use masters_thesis.BlockQueue.Nodes.{Node}
use masters_thesis.Base.Interleave.{Window, Prog, pure, once, retry, modify, gets, ◌>>=◌, ◌>>◌}

-- thp_ptrs has the places 0 and 1.
pub record ThreadHazards : Type 0 where
  pub thp_rcount : ℕ
  pub thp_rlist : ℕ
  pub thp_ptrs : ℕ → ℕ

-- One queue with its allocator, whose lists of nodes are indexed by executors, and its nodes,
-- which have the fields of the nodes of the queue of blocks. Nodes stand at addresses, 0 being
-- NULL.
pub record NodeQueue : Type 0 where
  pub node : ℕ → Node
  pub qna_shared_list : ℕ
  pub qna_count : ℕ
  pub nl_list : ℕ → ℕ
  pub nl_count : ℕ → ℕ
  pub lf_head : ℕ
  pub lf_tail : ℕ
  pub lf_hptrs : ℕ → ThreadHazards
  pub lf_thread_queue_hptrs : ℕ
  pub lf_thread_queue_hptr_threshold : ℕ
  pub executor_count : ℕ

abbrev pub null : ℕ
null = 0

abbrev pub set_node : ℕ → (Node → Node) → NodeQueue → NodeQueue
set_node n f s = record s { node = λ m. if m == n then f (s.node m) else s.node m }

abbrev pub set_lfn_next : (node next : ℕ) → NodeQueue → NodeQueue
set_lfn_next n next = set_node n (λ m. record m { lfn_next = next })

abbrev pub set_nl_list : (exec node : ℕ) → NodeQueue → NodeQueue
set_nl_list exec n s = record s { nl_list = λ e. if e == exec then n else s.nl_list e }

abbrev pub set_nl_count : (exec count : ℕ) → NodeQueue → NodeQueue
set_nl_count exec c s = record s { nl_count = λ e. if e == exec then c else s.nl_count e }

abbrev pub set_thread_hazards : (exec : ℕ) → (ThreadHazards → ThreadHazards) → NodeQueue → NodeQueue
set_thread_hazards exec f s = record s {
  lf_hptrs = λ e. if e == exec then f (s.lf_hptrs e) else s.lf_hptrs e;
}

-- `fifo->lf_hptrs[exec].thp_ptrs[place].value = ptr`
abbrev pub set_hazard : (exec place ptr : ℕ) → NodeQueue → NodeQueue
set_hazard exec place ptr =
    set_thread_hazards exec
      (λ h. record h { thp_ptrs = λ j. if j == place then ptr else h.thp_ptrs j })

abbrev pub cas_next : (node expect value : ℕ) → NodeQueue → Bool × NodeQueue
cas_next n expect value s =
    if (s.node n).lfn_next == expect then (true, set_lfn_next n value s) else (false, s)

abbrev pub cas_head : (expect value : ℕ) → NodeQueue → Bool × NodeQueue
cas_head expect value s =
    if s.lf_head == expect then (true, record s { lf_head = value }) else (false, s)

abbrev pub cas_tail : (expect value : ℕ) → NodeQueue → Bool × NodeQueue
cas_tail expect value s =
    if s.lf_tail == expect then (true, record s { lf_tail = value }) else (false, s)

abbrev pub cas_shared_list : (expect value : ℕ) → NodeQueue → Bool × NodeQueue
cas_shared_list expect value s =
    if s.qna_shared_list == expect then (true, record s { qna_shared_list = value }) else (false, s)

unfoldable pub lf_thread_queue_allocator_upper_bound : NodeQueue → ℕ
lf_thread_queue_allocator_upper_bound s =
    let num_threads = s.qna_count in
    let frac = num_threads / 2 ^ 2 in
    let bound = add32 num_threads frac / s.executor_count in if bound == 0 then 1 else bound

unfoldable pub lf_thread_queue_allocator_lower_bound : NodeQueue → ℕ
lf_thread_queue_allocator_lower_bound s =
    let num_threads = s.qna_count in
    let frac = num_threads / 2 ^ 2 in
    let numerator = if ltb frac num_threads then sub32 num_threads frac else 0 in
    let bound = numerator / s.executor_count in if bound == 0 then 1 else bound

unfoldable pub lf_thread_queue_node_alloc_try_push :
    (node : ℕ) → Window NodeQueue → NodeQueue → Option (Unit {0}) × NodeQueue
lf_thread_queue_node_alloc_try_push node w s0 =
    let s = w.before s0 in
    let head = s.qna_shared_list in
    let (out, s') = cas_shared_list head node (w.between (set_lfn_next node head s)) in
    (if out then some tt else none, s')

unfoldable pub lf_thread_queue_node_alloc_push : (node : ℕ) → Prog NodeQueue (Unit {0})
lf_thread_queue_node_alloc_push node = retry (lf_thread_queue_node_alloc_try_push node)

-- A round of the loop of lf_thread_queue_node_alloc_pull.
unfoldable pub pull_round : Window NodeQueue → NodeQueue → Option ℕ × NodeQueue
pull_round w s0 =
    let s = w.before s0 in
    let out = s.qna_shared_list in
    let (done, s') = cas_shared_list out (s.node out).lfn_next (w.between s) in
    if out == null then (some null, s) else (if done then some out else none, s')

unfoldable pub lf_thread_queue_node_alloc_pull : Prog NodeQueue ℕ
lf_thread_queue_node_alloc_pull = retry pull_round

-- The first node of the executor's list goes to the shared list; what it then names is the
-- executor's list.
unfoldable pub balance_push : (exec : ℕ) → Prog NodeQueue (Exit (Unit {0}))
balance_push exec = do
  node ← gets (λ s. s.nl_list exec)
  if node == null then pure crashed else (do
    lf_thread_queue_node_alloc_push node
    once (λ w s. (tt, set_nl_list exec ((w.before s).node node).lfn_next (w.before s)))
    pure (returned tt))

unfoldable pub balance_pull : (exec : ℕ) → Prog NodeQueue (Exit (Unit {0}))
balance_pull exec = do
  node ← lf_thread_queue_node_alloc_pull
  if node == null then pure crashed else (do
    modify (λ s. set_nl_list exec node (set_lfn_next node (s.nl_list exec) s))
    pure (returned tt))

unfoldable pub lf_thread_queue_node_alloc_balance : (exec : ℕ) → Prog NodeQueue (Exit (Unit {0}))
lf_thread_queue_node_alloc_balance exec ws s =
    if ltb (lf_thread_queue_allocator_upper_bound s) (s.nl_count exec)
    then balance_push exec ws s
    else if ltb (s.nl_count exec) (lf_thread_queue_allocator_lower_bound s)
    then balance_pull exec ws s
    else some (returned tt, ws, s)

-- The first node of the executor's list, NULL where there is none.
abbrev pub take_node : (exec : ℕ) → NodeQueue → NodeQueue
take_node exec s =
    let out = s.nl_list exec in
    if out == null
    then s
    else set_nl_count exec (sub32 (s.nl_count exec) 1) (set_nl_list exec (s.node out).lfn_next s)

unfoldable pub lf_thread_queue_node_alloc : (exec : ℕ) → Prog NodeQueue (Exit ℕ)
lf_thread_queue_node_alloc exec = do
  balanced ← lf_thread_queue_node_alloc_balance exec
  elim balanced [
    | crashed ↦ pure crashed
    | returned _ ↦ (do
      out ← gets (λ s. s.nl_list exec)
      modify (take_node exec)
      pure (returned out))
  ]

abbrev pub put_node : (node exec : ℕ) → NodeQueue → NodeQueue
put_node node exec s =
    set_nl_count exec (add32 (s.nl_count exec) 1)
      (set_nl_list exec node (set_lfn_next node (s.nl_list exec) s))

unfoldable pub lf_thread_queue_node_free : (node exec : ℕ) → Prog NodeQueue (Exit (Unit {0}))
lf_thread_queue_node_free node exec = do
  is_private ← gets (λ s. ltb (lf_thread_queue_allocator_lower_bound s) (s.nl_count exec))
  if is_private then modify (put_node node exec) else lf_thread_queue_node_alloc_push node
  lf_thread_queue_node_alloc_balance exec
