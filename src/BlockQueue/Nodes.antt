-- ===== src/BlockQueue/Nodes.antt =====
-- The state of src/mm/malloc/lf_block_queue.c, and its list of unused nodes.
use masters_thesis.Base.{
  ℕ, zero, suc, ◌+◌, ◌-◌, ◌*◌, ◌/◌, Bool, true, false, Option, none, some, List, ◌∷◌, ◌==◌,
  if◌then◌else◌,
}
use masters_thesis.Base.Interleave.{Window, Prog, retry}
use masters_thesis.Malloc.State.{Region, null, first_slice, later_slices}

pub record Node : Type 0 where
  pub lfn_next : ℕ
  pub lfn_data : ℕ

-- bhp_ptrs has the places 0 and 1.
pub record HazardPtrs : Type 0 where
  pub bhp_rcount : ℕ
  pub bhp_rlist : ℕ
  pub bhp_ptrs : ℕ → ℕ

-- One queue, with the hazard pointers of each executor, and the variables that all queues share.
-- `slices` is what the coming calls of slice_alloc return, NULL once it is empty, and `freed` what
-- slice_free was given.
pub record Blocks : Type 0 where
  pub node : ℕ → Node
  pub lf_head : ℕ
  pub lf_tail : ℕ
  pub lf_hptrs : ℕ → HazardPtrs
  pub lf_block_queue_nodes : ℕ
  pub lf_block_queue_hptrs : ℕ
  pub lf_block_queue_hptr_threshold : ℕ
  pub slices : List Region
  pub freed : List ℕ

abbrev pub set_node : ℕ → (Node → Node) → Blocks → Blocks
set_node n f s = record s { node = λ m. if m == n then f (s.node m) else s.node m }

abbrev pub set_next : (node next : ℕ) → Blocks → Blocks
set_next n next = set_node n (λ m. record m { lfn_next = next })

abbrev pub set_hptrs : (exec : ℕ) → (HazardPtrs → HazardPtrs) → Blocks → Blocks
set_hptrs exec f s = record s {
  lf_hptrs = λ e. if e == exec then f (s.lf_hptrs e) else s.lf_hptrs e;
}

-- `fifo->lf_hptrs[exec].bhp_ptrs[place].value = ptr`
abbrev pub set_hazard : (exec place ptr : ℕ) → Blocks → Blocks
set_hazard exec place ptr =
    set_hptrs exec (λ h. record h { bhp_ptrs = λ j. if j == place then ptr else h.bhp_ptrs j })

abbrev pub cas_nodes : (expect value : ℕ) → Blocks → Bool × Blocks
cas_nodes expect value s =
    if s.lf_block_queue_nodes == expect
    then (true, record s { lf_block_queue_nodes = value })
    else (false, s)

abbrev pub cas_next : (node expect value : ℕ) → Blocks → Bool × Blocks
cas_next n expect value s =
    if (s.node n).lfn_next == expect then (true, set_next n value s) else (false, s)

abbrev pub cas_head : (expect value : ℕ) → Blocks → Bool × Blocks
cas_head expect value s =
    if s.lf_head == expect then (true, record s { lf_head = value }) else (false, s)

abbrev pub cas_tail : (expect value : ℕ) → Blocks → Bool × Blocks
cas_tail expect value s =
    if s.lf_tail == expect then (true, record s { lf_tail = value }) else (false, s)

-- `for(i = 1; i < limit; i++) ptr[i].lfn_next.value = ptr + (i + 1);`, from i on for some rounds.
unfoldable pub link_nodes : (rounds i size_of ptr : ℕ) → Blocks → Blocks
link_nodes zero i size_of ptr s = s
link_nodes (suc n) i size_of ptr s =
    link_nodes n (i + 1) size_of ptr (set_next (ptr + i * size_of) (ptr + (i + 1) * size_of) s)

-- A new slice becomes the list of unused nodes, but for its first node, which is returned.
unfoldable pub nodes_from_slice :
    (size_of : ℕ) → Region → Window Blocks → Blocks → Option ℕ × Blocks
unfolding link_nodes
nodes_from_slice size_of r w s =
    let ptr = r.s_ptr in
    let limit = r.s_size / size_of in
    let linked = link_nodes (limit - 1) 1 size_of ptr s in
    let ended = set_next (ptr + (limit - 1) * size_of) null linked in
    let (swapped, s') = cas_nodes null (ptr + size_of) (w.between ended) in
    if swapped then (some ptr, s') else (none, record s' { freed = r.slice ∷ s'.freed })

-- `none` where o_valid is false. `size_of` is `sizeof(lf_block_queue_node_t)`.
unfoldable pub lf_block_queue_try_alloc_node :
    (size_of : ℕ) → Window Blocks → Blocks → Option ℕ × Blocks
unfolding nodes_from_slice
lf_block_queue_try_alloc_node size_of w s0 =
    let s = w.before s0 in
    let node = s.lf_block_queue_nodes in
    if node == null
    then (let s' = record s { slices = later_slices s.slices } in
        elim (first_slice s.slices) [
          | none ↦ (some null, s')
          | some r ↦ nodes_from_slice size_of r w s'
        ])
    else (let next = (s.node node).lfn_next in
        let (swapped, s') = cas_nodes node next (w.between s) in
        (if swapped then some node else none, s'))

unfoldable pub lf_block_queue_alloc_node : (size_of : ℕ) → Prog Blocks ℕ
lf_block_queue_alloc_node size_of = retry (lf_block_queue_try_alloc_node size_of)
