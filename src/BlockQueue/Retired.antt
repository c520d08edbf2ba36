-- ===== src/BlockQueue/Retired.antt =====
-- Hazard pointers of src/mm/malloc/lf_block_queue.c: the table of the hazards, and the nodes that
-- are freed because they are in none.
pub mod Table
pub mod Scan
pub mod Free
pub mod Hazards
use masters_thesis.Base.{
  ℕ, zero, suc, ◌+◌, ◌-◌, ◌*◌, ◌/◌, ◌%◌, ◌^◌, Bool, true, false, ◌||◌, Option, none, some, List, [],
  ◌∷◌, ◌==◌, ltb, not, if◌then◌else◌,
}
use masters_thesis.Base.Exit.{Exit, returned, crashed}
use masters_thesis.Base.Interleave.{Window, Prog, pure, once, retry, gets, modify, ◌>>=◌, ◌>>◌}
use masters_thesis.Malloc.State.{null}
use masters_thesis.BlockQueue.Nodes.{
  Blocks, Node, HazardPtrs, set_node, set_next, set_hptrs, cas_nodes,
}

-- The table by its places: a chain of pn_addr for each, the one inserted last first.
abbrev pub Ptab : Type 0
Ptab = ℕ → List ℕ

-- `(lf_block_queue_hptrs * 4) - 1`
abbrev pub ptab_size : Blocks → ℕ
ptab_size s = s.lf_block_queue_hptrs * 4 - 1

-- `(addr >> (CACHE_LINE_SIZE / 8)) % size`
abbrev pub ptab_index : (addr size : ℕ) → ℕ
ptab_index addr size = addr / 2 ^ 4 % size

-- The loop of lf_block_queue_ptab_lookup over a chain.
unfoldable pub in_chain : (node : ℕ) → List ℕ → Bool
in_chain node [] = false
in_chain node (a ∷ rest_of) = let rest = in_chain node rest_of in if node == a then true else rest

unfoldable pub lf_block_queue_ptab_lookup : Ptab → (node size : ℕ) → Bool
unfolding in_chain
lf_block_queue_ptab_lookup ptab node size = in_chain node (ptab (ptab_index node size))

unfoldable pub lf_block_queue_ptab_insert : (addr size : ℕ) → Ptab → Ptab
lf_block_queue_ptab_insert addr size ptab i =
    if i == ptab_index addr size then addr ∷ ptab i else ptab i

-- The loops over the executors from i on and their two hazard pointers. The others may act before
-- each of them is read.
unfoldable pub build_rounds : (rounds i size : ℕ) → Window Blocks → Ptab → Blocks → Ptab × Blocks
unfolding lf_block_queue_ptab_insert
build_rounds zero i size w ptab s = (ptab, s)
build_rounds (suc n) i size w ptab s =
    let s1 = w.later (2 * i) s in
    let ptab1 = lf_block_queue_ptab_insert ((s1.lf_hptrs i).bhp_ptrs 0) size ptab in
    let s2 = w.later (2 * i + 1) s1 in
    let ptab2 = lf_block_queue_ptab_insert ((s2.lf_hptrs i).bhp_ptrs 1) size ptab1 in
    build_rounds n (i + 1) size w ptab2 s2

unfoldable pub lf_block_queue_scan_build_ptab : Window Blocks → Blocks → Ptab × Blocks
unfolding build_rounds
lf_block_queue_scan_build_ptab w s =
    build_rounds s.lf_block_queue_hptrs 0 (ptab_size s) w (λ _. []) s

unfoldable pub lf_block_queue_try_free_nodes :
    (free_head free_tail : ℕ) → Window Blocks → Blocks → Option (Unit {0}) × Blocks
lf_block_queue_try_free_nodes free_head free_tail w s0 =
    let s = w.before s0 in
    let list = s.lf_block_queue_nodes in
    let s' = set_next free_tail list s in
    let (out, s'') = cas_nodes list free_head (w.between s') in (if out then some tt else none, s'')

-- The loop of lf_block_queue_scan_free_rlist from `curr` on, with the head and the tail of the
-- list of the nodes to free. `none` where the fuel ends first.
unfoldable pub sort_retired :
    (fuel : ℕ) (hazard : ℕ → Bool) (exec curr free_head free_tail : ℕ)
    → Blocks
    → Option (ℕ × ℕ × Blocks)
sort_retired fuel hazard exec zero free_head free_tail s = some (free_head, free_tail, s)
sort_retired zero hazard exec (suc c) free_head free_tail s = none
sort_retired (suc fuel) hazard exec (suc c) free_head free_tail s =
    let curr = suc c in
    let next = (s.node curr).lfn_next in
    let kept =
      set_hptrs exec (λ h. record h { bhp_rlist = curr; bhp_rcount = h.bhp_rcount + 1 })
        (set_next curr (s.lf_hptrs exec).bhp_rlist s) in
    elim (hazard curr) [
      | true ↦ sort_retired fuel hazard exec next free_head free_tail kept
      | false ↦ elim (free_head == null) [
        | true ↦ sort_retired fuel hazard exec next curr curr s
        | false ↦ sort_retired fuel hazard exec next free_head curr (set_next free_tail curr s)
      ]
    ]

-- The fuel of the loop is the number of retired nodes. free_tail is written through, also where it
-- is NULL.
unfoldable pub lf_block_queue_scan_free_rlist : (exec : ℕ) → Ptab → Prog Blocks (Exit (Unit {0}))
unfolding sort_retired
lf_block_queue_scan_free_rlist exec ptab ws s =
    let h = s.lf_hptrs exec in
    let size = ptab_size s in
    let s' = set_hptrs exec (λ g. record g { bhp_rlist = null; bhp_rcount = 0 }) s in
    elim (sort_retired h.bhp_rcount (λ n. lf_block_queue_ptab_lookup ptab n size) exec h.bhp_rlist
      null null s') [
        | none ↦ none
        | some (free_head, free_tail, s'') ↦
            if free_tail == null
            then some (crashed, ws, s'')
            else (do retry (lf_block_queue_try_free_nodes free_head free_tail); pure (returned tt))
                ws s''
      ]

unfoldable pub lf_block_queue_scan : (exec : ℕ) → Prog Blocks (Exit (Unit {0}))
lf_block_queue_scan exec = do
  ptab ← once (λ w s. lf_block_queue_scan_build_ptab w (w.before s))
  lf_block_queue_scan_free_rlist exec ptab

-- The list and the count of the retired nodes with one more.
abbrev pub retired : (node exec : ℕ) → Blocks → Blocks
retired node exec s =
    set_hptrs exec (λ h. record h { bhp_rlist = node; bhp_rcount = h.bhp_rcount + 1 })
      (set_next node (s.lf_hptrs exec).bhp_rlist s)

unfoldable pub lf_block_queue_node_retire : (node exec : ℕ) → Prog Blocks (Exit (Unit {0}))
lf_block_queue_node_retire node exec ws s =
    let s' = retired node exec s in
    if ltb (s.lf_hptrs exec).bhp_rcount s.lf_block_queue_hptr_threshold
    then some (returned tt, ws, s')
    else lf_block_queue_scan exec ws s'
