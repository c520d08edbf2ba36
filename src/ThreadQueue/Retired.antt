-- ===== src/ThreadQueue/Retired.antt =====
-- src/cc/lf_thread_queue.c: the table of the hazard pointers, and the nodes that are freed because
-- they are in none.
use masters_thesis.Base.{
  ℕ, zero, suc, ◌+◌, ◌-◌, ◌*◌, Bool, true, false, none, some, [], ltb, if◌then◌else◌,
}
use masters_thesis.Base.Word.{add32}
use masters_thesis.Base.Exit.{Exit, returned, crashed}
use masters_thesis.Base.Interleave.{Window, Prog, pure, once, ◌>>=◌}
use masters_thesis.BlockQueue.Retired.{Ptab, lf_block_queue_ptab_lookup, lf_block_queue_ptab_insert}
use masters_thesis.ThreadQueue.Nodes.{
  NodeQueue, null, set_lfn_next, set_thread_hazards, lf_thread_queue_node_free,
}

-- These two functions are those of the queue of blocks.
unfoldable pub lf_thread_queue_ptab_lookup : Ptab → (node size : ℕ) → Bool
unfolding lf_block_queue_ptab_lookup
lf_thread_queue_ptab_lookup = lf_block_queue_ptab_lookup

unfoldable pub lf_thread_queue_ptab_insert : (addr size : ℕ) → Ptab → Ptab
unfolding lf_block_queue_ptab_insert
lf_thread_queue_ptab_insert = lf_block_queue_ptab_insert

-- `(lf_thread_queue_hptrs * 4) - 1`
abbrev pub ptab_size : NodeQueue → ℕ
ptab_size s = s.lf_thread_queue_hptrs * 4 - 1

-- The loops over the executors from i on and their two hazard pointers. The others may act before
-- each of them is read.
unfoldable pub build_rounds :
    (rounds i size : ℕ) → Window NodeQueue → Ptab → NodeQueue → Ptab × NodeQueue
build_rounds zero i size w ptab s = (ptab, s)
build_rounds (suc n) i size w ptab s =
    let s1 = w.later (2 * i) s in
    let ptab1 = lf_thread_queue_ptab_insert ((s1.lf_hptrs i).thp_ptrs 0) size ptab in
    let s2 = w.later (2 * i + 1) s1 in
    let ptab2 = lf_thread_queue_ptab_insert ((s2.lf_hptrs i).thp_ptrs 1) size ptab1 in
    build_rounds n (i + 1) size w ptab2 s2

unfoldable pub lf_thread_queue_scan_build_ptab : Window NodeQueue → NodeQueue → Ptab × NodeQueue
lf_thread_queue_scan_build_ptab w s =
    build_rounds s.lf_thread_queue_hptrs 0 (ptab_size s) w (λ _. []) s

-- A node that a hazard pointer names goes back to the retired nodes.
abbrev pub kept : (exec curr : ℕ) → NodeQueue → NodeQueue
kept exec curr s =
    set_thread_hazards exec (λ h. record h { thp_rlist = curr; thp_rcount = add32 h.thp_rcount 1 })
      (set_lfn_next curr (s.lf_hptrs exec).thp_rlist s)

-- A loop goes on unless the program stopped.
abbrev pub after_free :
    Exit (Unit {0}) → Prog NodeQueue (Exit (Unit {0})) → Prog NodeQueue (Exit (Unit {0}))
after_free crashed rest = pure crashed
after_free (returned _) rest = rest

-- The loop of lf_thread_queue_scan_free_rlist from `curr` on; `none` where the fuel ends first.
unfoldable pub free_rounds :
    (fuel : ℕ) (hazard : ℕ → Bool) (exec curr : ℕ) → Prog NodeQueue (Exit (Unit {0}))
free_rounds fuel hazard exec zero ws s = some (returned tt, ws, s)
free_rounds zero hazard exec (suc c) ws s = none
free_rounds (suc fuel) hazard exec (suc c) ws s =
    let curr = suc c in
    let next = (s.node curr).lfn_next in
    elim (hazard curr) [
      | true ↦ free_rounds fuel hazard exec next ws (kept exec curr s)
      | false ↦
          (lf_thread_queue_node_free curr exec >>= λ out.
          after_free out (free_rounds fuel hazard exec next))
            ws s
    ]

-- The fuel of the loop is the number of retired nodes.
unfoldable pub lf_thread_queue_scan_free_rlist :
    (exec : ℕ) → Ptab → Prog NodeQueue (Exit (Unit {0}))
lf_thread_queue_scan_free_rlist exec ptab ws s =
    let h = s.lf_hptrs exec in
    let size = ptab_size s in
    free_rounds h.thp_rcount (λ n. lf_thread_queue_ptab_lookup ptab n size) exec h.thp_rlist ws
      (set_thread_hazards exec (λ g. record g { thp_rlist = null; thp_rcount = 0 }) s)

unfoldable pub lf_thread_queue_scan : (exec : ℕ) → Prog NodeQueue (Exit (Unit {0}))
lf_thread_queue_scan exec = do
  ptab ← once (λ w s. lf_thread_queue_scan_build_ptab w (w.before s))
  lf_thread_queue_scan_free_rlist exec ptab

unfoldable pub lf_thread_queue_node_retire : (node exec : ℕ) → Prog NodeQueue (Exit (Unit {0}))
lf_thread_queue_node_retire node exec ws s =
    let s' = kept exec node s in
    if ltb (s.lf_hptrs exec).thp_rcount s.lf_thread_queue_hptr_threshold
    then some (returned tt, ws, s')
    else lf_thread_queue_scan exec ws s'
