-- ===== src/BlockQueue/Retired/Hazards.antt =====
-- lf_block_queue_scan: the table and the list together.
use mathlib.Core.Path.{fun_ext}
use masters_thesis.Base.{
  ℕ, zero, suc, ◌+◌, ◌≡◌, ◌≢◌, refl, sym, ap, ◌∙◌, Bool, some, List, [], ◌∷◌, ◌++◌, length,
}
use masters_thesis.Base.Exit.{returned, crashed}
use masters_thesis.Base.Interleave.{Window, quiet}
use masters_thesis.Malloc.State.{null}
use masters_thesis.BlockQueue.Nodes.{Blocks}
use masters_thesis.BlockQueue.Links.{Links}
use masters_thesis.BlockQueue.Retired.{
  Ptab, ptab_size, build_rounds, lf_block_queue_scan_build_ptab, lf_block_queue_scan_free_rlist,
  lf_block_queue_scan,
}
use masters_thesis.BlockQueue.Retired.Table.{has, hazards, lookup-build}
use masters_thesis.BlockQueue.Retired.Scan.{kept_nodes, free_nodes}
use masters_thesis.BlockQueue.Retired.Free.{IsRetired, in_table, scan_all_kept, scan_frees}

-- A hazard pointer of an executor names the node.
abbrev pub is_hazard : Blocks → ℕ → Bool
is_hazard s n = has n (hazards s.lf_block_queue_hptrs 0 s)

build_leaves :
    (n i size : ℕ) (ptab : Ptab) (s : Blocks) → (build_rounds n i size quiet ptab s).1 ≡ s
unfolding build_rounds
build_leaves zero i size ptab s = refl
build_leaves (suc n) i size ptab s = build_leaves n (i + 1) size _ s

scan_run :
    (exec : ℕ) (ws : List (Window Blocks)) (s : Blocks)
    → lf_block_queue_scan exec (quiet ∷ ws) s
      ≡ lf_block_queue_scan_free_rlist exec (lf_block_queue_scan_build_ptab quiet s).0 ws s
unfolding lf_block_queue_scan lf_block_queue_scan_build_ptab
scan_run exec ws s =
    ap
      (λ (t : Blocks).
        lf_block_queue_scan_free_rlist exec
          (build_rounds s.lf_block_queue_hptrs 0 (ptab_size s) quiet (λ _. []) s).0 ws t)
      (build_leaves s.lf_block_queue_hptrs 0 (ptab_size s) (λ _. []) s)

table_lem : (s : Blocks) → in_table (lf_block_queue_scan_build_ptab quiet s).0 s ≡ is_hazard s
table_lem s = fun_ext (λ n. lookup-build n s)

-- Where no other executor interferes, and an executor's list of retired nodes has no repetitions,
-- is as long as it counts and has no unused node: a scan frees exactly the retired nodes that no
-- hazard pointer of an executor names, in front of the unused nodes, and keeps and counts the
-- others. Where a hazard pointer names each retired node, it writes through a NULL pointer.
pub scan_lem :
    (exec : ℕ) (todo avail : List ℕ) (ws : List (Window Blocks)) (s r : Blocks)
    → IsRetired exec todo avail s
    → free_nodes (is_hazard s) todo ≢ []
    → IsRetired exec todo avail r
    → free_nodes (is_hazard r) todo ≡ []
    → ((u : Blocks) × (lf_block_queue_scan exec (quiet ∷ quiet ∷ ws) s ≡ some (returned tt, ws, u))
        × Links u.node u.lf_block_queue_nodes (free_nodes (is_hazard s) todo ++ avail) null
        × Links u.node (u.lf_hptrs exec).bhp_rlist (kept_nodes (is_hazard s) todo []) null
        × ((u.lf_hptrs exec).bhp_rcount ≡ length (kept_nodes (is_hazard s) todo [])))
      × ((v : Blocks) × (lf_block_queue_scan exec (quiet ∷ quiet ∷ ws) r
            ≡ some (crashed, quiet ∷ ws, v)))
scan_lem exec todo avail ws s r hs some_free hr none_free =
    let ptab = (lf_block_queue_scan_build_ptab quiet s).0 in
    let ptab' = (lf_block_queue_scan_build_ptab quiet r).0 in
    let (u, run, unused, rlist, count) =
      scan_frees exec ptab todo avail ws s hs (rw (table_lem s) some_free) in
    let (v, run') = scan_all_kept exec ptab' todo avail ws r hr (rw (table_lem r) none_free) in
    (
      (
        u,
        scan_run exec (quiet ∷ ws) s ∙ run,
        rw (sym (table_lem s)) unused,
        rw (sym (table_lem s)) rlist,
        rw (sym (table_lem s)) count,
      ),
      (v, scan_run exec (quiet ∷ ws) r ∙ run'),
    )
