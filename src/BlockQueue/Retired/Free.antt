-- ===== src/BlockQueue/Retired/Free.antt =====
-- lf_block_queue_scan_free_rlist on a list of retired nodes.
use masters_thesis.Base.{
  ℕ, ◌<◌, ◌≡◌, ◌≢◌, refl, sym, ◌∙◌, Bool, some, List, [], ◌∷◌, ◌++◌, length, inl, inr, eq→==, arith,
}
use masters_thesis.Base.Exit.{returned, crashed}
use masters_thesis.Base.Interleave.{Window, quiet, retry, retry_done}
use masters_thesis.Malloc.State.{null}
use masters_thesis.BlockQueue.Nodes.{Blocks, Node, set_next, set_hptrs}
use masters_thesis.BlockQueue.Links.{
  Links, AllDistinct, Apart, with_next, Links-with_next, Links-snoc,
}
use masters_thesis.BlockQueue.Retired.{
  Ptab, ptab_size, lf_block_queue_ptab_lookup, lf_block_queue_try_free_nodes,
  lf_block_queue_scan_free_rlist, sort_retired,
}
use masters_thesis.BlockQueue.Retired.Scan.{
  kept_nodes, free_nodes, SortStart, sort_start, Apart-nil,
}

-- A node is in a table.
abbrev pub in_table : Ptab → Blocks → ℕ → Bool
in_table ptab s n = lf_block_queue_ptab_lookup ptab n (ptab_size s)

-- The state in which the loop starts.
abbrev emptied : (exec : ℕ) → Blocks → Blocks
emptied exec s = set_hptrs exec (λ g. record g { bhp_rlist = null; bhp_rcount = 0 }) s

-- Two sequences of links that meet.
Links-join :
    (node : ℕ → Node) (head : ℕ) (ns ms : List ℕ) (middle end : ℕ)
    → Links node head ns middle
    → Links node middle ms end
    → Links node head (ns ++ ms) end
Links-join node head [] ms middle end l m = rw l m
Links-join node head (n ∷ ns) ms middle end l m =
    (l.0, Links-join node (node n).lfn_next ns ms middle end l.1 m)

-- The retired nodes of an executor: a list without repetitions, of as many nodes as it counts,
-- none of which is in the list of unused nodes.
pub record IsRetired (exec : ℕ) (todo avail : List ℕ) (s : Blocks) : Type 0 where
  pub rlist : Links s.node (s.lf_hptrs exec).bhp_rlist todo null
  pub rcount : (s.lf_hptrs exec).bhp_rcount ≡ length todo
  pub distinct : AllDistinct todo
  pub unused : Links s.node s.lf_block_queue_nodes avail null
  pub apart : Apart todo avail

module _ (exec : ℕ) (ptab : Ptab) (todo avail : List ℕ) (ws : List (Window Blocks))
    (s : Blocks) where
  start :
      IsRetired exec todo avail s
      → SortStart
          (in_table ptab s)
          exec
          (s.lf_hptrs exec).bhp_rcount
          (s.lf_hptrs exec).bhp_rlist
          todo
          []
          s.lf_block_queue_nodes
          avail
          (emptied exec s)
  start r =
      sort_start (in_table ptab s) exec (s.lf_hptrs exec).bhp_rcount (s.lf_hptrs exec).bhp_rlist
        todo [] s.lf_block_queue_nodes avail (emptied exec s) (omega (arith, r.rcount)) r.rlist
        (rw (eq→== exec exec refl) refl) r.distinct (Apart-nil todo) r.unused r.apart

  -- The state after the list from `head` to t went in front of the unused nodes.
  abbrev spliced : (head t : ℕ) → Blocks → Blocks
  spliced head t u = record (set_next t u.lf_block_queue_nodes u) { lf_block_queue_nodes = head }

  freed_try :
      (head t : ℕ) (u : Blocks)
      → retry (lf_block_queue_try_free_nodes head t) (quiet ∷ ws) u
        ≡ some (tt, ws, spliced head t u)
  freed_try head t u =
      retry_done (lf_block_queue_try_free_nodes head t) quiet ws u (spliced head t u) tt
        (one_try head t u)
    where
      one_try :
          (head t : ℕ) (u : Blocks)
          → lf_block_queue_try_free_nodes head t quiet u ≡ (some tt, spliced head t u)
      one_try head t u =
          unfold lf_block_queue_try_free_nodes in
          rw (eq→== u.lf_block_queue_nodes u.lf_block_queue_nodes refl) refl

  freed_run :
      (head t : ℕ) (u : Blocks)
      → sort_retired
          (s.lf_hptrs exec).bhp_rcount
          (in_table ptab s)
          exec
          (s.lf_hptrs exec).bhp_rlist
          null
          null
          (emptied exec s)
        ≡ some (head, t, u)
      → 0 < t
      → lf_block_queue_scan_free_rlist exec ptab (quiet ∷ ws) s
        ≡ some (returned tt, ws, spliced head t u)
  unfolding lf_block_queue_scan_free_rlist
  freed_run head t u run pos = ground (arith, run, freed_try head t u)

  crashed_run :
      (u : Blocks)
      → sort_retired
          (s.lf_hptrs exec).bhp_rcount
          (in_table ptab s)
          exec
          (s.lf_hptrs exec).bhp_rlist
          null
          null
          (emptied exec s)
        ≡ some (null, null, u)
      → lf_block_queue_scan_free_rlist exec ptab (quiet ∷ ws) s ≡ some (crashed, quiet ∷ ws, u)
  unfolding lf_block_queue_scan_free_rlist
  crashed_run u run = ground (arith, run)

snoc-ne-nil : (ns : List ℕ) (n : ℕ) → ns ++ n ∷ [] ≢ []
snoc-ne-nil [] n e = cc
snoc-ne-nil (m ∷ ms) n e = cc

-- A scan that finds each retired node in the table writes through a NULL pointer. Its list of
-- retired nodes has no repetitions, is as long as it counts, and has no unused node.
pub scan_all_kept :
    (exec : ℕ) (ptab : Ptab) (todo avail : List ℕ) (ws : List (Window Blocks)) (s : Blocks)
    → IsRetired exec todo avail s
    → free_nodes (in_table ptab s) todo ≡ []
    → (u : Blocks) × (lf_block_queue_scan_free_rlist exec ptab (quiet ∷ ws) s
        ≡ some (crashed, quiet ∷ ws, u))
scan_all_kept exec ptab todo avail ws s r all_kept = elim (start exec ptab todo avail ws s r) [
  | inl (u, run, _) ↦ (u, crashed_run exec ptab todo avail ws s u run)
  | inr (head, t, first, u, run, split, links, apart, free, out, unkept, pos, sorted) ↦
      absurd (snoc-ne-nil first t (split ∙ all_kept))
]

-- Where the others do nothing, a scan that finds a retired node outside the table frees exactly
-- the nodes that are not in the table: they go, in their order, in front of the unused nodes, and
-- the others are the retired nodes from then on, which it counts. Its list of retired nodes has no
-- repetitions, is as long as it counts, and has no unused node.
pub scan_frees :
    (exec : ℕ) (ptab : Ptab) (todo avail : List ℕ) (ws : List (Window Blocks)) (s : Blocks)
    → IsRetired exec todo avail s
    → free_nodes (in_table ptab s) todo ≢ []
    → (u : Blocks) × (lf_block_queue_scan_free_rlist exec ptab (quiet ∷ ws) s
        ≡ some (returned tt, ws, u))
      × Links u.node u.lf_block_queue_nodes (free_nodes (in_table ptab s) todo ++ avail) null
      × Links u.node (u.lf_hptrs exec).bhp_rlist (kept_nodes (in_table ptab s) todo []) null
      × ((u.lf_hptrs exec).bhp_rcount ≡ length (kept_nodes (in_table ptab s) todo []))
scan_frees exec ptab todo avail ws s r some_free = elim (start exec ptab todo avail ws s r) [
  | inl (u, run, all_kept) ↦ absurd (some_free all_kept)
  | inr (head, t, first, u, run, split, links, apart, free, out, unkept, pos, sorted) ↦ (
    spliced exec ptab todo avail ws s head t u,
    freed_run exec ptab todo avail ws s head t u run pos,
    rw (sym split) (
        Links-join (with_next t u.lf_block_queue_nodes u.node) head (first ++ t ∷ []) avail
          u.lf_block_queue_nodes null
          (Links-snoc u.node head first t u.lf_block_queue_nodes apart links)
          (rw sorted.nodes (
            Links-with_next u.node s.lf_block_queue_nodes avail null t s.lf_block_queue_nodes out
              free))),
    Links-with_next u.node (u.lf_hptrs exec).bhp_rlist (kept_nodes (in_table ptab s) todo []) null t
        u.lf_block_queue_nodes unkept sorted.rlist,
    ground (arith, sorted.rcount),
  )
]
