-- ===== src/BlockQueue/Retired/Table.antt =====
-- The table of the hazards holds the hazard pointers of all executors.
use masters_thesis.Base.{
  ℕ, zero, suc, ◌+◌, ◌*◌, ◌≤◌, ◌<◌, ◌≡◌, inl, inr, refl, ap, ◌∙◌, Bool, true, false, ◌||◌, List, [],
  ◌∷◌, ◌==◌, Bool-cases, ==_iff, arith,
}
use masters_thesis.Base.Interleave.{Window, quiet}
use masters_thesis.BlockQueue.Nodes.{Blocks}
use masters_thesis.BlockQueue.Retired.{
  Ptab, ptab_size, in_chain, lf_block_queue_ptab_lookup, lf_block_queue_ptab_insert, build_rounds,
  lf_block_queue_scan_build_ptab,
}

-- The two hazard pointers of `n` executors from i on.
abbrev pub hazards : (n i : ℕ) → Blocks → List ℕ
hazards zero i s = []
hazards (suc n) i s = (s.lf_hptrs i).bhp_ptrs 0 ∷ (s.lf_hptrs i).bhp_ptrs 1 ∷ hazards n (i + 1) s

abbrev pub has : ℕ → List ℕ → Bool
has a [] = false
has a (b ∷ bs) = (a == b) || has a bs

module _ (node size : ℕ) where
  -- A node is found after an insertion if it is the inserted one or was found before.
  lookup-insert :
      (a : ℕ) (ptab : Ptab)
      → lf_block_queue_ptab_lookup (lf_block_queue_ptab_insert a size ptab) node size
        ≡ ((node == a) || lf_block_queue_ptab_lookup ptab node size)
  unfolding lf_block_queue_ptab_lookup lf_block_queue_ptab_insert in_chain
  lookup-insert a ptab = elim (Bool-cases (node == a)) [
    | inl same ↦ rw ((==_iff _ _).0 same) (ground arith)
    | inr other ↦ ground arith
  ]

  lookup-build_rounds :
      (n i : ℕ) (ptab : Ptab) (s : Blocks)
      → lf_block_queue_ptab_lookup (build_rounds n i size quiet ptab s).0 node size
        ≡ (has node (hazards n i s) || lf_block_queue_ptab_lookup ptab node size)
  unfolding build_rounds
  lookup-build_rounds zero i ptab s = refl
  lookup-build_rounds (suc n) i ptab s =
      let p0 = (s.lf_hptrs i).bhp_ptrs 0 in
      let p1 = (s.lf_hptrs i).bhp_ptrs 1 in
      let first = lf_block_queue_ptab_insert p0 size ptab in
      lookup-build_rounds n (i + 1) (lf_block_queue_ptab_insert p1 size first) s
      ∙ ground (arith, lookup-insert p1 first, lookup-insert p0 ptab)

  -- The hazard pointers of one executor, one of which names the node.
  inserted :
      (j : ℕ) (ptrs ptrs' : ℕ → ℕ) (ptab : Ptab)
      → j < 2
      → ptrs j ≡ node
      → ptrs' j ≡ node
      → lf_block_queue_ptab_lookup
          (lf_block_queue_ptab_insert
            (ptrs' 1)
            size
            (lf_block_queue_ptab_insert (ptrs 0) size ptab))
          node
          size
        ≡ true
  inserted zero ptrs ptrs' ptab two p p' = ground (
    arith,
    lookup-insert (ptrs' 1) (lf_block_queue_ptab_insert (ptrs 0) size ptab),
    lookup-insert (ptrs 0) ptab,
  )
  inserted (suc zero) ptrs ptrs' ptab two p p' =
      ground (arith, lookup-insert (ptrs' 1) (lf_block_queue_ptab_insert (ptrs 0) size ptab))
  inserted (suc (suc j)) ptrs ptrs' ptab two p p' = absurd (omega arith)

  -- What is found stays found.
  found_later :
      (n i : ℕ) (w : Window Blocks) (ptab : Ptab) (s : Blocks)
      → lf_block_queue_ptab_lookup ptab node size ≡ true
      → lf_block_queue_ptab_lookup (build_rounds n i size w ptab s).0 node size ≡ true
  unfolding build_rounds
  found_later zero i w ptab s found = found
  found_later (suc n) i w ptab s found =
      let s1 = w.later (2 * i) s in
      let first = lf_block_queue_ptab_insert ((s1.lf_hptrs i).bhp_ptrs 0) size ptab in
      let s2 = w.later (2 * i + 1) s1 in
      found_later n (i + 1) w (lf_block_queue_ptab_insert ((s2.lf_hptrs i).bhp_ptrs 1) size first)
        s2
        (ground (
          arith,
          lookup-insert ((s2.lf_hptrs i).bhp_ptrs 1) first,
          lookup-insert ((s1.lf_hptrs i).bhp_ptrs 0) ptab,
        ))

  module _ (e j : ℕ) (w : Window Blocks) (two : j < 2)
      (kept : (k : ℕ) (s : Blocks)
        → (s.lf_hptrs e).bhp_ptrs j ≡ node
        → ((w.later k s).lf_hptrs e).bhp_ptrs j ≡ node) where
    found_hazard :
        (n i : ℕ) (ptab : Ptab) (s : Blocks)
        → i ≤ e
        → e < i + n
        → (s.lf_hptrs e).bhp_ptrs j ≡ node
        → lf_block_queue_ptab_lookup (build_rounds n i size w ptab s).0 node size ≡ true
    unfolding build_rounds
    found_hazard zero i ptab s low high set = absurd (omega arith)
    found_hazard (suc n) i ptab s low high set =
        let s1 = w.later (2 * i) s in
        let first = lf_block_queue_ptab_insert ((s1.lf_hptrs i).bhp_ptrs 0) size ptab in
        let s2 = w.later (2 * i + 1) s1 in
        let second = lf_block_queue_ptab_insert ((s2.lf_hptrs i).bhp_ptrs 1) size first in
        let set1 = kept (2 * i) s set in
        let set2 = kept (2 * i + 1) s1 set1 in
        elim (Bool-cases (i == e)) [
          | inl here ↦ found_later n (i + 1) w second s2 (
              inserted j (s1.lf_hptrs i).bhp_ptrs (s2.lf_hptrs i).bhp_ptrs ptab two
                (ap (λ (x : ℕ). (s1.lf_hptrs x).bhp_ptrs j) ((==_iff i e).0 here) ∙ set1)
                (ap (λ (x : ℕ). (s2.lf_hptrs x).bhp_ptrs j) ((==_iff i e).0 here) ∙ set2))
          | inr above ↦ found_hazard n (i + 1) second s2 (ground arith) (omega arith) set2
        ]

-- Where the others do nothing, a node is in the table of a scan exactly where a hazard pointer of an
-- executor names it.
pub lookup-build :
    (node : ℕ) (s : Blocks)
    → lf_block_queue_ptab_lookup (lf_block_queue_scan_build_ptab quiet s).0 node (ptab_size s)
      ≡ has node (hazards s.lf_block_queue_hptrs 0 s)
unfolding lf_block_queue_scan_build_ptab lf_block_queue_ptab_lookup in_chain
lookup-build node s =
    lookup-build_rounds node (ptab_size s) s.lf_block_queue_hptrs 0 (λ _. []) s ∙ ground arith

-- A node that a hazard pointer of an executor names when a scan builds its table, and goes on to
-- name whatever the others do between the reads, is in the table.
pub lookup-build_kept :
    (node e j : ℕ) (w : Window Blocks) (s : Blocks)
    → j < 2
    → e < s.lf_block_queue_hptrs
    → (s.lf_hptrs e).bhp_ptrs j ≡ node
    → ((k : ℕ) (t : Blocks)
        → (t.lf_hptrs e).bhp_ptrs j ≡ node
        → ((w.later k t).lf_hptrs e).bhp_ptrs j ≡ node)
    → lf_block_queue_ptab_lookup (lf_block_queue_scan_build_ptab w s).0 node (ptab_size s) ≡ true
unfolding lf_block_queue_scan_build_ptab
lookup-build_kept node e j w s two below set kept =
    found_hazard node (ptab_size s) e j w two kept s.lf_block_queue_hptrs 0 (λ _. []) s
      (omega arith) (omega arith) set
