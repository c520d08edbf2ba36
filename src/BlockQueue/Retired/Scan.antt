-- ===== src/BlockQueue/Retired/Scan.antt =====
-- A scan frees the retired nodes that are not in the table, and keeps the others.
use masters_thesis.Base.{
  ℕ, zero, suc, ◌+◌, ◌≤◌, ◌<◌, ◌≡◌, refl, sym, ◌∙◌, Bool, true, false, some, List, [], ◌∷◌, ◌++◌,
  if◌then◌else◌, length, Bool-cases, ◌⊎◌, inl, inr, ne→==, eq→==, arith,
}
use mathlib.Core.List.{append-nil, append_assoc}
use masters_thesis.Malloc.State.{null}
use masters_thesis.BlockQueue.Nodes.{Blocks, set_next, set_hptrs}
use masters_thesis.BlockQueue.Retired.{sort_retired}
use masters_thesis.BlockQueue.Retired.Table.{has}
use masters_thesis.BlockQueue.Links.{
  Links, AllDistinct, Apart, Links-with_next, Links-snoc, Apart-cons, Apart-snoc, has-snoc,
}

-- The nodes that are kept, in front of those that were, and those that are freed.
abbrev pub kept_nodes : (hazard : ℕ → Bool) → List ℕ → List ℕ → List ℕ
kept_nodes hazard [] kept = kept
kept_nodes hazard (n ∷ ns) kept = kept_nodes hazard ns (if hazard n then n ∷ kept else kept)

abbrev pub free_nodes : (hazard : ℕ → Bool) → List ℕ → List ℕ
free_nodes hazard [] = []
free_nodes hazard (n ∷ ns) = if hazard n then free_nodes hazard ns else n ∷ free_nodes hazard ns

-- What the loop leaves: the retired list has the kept nodes, its count went up by as many as were
-- added to `before`, and the queue is as it was.
pub record Sorted (exec : ℕ) (before kept : List ℕ) (s u : Blocks) : Type 0 where
  pub rlist : Links u.node (u.lf_hptrs exec).bhp_rlist kept null
  pub rcount :
      (u.lf_hptrs exec).bhp_rcount + length before ≡ (s.lf_hptrs exec).bhp_rcount + length kept
  pub nodes : u.lf_block_queue_nodes ≡ s.lf_block_queue_nodes
  pub ends : (u.lf_head ≡ s.lf_head) × (u.lf_tail ≡ s.lf_tail)

-- The state after a retired node is kept.
abbrev keep_node : (exec curr : ℕ) → Blocks → Blocks
keep_node exec curr s =
    set_hptrs exec (λ h. record h { bhp_rlist = curr; bhp_rcount = h.bhp_rcount + 1 })
      (set_next curr (s.lf_hptrs exec).bhp_rlist s)

module _ (hazard : ℕ → Bool) (exec fuel c head t : ℕ) (s : Blocks) where
  sort_kept :
      hazard (suc c) ≡ true
      → sort_retired (suc fuel) hazard exec (suc c) head t s
        ≡ sort_retired fuel hazard exec (s.node (suc c)).lfn_next head t (keep_node exec (suc c) s)
  unfolding sort_retired
  sort_kept hz = ground (arith, hz)

  sort_first :
      hazard (suc c) ≡ false
      → sort_retired (suc fuel) hazard exec (suc c) null null s
        ≡ sort_retired fuel hazard exec (s.node (suc c)).lfn_next (suc c) (suc c) s
  unfolding sort_retired
  sort_first hz = ground (arith, hz)

  sort_next :
      hazard (suc c) ≡ false
      → 0 < head
      → sort_retired (suc fuel) hazard exec (suc c) head t s
        ≡ sort_retired fuel hazard exec
            (s.node (suc c)).lfn_next
            head
            (suc c)
            (set_next t (suc c) s)
  unfolding sort_retired
  sort_next hz pos = ground (arith, hz, ne→== head null (omega arith))

  -- A node that is kept is the first of the retired list.
  kept-Links :
      (kept : List ℕ)
      → has (suc c) kept ≡ false
      → Links s.node (s.lf_hptrs exec).bhp_rlist kept null
      → Links
          (keep_node exec (suc c) s).node
          ((keep_node exec (suc c) s).lf_hptrs exec).bhp_rlist
          (suc c ∷ kept)
          null
  kept-Links kept out l = rw (eq→== exec exec refl) (
    refl,
    rw (eq→== (suc c) (suc c) refl) (
        Links-with_next s.node (s.lf_hptrs exec).bhp_rlist kept null (suc c)
          (s.lf_hptrs exec).bhp_rlist out l),
  )

  -- The count and the fields that the loop leaves alone, from the rest of the loop.
  keep-Sorted :
      (before kept : List ℕ) (u : Blocks)
      → Sorted exec (suc c ∷ before) kept (keep_node exec (suc c) s) u
      → Sorted exec before kept s u
  keep-Sorted before kept u r = record {
    rlist = r.rlist;
    rcount = ground (arith, r.rcount);
    nodes = r.nodes;
    ends = r.ends;
  }

next-Sorted :
    (exec n next : ℕ) (before kept : List ℕ) (s u : Blocks)
    → Sorted exec before kept (set_next n next s) u
    → Sorted exec before kept s u
next-Sorted exec n next before kept s u r = record {
  rlist = r.rlist;
  rcount = r.rcount;
  nodes = r.nodes;
  ends = r.ends;
}

-- The loop from where the list of the nodes to free has `first` and last the node t.
abbrev SortMore :
    (hazard : ℕ → Bool) (exec fuel curr head t : ℕ) (todo kept first : List ℕ) (a : ℕ)
    (avail : List ℕ)
    → Blocks
    → Type 0
SortMore hazard exec fuel curr head t todo kept first a avail s =
    (t' : ℕ) × (first' : List ℕ) × (u : Blocks) × (sort_retired fuel hazard exec curr head t s
      ≡ some (head, t', u))
    × (first' ++ t' ∷ [] ≡ (first ++ t ∷ []) ++ free_nodes hazard todo)
    × Links u.node head first' t'
    × (has t' first' ≡ false)
    × Links u.node a avail null
    × (has t' avail ≡ false)
    × (has t' (kept_nodes hazard todo kept) ≡ false)
    × (0 < t')
    × Sorted exec kept (kept_nodes hazard todo kept) s u

sort_more :
    (hazard : ℕ → Bool) (exec fuel curr head t : ℕ) (todo kept first : List ℕ) (a : ℕ)
    (avail : List ℕ) (s : Blocks)
    → length todo ≤ fuel
    → Links s.node curr todo null
    → Links s.node (s.lf_hptrs exec).bhp_rlist kept null
    → Links s.node head first t
    → 0 < head
    → 0 < t
    → AllDistinct todo
    → Apart todo kept
    → Apart todo first
    → has t todo ≡ false
    → has t kept ≡ false
    → has t first ≡ false
    → Links s.node a avail null
    → Apart todo avail
    → has t avail ≡ false
    → SortMore hazard exec fuel curr head t todo kept first a avail s
unfolding sort_retired
sort_more hazard exec fuel curr head t [] kept first a avail s enough cl kl fl pos pos_t dist ak af
      out out_kept out_first al aa out_avail =
    (
      t,
      first,
      s,
      rw cl refl,
      sym (append-nil (first ++ t ∷ [])),
      fl,
      out_first,
      al,
      out_avail,
      out_kept,
      pos_t,
      record { rlist = kl; rcount = refl; nodes = refl; ends = (refl, refl) },
    )
sort_more hazard exec fuel curr head t (zero ∷ ds) kept first a avail s enough cl kl fl pos pos_t
      dist ak af out out_kept out_first al aa out_avail =
    absurd (omega (arith, dist.0))
sort_more hazard exec zero curr head t (suc c ∷ ds) kept first a avail s enough cl kl fl pos pos_t
      dist ak af out out_kept out_first al aa out_avail =
    absurd (omega arith)
sort_more hazard exec (suc fuel) curr head t (suc c ∷ ds) kept first a avail s enough cl kl fl pos
      pos_t dist ak af out out_kept out_first al aa out_avail =
    elim (Bool-cases (hazard (suc c))) [
      | inl hz ↦
          let (t', first', u, run, split, links, apart, free, out', unkept, pos', sorted) =
            sort_more hazard exec fuel (s.node (suc c)).lfn_next head t ds (suc c ∷ kept) first a
              avail (keep_node exec (suc c) s) (omega arith)
              (Links-with_next s.node (s.node (suc c)).lfn_next ds null (suc c)
                (s.lf_hptrs exec).bhp_rlist dist.1 cl.1)
              (kept-Links hazard exec fuel c head t s kept ak.0 kl)
              (Links-with_next s.node head first t (suc c) (s.lf_hptrs exec).bhp_rlist af.0 fl) pos
              pos_t dist.2 (Apart-cons ds kept (suc c) dist.1 ak.1) af.1 (ground arith)
              (ground arith) out_first
              (Links-with_next s.node a avail null (suc c) (s.lf_hptrs exec).bhp_rlist aa.0 al) aa.1
              out_avail in
          (
            t',
            first',
            u,
            rw cl.0 (sort_kept hazard exec fuel c head t s hz ∙ run),
            rw hz split,
            links,
            apart,
            free,
            out',
            rw hz unkept,
            pos',
            rw hz (
                keep-Sorted hazard exec fuel c head t s kept (kept_nodes hazard ds (suc c ∷ kept)) u
                  sorted),
          )
      | inr hz ↦
          let (t', first', u, run, split, links, apart, free, out', unkept, pos', sorted) =
            sort_more hazard exec fuel (s.node (suc c)).lfn_next head (suc c) ds kept
              (first ++ t ∷ []) a avail (set_next t (suc c) s) (omega arith)
              (Links-with_next s.node (s.node (suc c)).lfn_next ds null t (suc c) (ground arith)
                cl.1)
              (Links-with_next s.node (s.lf_hptrs exec).bhp_rlist kept null t (suc c) out_kept kl)
              (Links-snoc s.node head first t (suc c) out_first fl) pos dist.0 dist.2 ak.1
              (Apart-snoc ds first t (ground arith) af.1) dist.1 ak.0
              (has-snoc (suc c) t first ∙ ground arith)
              (Links-with_next s.node a avail null t (suc c) out_avail al) aa.1 aa.0 in
          (
            t',
            first',
            u,
            rw cl.0 (sort_next hazard exec fuel c head t s hz pos ∙ run),
            rw hz (split ∙ append_assoc (first ++ t ∷ []) (suc c ∷ []) (free_nodes hazard ds)),
            links,
            apart,
            free,
            out',
            rw hz unkept,
            pos',
            rw hz (next-Sorted exec t (suc c) kept (kept_nodes hazard ds kept) s u sorted),
          )
    ]

-- The loop from its start: the nodes of `todo` are sorted, or all of them are kept.
abbrev pub SortStart :
    (hazard : ℕ → Bool) (exec fuel curr : ℕ) (todo kept : List ℕ) (a : ℕ) (avail : List ℕ)
    → Blocks
    → Type 0
SortStart hazard exec fuel curr todo kept a avail s =
    ((u : Blocks) × (sort_retired fuel hazard exec curr null null s ≡ some (null, null, u))
      × (free_nodes hazard todo ≡ []))
    ⊎ ((head t : ℕ) × (first : List ℕ) × (u : Blocks) × (sort_retired fuel hazard exec curr null
            null s
          ≡ some (head, t, u))
        × (first ++ t ∷ [] ≡ free_nodes hazard todo)
        × Links u.node head first t
        × (has t first ≡ false)
        × Links u.node a avail null
        × (has t avail ≡ false)
        × (has t (kept_nodes hazard todo kept) ≡ false)
        × (0 < t)
        × Sorted exec kept (kept_nodes hazard todo kept) s u)

pub Apart-nil : (ns : List ℕ) → Apart ns []
Apart-nil [] = tt
Apart-nil (n ∷ ns) = (refl, Apart-nil ns)

pub sort_start :
    (hazard : ℕ → Bool) (exec fuel curr : ℕ) (todo kept : List ℕ) (a : ℕ) (avail : List ℕ)
    (s : Blocks)
    → length todo ≤ fuel
    → Links s.node curr todo null
    → Links s.node (s.lf_hptrs exec).bhp_rlist kept null
    → AllDistinct todo
    → Apart todo kept
    → Links s.node a avail null
    → Apart todo avail
    → SortStart hazard exec fuel curr todo kept a avail s
unfolding sort_retired
sort_start hazard exec fuel curr [] kept a avail s enough cl kl dist ak al aa =
    inl (s, rw cl refl, refl)
sort_start hazard exec fuel curr (zero ∷ ds) kept a avail s enough cl kl dist ak al aa =
    absurd (omega (arith, dist.0))
sort_start hazard exec zero curr (suc c ∷ ds) kept a avail s enough cl kl dist ak al aa =
    absurd (omega arith)
sort_start hazard exec (suc fuel) curr (suc c ∷ ds) kept a avail s enough cl kl dist ak al aa =
    elim (Bool-cases (hazard (suc c))) [
      | inl hz ↦
          let further =
            sort_start hazard exec fuel (s.node (suc c)).lfn_next ds (suc c ∷ kept) a avail
              (keep_node exec (suc c) s) (omega arith)
              (Links-with_next s.node (s.node (suc c)).lfn_next ds null (suc c)
                (s.lf_hptrs exec).bhp_rlist dist.1 cl.1)
              (kept-Links hazard exec fuel c 0 0 s kept ak.0 kl) dist.2
              (Apart-cons ds kept (suc c) dist.1 ak.1)
              (Links-with_next s.node a avail null (suc c) (s.lf_hptrs exec).bhp_rlist aa.0 al)
              aa.1 in
          elim further [
            | inl (u, run, all_kept) ↦
                inl (u, rw cl.0 (sort_kept hazard exec fuel c 0 0 s hz ∙ run), rw hz all_kept)
            | inr (head, t, first, u, run, split, links, apart, free, out, unkept, pos, sorted) ↦
                inr (
                  head,
                  t,
                  first,
                  u,
                  rw cl.0 (sort_kept hazard exec fuel c 0 0 s hz ∙ run),
                  rw hz split,
                  links,
                  apart,
                  free,
                  out,
                  rw hz unkept,
                  pos,
                  rw hz (
                      keep-Sorted hazard exec fuel c head t s kept
                        (kept_nodes hazard ds (suc c ∷ kept)) u sorted),
                )
          ]
      | inr hz ↦
          let (t, first, u, run, split, links, apart, free, out, unkept, pos, sorted) =
            sort_more hazard exec fuel (s.node (suc c)).lfn_next (suc c) (suc c) ds kept [] a avail
              s (omega arith) cl.1 kl refl dist.0 dist.0 dist.2 ak.1 (Apart-nil ds) dist.1 ak.0 refl
              al aa.1 aa.0 in
          inr (
            suc c,
            t,
            first,
            u,
            rw cl.0 (sort_first hazard exec fuel c 0 0 s hz ∙ run),
            rw hz split,
            links,
            apart,
            free,
            out,
            rw hz unkept,
            pos,
            rw hz sorted,
          )
    ]
