-- ===== src/Slice/Alloc/Outcome.antt =====
-- What slice_alloc and slice_free do to the descriptors, the counters and the mappings.
use masters_thesis.Base.{
  ℕ, ◌≡◌, ◌≢◌, true, false, some, none, [], ◌∷◌, List, ◌==◌, if◌then◌else◌, arith,
}
use masters_thesis.Base.Interleave.{Window, quiet}
use masters_thesis.Os.Mem.{SliceProt, os_mem_map, os_mem_unmap, os_mem_map_result}
use masters_thesis.Slice.Types.{SliceType, blank, Slices, set_entry}
use masters_thesis.Slice.Entry.Chain.{
  has, FreeList, Chain-frame, Chain-uncons, entry_alloc-cons, entry_alloc-nil, entry_free-cons,
}
use masters_thesis.Slice.Space.{slice_reserve_space}
use masters_thesis.Slice.Alloc.{call_os, alloc_failed, map_entry, slice_alloc, slice_free}

-- The counters of two states are the same.
pub record SameCounters (s t : Slices) : Type 0 where
  pub total : s.total_size ≡ t.total_size
  pub malloc : s.malloc_size ≡ t.malloc_size
  pub gc : s.gc_size ≡ t.gc_size

module _ (failures mapped size : ℕ) (type : SliceType) (prot : SliceProt)
    (ws ws' : List (Window Slices)) (s t : Slices) where
  -- A refused reservation, and the `out` of slice_alloc happening to hold NULL: the result is NULL
  -- and nothing else happens.
  pub alloc_refused :
      slice_reserve_space failures size type ws s ≡ some (false, ws', t)
      → slice_alloc failures none mapped type prot size ws s ≡ some (none, ws', t)
  unfolding slice_alloc alloc_failed
  alloc_refused e = ground (arith, e)

  pub alloc_no_entry :
      slice_reserve_space failures size type ws s ≡ some (true, quiet ∷ ws', t)
      → FreeList t []
      → slice_alloc failures none mapped type prot size ws s ≡ some (none, ws', t)
  unfolding slice_alloc map_entry
  alloc_no_entry e free = ground (arith, e, entry_alloc-nil ws' t free)

  -- The reservation is granted and a descriptor i is unused, but `mmap` fails: NULL, the list of
  -- unused descriptors is as before, and what was reserved stays reserved.
  pub alloc_no_memory :
      (i : ℕ) (is : List ℕ)
      → slice_reserve_space failures size type ws s ≡ some (true, quiet ∷ quiet ∷ ws', t)
      → FreeList t (i ∷ is)
      → os_mem_map_result mapped ≡ 0
      → (u : Slices) × (slice_alloc failures none mapped type prot size ws s ≡ some (none, ws', u))
        × FreeList u (i ∷ is)
        × SameCounters u t
        × (u.os ≡ os_mem_map size prot ∷ t.os)
  unfolding slice_alloc map_entry
  alloc_no_memory i is e free failed =
      let (u, step, shape, rest) = entry_alloc-cons (quiet ∷ ws') t i is free in
      let (head, out, _) = Chain-uncons free in
      let v : Slices =
        set_entry i (λ d. record d { s_ptr = os_mem_map_result mapped })
          (call_os (os_mem_map size prot) u) in
      let kept : FreeList v is = Chain-frame rest (λ j h. ground arith) in
      let (z, back, shape', free') = entry_free-cons ws' v i is kept out in
      (
        z,
        ground (arith, e, step, back),
        free',
        record { total = cc (shape, shape'); malloc = cc (shape, shape'); gc = cc (shape, shape') },
        ground (arith, shape, shape'),
      )

  -- The reservation is granted, a descriptor i is unused and `mmap` gives memory: i comes off the
  -- list of unused descriptors and describes the memory, its size and its type, blank; its
  -- protection is left as it was, and so are the other descriptors and what was reserved. The one
  -- call of the system is that of `mmap`.
  pub alloc_lem :
      (i : ℕ) (is : List ℕ)
      → slice_reserve_space failures size type ws s ≡ some (true, quiet ∷ ws', t)
      → FreeList t (i ∷ is)
      → os_mem_map_result mapped ≢ 0
      → (u : Slices) × (slice_alloc failures none mapped type prot size ws s
          ≡ some (some i, ws', u))
        × FreeList u is
        × ((j : ℕ)
            → u.slice_tab j ≡ (
                if j == i
                then record (t.slice_tab i) {
                  s_ptr = os_mem_map_result mapped;
                  s_type = type;
                  s_usage = blank;
                  s_size = size;
                }
                else t.slice_tab j))
        × SameCounters u t
        × (u.os ≡ os_mem_map size prot ∷ t.os)
  unfolding slice_alloc map_entry
  alloc_lem i is e free mapped_ok =
      let (u, step, shape, rest) = entry_alloc-cons ws' t i is free in
      let v : Slices =
        set_entry i (λ d. record d { s_ptr = os_mem_map_result mapped })
          (call_os (os_mem_map size prot) u) in
      let z : Slices =
        set_entry i (λ d. record d { s_type = type; s_usage = blank; s_size = size }) v in
      (
        z,
        ground (arith, e, step),
        Chain-frame rest (λ j h. ground arith),
        (λ j. ground (arith, shape)),
        record { total = cc shape; malloc = cc shape; gc = cc shape },
        ground (arith, shape),
      )

module _ (ws : List (Window Slices)) (s : Slices) where
  -- Alone, freeing a slice whose descriptor is not in the list of unused ones unmaps its memory,
  -- all of it and once, and puts the descriptor in front of the list; no counter changes, so that
  -- the space of the slice stays reserved.
  pub free_lem :
      (i : ℕ) (is : List ℕ)
      → FreeList s is
      → has i is ≡ false
      → (u : Slices) × (slice_free i (quiet ∷ ws) s ≡ some (tt, ws, u))
        × FreeList u (i ∷ is)
        × SameCounters u s
        × (u.os ≡ os_mem_unmap (s.slice_tab i).s_ptr (s.slice_tab i).s_size ∷ s.os)
  unfolding slice_free
  free_lem i is free out =
      let v : Slices = call_os (os_mem_unmap (s.slice_tab i).s_ptr (s.slice_tab i).s_size) s in
      let (u, step, shape, free') = entry_free-cons ws v i is free out in
      (
        u,
        ground (arith, step),
        free',
        record { total = cc shape; malloc = cc shape; gc = cc shape },
        ground (arith, shape),
      )
