-- ===== src/Slice/Alloc/Granted.antt =====
-- What slice_alloc does, from the reservation to the mapping.
use masters_thesis.Base.{
  ℕ, ◌<◌, ◌≤◌, ◌^◌, ◌≡◌, ◌≢◌, refl, true, some, none, ◌∷◌, List, ◌==◌, if◌then◌else◌, arith,
}
use masters_thesis.Base.Interleave.{Window, quiet}
use masters_thesis.Base.Word.{add32}
use masters_thesis.Os.Mem.{SliceProt, os_mem_map, os_mem_map_result}
use masters_thesis.Slice.Types.{SliceType, gc, malloc, custom, static, blank, Slices}
use masters_thesis.Slice.Entry.Chain.{FreeList}
use masters_thesis.Slice.Space.{slice_reserve_space}
use masters_thesis.Slice.Space.Limits.{reserve_at_limit}
use masters_thesis.Slice.Alloc.{slice_alloc}
use masters_thesis.Slice.Alloc.Outcome.{SameCounters, alloc_lem, alloc_no_memory}

-- The type's own counter with the size reaches its limit, for the types that have one.
abbrev pub OwnReached : SliceType → (size : ℕ) → Slices → Type 0
OwnReached gc size s = s.gc_limit ≤ add32 s.gc_size size
OwnReached malloc size s = s.malloc_limit ≤ add32 s.malloc_size size
OwnReached custom size s = Unit {0}
OwnReached static size s = Unit {0}

-- The total and the type's own counter grow by the size.
abbrev pub counted_in : SliceType → (size : ℕ) → Slices → Slices
counted_in gc size s = record s {
  total_size = add32 s.total_size size;
  gc_size = add32 s.gc_size size;
}
counted_in malloc size s = record s {
  total_size = add32 s.total_size size;
  malloc_size = add32 s.malloc_size size;
}
counted_in custom size s = record s { total_size = add32 s.total_size size }
counted_in static size s = record s { total_size = add32 s.total_size size }

abbrev four : List (Window Slices) → List (Window Slices)
four ws = quiet ∷ quiet ∷ quiet ∷ quiet ∷ ws

reserve_counts :
    (type : SliceType) (failures size : ℕ) (ws : List (Window Slices)) (s : Slices)
    → s.total_size < 2 ^ 32
    → size < 2 ^ 32
    → s.total_limit ≤ add32 s.total_size size
    → OwnReached type size s
    → (vs : List (Window Slices)) × (slice_reserve_space failures size type (four ws) s
        ≡ some (true, quiet ∷ quiet ∷ vs, counted_in type size s))
reserve_counts gc failures size ws s small size_small total own =
    let (e, _, _, _) = reserve_at_limit failures size (quiet ∷ ws) s small size_small total in
    (ws, ground (arith, e, own))
reserve_counts malloc failures size ws s small size_small total own =
    let (_, e, _, _) = reserve_at_limit failures size (quiet ∷ ws) s small size_small total in
    (ws, ground (arith, e, own))
reserve_counts custom failures size ws s small size_small total own =
    let (_, _, e, _) =
      reserve_at_limit failures size (quiet ∷ quiet ∷ quiet ∷ ws) s small size_small total in
    (quiet ∷ ws, e)
reserve_counts static failures size ws s small size_small total own =
    let (_, _, _, e) =
      reserve_at_limit failures size (quiet ∷ quiet ∷ quiet ∷ ws) s small size_small total in
    (quiet ∷ ws, e)

counted_free :
    (type : SliceType) (size : ℕ) (s : Slices) (is : List ℕ)
    → FreeList s is
    → FreeList (counted_in type size s) is
counted_free gc size s is free = free
counted_free malloc size s is free = free
counted_free custom size s is free = free
counted_free static size s is free = free

counted_keeps :
    (type : SliceType) (size : ℕ) (s : Slices)
    → ((counted_in type size s).slice_tab ≡ s.slice_tab) × ((counted_in type size s).os ≡ s.os)
counted_keeps gc size s = (refl, refl)
counted_keeps malloc size s = (refl, refl)
counted_keeps custom size s = (refl, refl)
counted_keeps static size s = (refl, refl)

-- Where no other executor interferes, the total and the type's own counter reach their limits with
-- the size, and a descriptor i is unused: slice_alloc adds the size to both counters and calls mmap
-- once. Where mmap returns memory, `got`, i comes off the list of unused descriptors, is the result,
-- and describes the memory with its size and type, blank, while the other descriptors are as before.
-- Where it fails, with `bad`, the result is NULL and the list of unused descriptors is as before,
-- but both counters still have the size.
pub slice_alloc_lem :
    (type : SliceType) (prot : SliceProt) (failures size got bad i : ℕ) (is : List ℕ)
    (ws : List (Window Slices)) (s : Slices)
    → s.total_size < 2 ^ 32
    → size < 2 ^ 32
    → s.total_limit ≤ add32 s.total_size size
    → OwnReached type size s
    → FreeList s (i ∷ is)
    → os_mem_map_result got ≢ 0
    → os_mem_map_result bad ≡ 0
    → ((vs : List (Window Slices)) × (u : Slices) × (slice_alloc failures none got type prot size
            (four ws)
            s
          ≡ some (some i, vs, u))
        × FreeList u is
        × ((j : ℕ)
            → u.slice_tab j ≡ (
                if j == i
                then record (s.slice_tab i) {
                  s_ptr = os_mem_map_result got;
                  s_type = type;
                  s_usage = blank;
                  s_size = size;
                }
                else s.slice_tab j))
        × SameCounters u (counted_in type size s)
        × (u.os ≡ os_mem_map size prot ∷ s.os))
      × ((vs : List (Window Slices)) × (u : Slices) × (slice_alloc failures none bad type prot size
              (four ws)
              s
            ≡ some (none, vs, u))
          × FreeList u (i ∷ is)
          × SameCounters u (counted_in type size s)
          × (u.os ≡ os_mem_map size prot ∷ s.os))
slice_alloc_lem type prot failures size got bad i is ws s small size_small total own free ok fails =
    let (vs, granted) = reserve_counts type failures size ws s small size_small total own in
    let t = counted_in type size s in
    let listed = counted_free type size s (i ∷ is) free in
    let (tab, os) = counted_keeps type size s in
    let (u, run, left, shape, counts, calls) =
      alloc_lem failures got size type prot (four ws) (quiet ∷ vs) s t i is granted listed ok in
    let (v, run', left', counts', calls') =
      alloc_no_memory failures bad size type prot (four ws) vs s t i is granted listed fails in
    (
      (quiet ∷ vs, u, run, left, (λ j. rw tab at (shape j)), counts, rw os at calls),
      (vs, v, run', left', counts', rw os at calls'),
    )
