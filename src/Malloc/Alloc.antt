-- ===== src/Malloc/Alloc.antt =====
-- src/mm/malloc/lf_malloc.c: a new superblock, and malloc.
pub mod Fresh
pub mod Large
pub mod Outcome
pub mod Reuse
use masters_thesis.Base.{
  ℕ, zero, suc, ◌+◌, ◌-◌, ◌*◌, ◌/◌, ◌%◌, min, bit_or, Bool, true, false, Option, none, some, List,
  ◌==◌, ltb, if◌then◌else◌, length,
}
use masters_thesis.Base.Word.{add32, sub32}
use masters_thesis.Base.Interleave.{Window, Prog, pure, once, gets, modify, ◌>>=◌, ◌>>◌}
use masters_thesis.Malloc.Anchor.{anchor_create, active_create}
use masters_thesis.Malloc.SizeClass.{cache_line_size, sc_size, sc_block_size, find_heap}
use masters_thesis.Malloc.State.{
  Region, Descriptor, Procheap, Mallocs, null, set_desc, store, take_slice, slice_free, cas_active,
}
use masters_thesis.Malloc.Desc.{desc_alloc, malloc_desc_retire}
use masters_thesis.Malloc.Superblock.{anc_active, max_credits, malloc_from_active}
use masters_thesis.Malloc.Partial.{malloc_from_partial}

-- `for(i = 1; i < maxcount - 1; i++) *(addr + sc_size * i) = i + 1;`, from i on for some rounds.
unfoldable pub link_blocks : (rounds i base size : ℕ) → Mallocs → Mallocs
link_blocks zero i base size s = s
link_blocks (suc n) i base size s =
    link_blocks n (i + 1) base size (store (base + size * i) (i + 1) s)

-- The rounds of that loop, for a maxcount of 1 or more.
abbrev pub block_rounds : (maxcount : ℕ) → ℕ
block_rounds maxcount = maxcount - 1 - 1

abbrev pub first_credits : (maxcount : ℕ) → ℕ
first_credits maxcount = sub32 (min (sub32 maxcount 1) max_credits) 1

-- The new superblock is arranged in a slice and offered as the active one.
unfoldable pub superblock_from_slice : (h : ℕ) → Region → (d : ℕ) → Prog Mallocs ℕ
unfolding link_blocks
superblock_from_slice h r d = do
  g ← gets (λ s. s.heap h)
  let size = sc_size g.ph_sizeclass
  let maxcount = sc_block_size / size
  let credits = first_credits maxcount
  modify (link_blocks (block_rounds maxcount) 1 r.s_ptr size)
  modify (
      set_desc d (λ e. record e {
        des_slice = r;
        des_heap = h;
        des_size = size;
        des_maxcount = maxcount;
        des_anchor = anchor_create 1 (sub32 (sub32 maxcount 1) (add32 credits 1)) anc_active;
      }))
  done ← once (λ w s. cas_active h 0 (active_create d credits) (w.between (w.before s)))
  if done
      then (do modify (store r.s_ptr d); pure (r.s_ptr + cache_line_size))
      else (do modify (slice_free r.slice); malloc_desc_retire d; pure null)

unfoldable pub malloc_from_new_sb : (size_of h : ℕ) → Prog Mallocs ℕ
unfolding superblock_from_slice
malloc_from_new_sb size_of h = do
  slice ← gets (λ s. (take_slice s).0)
  modify (λ s. (take_slice s).1)
  elim slice [ none ↦ pure null | some r ↦ desc_alloc size_of >>= superblock_from_slice h r ]

unfoldable pub try_alloc : (size_of h : ℕ) → Prog Mallocs ℕ
try_alloc size_of h = do
  active ← malloc_from_active h
  if active == null
      then (do
        partial ← malloc_from_partial h
        if partial == null then malloc_from_new_sb size_of h else pure partial)
      else pure active

-- `for(i = 1; NULL == (out = try_alloc(heap, exec)); i++) backoff_delay(i);`
unfoldable pub alloc_loop : (fuel size_of h : ℕ) → Prog Mallocs ℕ
alloc_loop zero size_of h ws s = none
alloc_loop (suc fuel) size_of h ws s =
    let again = alloc_loop fuel size_of h in
    (do out ← try_alloc size_of h; if out == null then again else pure out) ws s

-- The size of the slice of a large request.
unfoldable pub large_slice_size : (size : ℕ) → ℕ
large_slice_size size = sub32 size 1 % 0x1000 + 0x1000

-- A request that has a heap runs the loop, every round of which uses up a window. One that has none
-- takes the slice `large` that slice_alloc returns for `large_slice_size`.
unfoldable pub malloc_lf :
    (size_of : ℕ) (large : Option Region) (req_size exec : ℕ) → Prog Mallocs ℕ
malloc_lf size_of large req_size exec ws s =
    if req_size == 0
    then some (null, ws, s)
    else let size = add32 req_size cache_line_size in
      elim (find_heap size exec) [
        | some h ↦ alloc_loop (suc (length ws)) size_of h ws s
        | none ↦ elim large [
          | some r ↦ some (r.s_ptr + cache_line_size, ws, store r.s_ptr (bit_or r.s_ptr 1) s)
          | none ↦ some (null, ws, s)
        ]
      ]
