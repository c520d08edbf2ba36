-- ===== src/Malloc/Alloc/Large.antt =====
-- Requests that are too large for a size class.
use masters_thesis.Base.{
  ℕ, ◌+◌, ◌*◌, ◌/◌, ◌%◌, ◌^◌, ◌<◌, ◌≡◌, refl, bit_or, some, none, List, ne→==, arith,
}
use masters_thesis.Base.Word.{add32}
use masters_thesis.Base.Bits.{bit_or_disjoint}
use masters_thesis.Base.Interleave.{Window}
use masters_thesis.Malloc.SizeClass.{cache_line_size, find_heap}
use masters_thesis.Malloc.State.{Region, Mallocs, store, slice_free}
use masters_thesis.Malloc.Alloc.{large_slice_size, malloc_lf}
use masters_thesis.Malloc.Free.{free_lf}

no_heap : (size exec : ℕ) → find_heap size exec ≡ none → 0x40000 < size
unfolding find_heap
no_heap size exec missing = ground arith

large_below : (size : ℕ) → large_slice_size size < 0x2000
unfolding large_slice_size
large_below size = omega arith

tagged : (p : ℕ) → p % 2 ≡ 0 → bit_or p 1 ≡ p + 1
tagged p even =
    let halves : p / 2 * 2 ^ 1 ≡ p = omega (arith, even) in
    let joined : bit_or (p / 2 * 2 ^ 1) 1 ≡ p / 2 * 2 ^ 1 + 1 =
      bit_or_disjoint 1 (p / 2) 1 (omega arith) in
    rw halves at joined

-- A request that has no heap, the cache line included and without overflow, and the slice that
-- malloc_lf is given for it, of the size large_slice_size. malloc_lf returns the address behind
-- the first cache line of the slice, and the size asked of the slice allocator is below 8 KiB,
-- though the request is above 256 KiB.
pub malloc_lf_large :
    (size_of req_size exec : ℕ) (r : Region) (ws : List (Window Mallocs)) (s : Mallocs)
    → 0 < req_size
    → req_size + cache_line_size < 2 ^ 32
    → find_heap (req_size + cache_line_size) exec ≡ none
    → (malloc_lf size_of (some r) req_size exec ws s
        ≡ some (r.s_ptr + cache_line_size, ws, store r.s_ptr (bit_or r.s_ptr 1) s))
      × (large_slice_size (req_size + cache_line_size) < 0x2000)
      × (0x40000 < req_size + cache_line_size)
unfolding malloc_lf
malloc_lf_large size_of req_size exec r ws s pos fits missing =
    let kept : add32 req_size cache_line_size ≡ req_size + cache_line_size = omega (arith, fits) in
    (
      rw (ne→== req_size 0 (omega arith), kept, missing) refl,
      large_below (req_size + cache_line_size),
      no_heap (req_size + cache_line_size) exec missing,
    )

-- Where the word in front of a block is the address of its slice's memory with the lowest bit set,
-- as malloc_lf leaves it for a large request, free_lf calls slice_free with that address, not with
-- the slice.
pub free_lf_large :
    (ptr : ℕ) (ws : List (Window Mallocs)) (s : Mallocs)
    → ptr % 2 ≡ 0
    → s.word ptr ≡ bit_or ptr 1
    → free_lf (ptr + cache_line_size) ws s ≡ some (tt, ws, slice_free ptr s)
unfolding free_lf
free_lf_large ptr ws s even header = ground (arith, tagged ptr even)
