-- ===== src/Malloc/SizeClass.antt =====
-- src/mm/malloc/lf_malloc.c: size classes, for the cache line of 32 bytes of arch.h.
pub mod Bounds
use masters_thesis.Base.{
  ℕ, ◌+◌, ◌-◌, ◌/◌, ◌*◌, ◌^◌, Option, some, none, leb, List, [], ◌∷◌, get_or, ltb, if◌then◌else◌,
}

-- CACHE_LINE_SIZE and NUM_SIZE_CLASSES
abbrev pub cache_line_size : ℕ
cache_line_size = 32

abbrev pub num_size_classes : ℕ
num_size_classes = 32

-- `>>` and `-` on `unsigned int`; the subtractions stand behind a test that keeps them above 0.
unfoldable pub malloc_big_size_class : (size base : ℕ) → ℕ
malloc_big_size_class size base =
    let size_div128 = size / 2 ^ 6 in
    if ltb size_div128 4
    then base + size_div128
    else let size_div256 = (size_div128 - 4) / 2 in
      if ltb size_div256 4
      then base + 4 + size_div256
      else let size_div512 = (size_div256 - 4) / 2 in
        if ltb size_div512 4
        then base + 8 + size_div512
        else let size_div1024 = (size_div512 - 4) / 2 in
          if ltb size_div1024 4
          then base + 12 + size_div1024
          else let size_div2048 = (size_div1024 - 4) / 2 in
            if ltb size_div2048 4
            then base + 16 + size_div2048
            else (let size_div4096 = (size_div2048 - 4) / 2 in base + 20 + size_div4096)

unfoldable pub malloc_size_class : ℕ → ℕ
unfolding malloc_big_size_class
malloc_size_class size =
    let size_div32 = size / 2 ^ 5 in
    if ltb size_div32 8 then size_div32 else malloc_big_size_class size 8

-- The field sc_size of malloc_sizeclasses; sc_block_size is the same for every class.
abbrev pub sizeclass_sizes : List ℕ
sizeclass_sizes =
    0x20 ∷ 0x40 ∷ 0x60 ∷ 0x80 ∷ 0xa0 ∷ 0xc0 ∷ 0xe0 ∷ 0x100 ∷ 0x140 ∷ 0x180 ∷ 0x1c0 ∷ 0x200 ∷ 0x280
    ∷ 0x300 ∷ 0x380 ∷ 0x400 ∷ 0x500 ∷ 0x600 ∷ 0x700 ∷ 0x800 ∷ 0xa00 ∷ 0xc00 ∷ 0xe00 ∷ 0x1000
    ∷ 0x1400 ∷ 0x1800 ∷ 0x1c00 ∷ 0x2000 ∷ 0x2800 ∷ 0x3000 ∷ 0x3800 ∷ 0x4000 ∷ []

unfoldable pub sc_size : ℕ → ℕ
sc_size c = get_or sizeclass_sizes c 0

abbrev pub sc_block_size : ℕ
sc_block_size = 0x10000

-- A processor heap is its place in the array malloc_procheaps, a row of 32 for each executor; `none`
-- is NULL.
unfoldable pub find_heap : (size exec : ℕ) → Option ℕ
find_heap size exec =
    if leb size 0x40000 then some (exec * num_size_classes + malloc_size_class size) else none
