-- ===== src/Malloc/SizeClass/Bounds.antt =====
-- The class of a request: within the table or past its end, and large enough.
use masters_thesis.Base.{
  ℕ, ◌+◌, ◌*◌, ◌/◌, ◌%◌, ◌≤◌, ◌<◌, ◌≡◌, refl, zero, suc, Bool, true, ◌&&◌, ◌||◌, ◌⊎◌, some, leb,
  arith,
}
use masters_thesis.Malloc.SizeClass.{
  malloc_size_class, sc_size, find_heap, sc_block_size, num_size_classes, cache_line_size,
}

-- Every size below 0x3f00 has a class in the table.
class_in_table : (size : ℕ) → size < 0x3f00 → malloc_size_class size < num_size_classes
unfolding malloc_size_class
class_in_table size h = ground arith

-- From 0x3f00 to 0x4000 the class is 32, one past the end of the table.
class_past_table :
    (size : ℕ) → 0x3f00 ≤ size → size ≤ 0x4000 → malloc_size_class size ≡ num_size_classes
unfolding malloc_size_class
class_past_table size lo hi = ground arith

-- Sizes in one cache line have one class, so a property of all sizes is checked at 504 of them.
class_of_line : (size : ℕ) → malloc_size_class size ≡ malloc_size_class (size / 32 * 32)
unfolding malloc_size_class
class_of_line size = ground arith

all_below : ℕ → (ℕ → Bool) → Bool
all_below zero p = true
all_below (suc n) p = p n && all_below n p

all_below_sound : (n : ℕ) (p : ℕ → Bool) (k : ℕ) → all_below n p ≡ true → k < n → p k ≡ true
unfolding all_below
all_below_sound zero p k h lt = absurd (omega arith)
all_below_sound (suc n) p k h lt = ground (arith, all_below_sound n p k)

-- The class of line `k` holds every size of the line, and from line 1 on its superblock has so few
-- blocks that their number fits the fields of an anchor.
line_fits : ℕ → Bool
line_fits k =
    let sc = sc_size (malloc_size_class (k * 32)) in
    leb (k * 32 + 32) sc && (leb k 0 || leb (sc_block_size / sc) 1024) && leb sc 0x4000

lines_fit : all_below 504 line_fits ≡ true
unfolding all_below line_fits sc_size malloc_size_class
lines_fit = refl

line_fits_at : (size : ℕ) → size < 0x3f00 → line_fits (size / 32) ≡ true
line_fits_at size h = all_below_sound 504 line_fits (size / 32) lines_fit (omega arith)

-- Every size below 0x3f00 that counts the cache line which `malloc_lf` adds has a class of the table
-- whose blocks are larger than the size and no larger than 0x4000 bytes, and the superblock of the
-- class has at most 1024 blocks, so that the 10-bit avail field of an anchor can name each.
pub class_fits :
    (size : ℕ)
    → cache_line_size ≤ size
    → size < 0x3f00
    → (malloc_size_class size < num_size_classes)
      × (size < sc_size (malloc_size_class size))
      × (sc_size (malloc_size_class size) ≤ 0x4000)
      × (sc_block_size / sc_size (malloc_size_class size) ≤ 1024)
unfolding line_fits
class_fits size line h = rw (class_of_line size) (
    let fits = line_fits_at size h in
    (
      omega (arith, class_of_line size, class_in_table size h),
      ground arith,
      ground arith,
      ground arith,
    ))

-- No size has one of the classes 8 to 11: from 0x100 on the classes start at 12, whose blocks have
-- 0x280 bytes.
pub classes_skipped : (size : ℕ) → (malloc_size_class size < 8) ⊎ (12 ≤ malloc_size_class size)
unfolding malloc_size_class
classes_skipped size = ground arith

-- A heap found for a size below 0x3f00 stands in the executor's own row of the array, at the column
-- of the size's class, so that executors do not share heaps.
pub find_heap_row :
    (size exec : ℕ)
    → size < 0x3f00
    → (find_heap size exec ≡ some (exec * num_size_classes + malloc_size_class size))
      × ((exec * num_size_classes + malloc_size_class size) / num_size_classes ≡ exec)
      × ((exec * num_size_classes + malloc_size_class size) % num_size_classes
          ≡ malloc_size_class size)
unfolding find_heap
find_heap_row size exec h =
    (ground arith, omega (arith, class_in_table size h), omega (arith, class_in_table size h))

-- For a size from 0x3f00 to 0x4000, `find_heap` of an executor gives the heap of the 32-byte class
-- of the next executor.
pub find_heap_overrun :
    (size exec : ℕ)
    → 0x3f00 ≤ size
    → size ≤ 0x4000
    → (find_heap size exec ≡ find_heap 0 (exec + 1)) × (sc_size (malloc_size_class 0) ≡ 32)
unfolding find_heap malloc_size_class sc_size
find_heap_overrun size exec lo hi = (ground arith, refl)
