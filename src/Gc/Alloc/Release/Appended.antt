-- ===== src/Gc/Alloc/Release/Appended.antt =====
-- src/mm/gc/gc_alloc.c: the free slices behind gc_allocator_release_slices.
use masters_thesis.Base.{ℕ, ◌≤◌, Bool, ◌&&◌, ◌||◌, List, ◌==◌, length}
use masters_thesis.Gc.Alloc.Release.Separate.{AreSeparate}
use masters_thesis.Gc.Alloc.Release.Image.{is_between}

module _ (free used : ℕ → ℕ → List ℕ) (sep : AreSeparate free used) (fuel : ℕ)
    (fits : (i j : ℕ) → length (free i j) ≤ fuel) where
  abbrev row_done : (done : ℕ → ℕ → Bool) (i rounds j : ℕ) → ℕ → ℕ → Bool
  row_done done i rounds j a b = done a b || ((a == i) && is_between j rounds b)

  abbrev rows_done : (done : ℕ → ℕ → Bool) (gens rounds i : ℕ) → ℕ → ℕ → Bool
  rows_done done gens rounds i a b = done a b || (is_between i rounds a && is_between 0 gens b)
