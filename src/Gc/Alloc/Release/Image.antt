-- ===== src/Gc/Alloc/Release/Image.antt =====
-- src/mm/gc/gc_alloc.c: the new image of the heap at the end of a collection.
use masters_thesis.Base.{
  ℕ, zero, suc, ◌+◌, ◌<◌, ◌≡◌, refl, ap, ◌∙◌, Bool, ◌&&◌, ◌==◌, ltb, leb, if◌then◌else◌, arith,
}
use masters_thesis.Gc.Alloc.{
  GcHeap, Stack, used_slices, new_slices, null, is_stack, set_stack, set_space,
}
use masters_thesis.Gc.Alloc.Refresh.{slice_powers}
use masters_thesis.Gc.Alloc.Release.{
  for_each, count_as_free, new_to_used, new_count_to_used, start_new_image,
}

abbrev pub is_between : (first n i : ℕ) → Bool
is_between first n i = leb first i && ltb i (first + n)

row_used :
    (n j0 i : ℕ) (s : GcHeap) (k : Stack) (a b : ℕ)
    → (for_each (new_to_used i) n j0 s).stack k a b ≡ (
        if is_stack k used_slices && ((a == i) && is_between j0 n b)
        then s.stack new_slices i b
        else s.stack k a b)
row_used zero j0 i s k a b = ground arith
row_used (suc n) j0 i s k a b = ground (
  arith,
  row_used n (j0 + 1) i (new_to_used i j0 s) k a b,
  row_used n (j0 + 1) i (new_to_used i j0 s) new_slices i b,
)

rows_used :
    (m i0 n : ℕ) (s : GcHeap) (k : Stack) (a b : ℕ)
    → (for_each (λ i. for_each (new_to_used i) n 0) m i0 s).stack k a b ≡ (
        if is_stack k used_slices && (is_between i0 m a && is_between 0 n b)
        then s.stack new_slices a b
        else s.stack k a b)
rows_used zero i0 n s k a b = ground arith
rows_used (suc m) i0 n s k a b =
    let t = for_each (new_to_used i0) n 0 s in
    rows_used m (i0 + 1) n t k a b
    ∙ ground (arith, row_used n 0 i0 s k a b, row_used n 0 i0 s new_slices a b)

row_empty :
    (n j0 i : ℕ) (s : GcHeap) (k : Stack) (a b : ℕ)
    → (for_each (λ j. set_stack new_slices i j null) n j0 s).stack k a b
      ≡ (if is_stack k new_slices && ((a == i) && is_between j0 n b) then null else s.stack k a b)
row_empty zero j0 i s k a b = ground arith
row_empty (suc n) j0 i s k a b =
    ground (arith, row_empty n (j0 + 1) i (set_stack new_slices i j0 null s) k a b)

rows_empty :
    (m i0 n : ℕ) (s : GcHeap) (k : Stack) (a b : ℕ)
    → (for_each (λ i. for_each (λ j. set_stack new_slices i j null) n 0) m i0 s).stack k a b ≡ (
        if is_stack k new_slices && (is_between i0 m a && is_between 0 n b)
        then null
        else s.stack k a b)
rows_empty zero i0 n s k a b = ground arith
rows_empty (suc m) i0 n s k a b =
    let t = for_each (λ j. set_stack new_slices i0 j null) n 0 s in
    rows_empty m (i0 + 1) n t k a b ∙ ground (arith, row_empty n 0 i0 s k a b)

-- What each step of a loop leaves alone, the loop does.
for_each_keeps :
    {A : Type 0} (f : GcHeap → A) (body : ℕ → GcHeap → GcHeap)
    → ((i : ℕ) (s : GcHeap) → f (body i s) ≡ f s)
    → (n i : ℕ) (s : GcHeap) → f (for_each body n i s) ≡ f s
for_each_keeps f body keeps zero i s = refl
for_each_keeps f body keeps (suc n) i s =
    for_each_keeps f body keeps n (i + 1) (body i s) ∙ keeps i s

-- The slices of the stacks behind the loops.
pub image_stack :
    (gens : ℕ) (s : GcHeap) (k : Stack) (i j : ℕ)
    → i < slice_powers
    → j < gens
    → (start_new_image gens s).stack k i j ≡ (
        if is_stack k new_slices
        then null
        else if is_stack k used_slices
        then s.stack new_slices i j
        else s.stack k i j)
unfolding start_new_image
image_stack gens s k i j low gen =
    let freed = for_each count_as_free gens 0 s in
    let used = for_each (λ i. for_each (new_to_used i) gens 0) slice_powers 0 freed in
    let moved = for_each new_count_to_used gens 0 used in
    ground (
      arith,
      rows_empty slice_powers 0 gens moved k i j,
      ap (λ (f : Stack → ℕ → ℕ → ℕ). f k i j)
          (for_each_keeps (λ t. t.stack) new_count_to_used (λ _ _. refl) gens 0 used),
      rows_used slice_powers 0 gens freed k i j,
      ap (λ (f : Stack → ℕ → ℕ → ℕ). f k i j)
          (for_each_keeps (λ t. t.stack) count_as_free (λ _ _. refl) gens 0 s),
      ap (λ (f : Stack → ℕ → ℕ → ℕ). f new_slices i j)
          (for_each_keeps (λ t. t.stack) count_as_free (λ _ _. refl) gens 0 s),
    )

module _ {A : Type 0} (f : GcHeap → A) (gens : ℕ) where
  moves_keep :
      ((k : Stack) (i j v : ℕ) (s : GcHeap) → f (set_stack k i j v s) ≡ f s)
      → (s : GcHeap) → f (for_each (λ i. for_each (new_to_used i) gens 0) slice_powers 0 s) ≡ f s
  moves_keep keeps s =
      for_each_keeps f (λ i. for_each (new_to_used i) gens 0)
        (λ i. for_each_keeps f (new_to_used i) (λ j t. keeps used_slices i j _ t) gens 0)
        slice_powers 0 s

  empties_keep :
      ((k : Stack) (i j v : ℕ) (s : GcHeap) → f (set_stack k i j v s) ≡ f s)
      → (s : GcHeap)
      → f (for_each (λ i. for_each (λ j. set_stack new_slices i j null) gens 0) slice_powers 0 s)
        ≡ f s
  empties_keep keeps s =
      for_each_keeps f (λ i. for_each (λ j. set_stack new_slices i j null) gens 0)
        (λ i.
          for_each_keeps f (λ j. set_stack new_slices i j null) (λ j t. keeps new_slices i j null t)
            gens 0)
        slice_powers 0 s

  -- What no loop changes.
  pub image_keeps :
      ((k : Stack) (i j v : ℕ) (s : GcHeap) → f (set_stack k i j v s) ≡ f s)
      → ((a j v : ℕ) (s : GcHeap) → f (set_space a j v s) ≡ f s)
      → (s : GcHeap) → f (start_new_image gens s) ≡ f s
  unfolding start_new_image
  image_keeps stacks spaces s =
      let freed = for_each count_as_free gens 0 s in
      let used = for_each (λ i. for_each (new_to_used i) gens 0) slice_powers 0 freed in
      let moved = for_each new_count_to_used gens 0 used in
      empties_keep stacks moved
      ∙ for_each_keeps f new_count_to_used (λ i t. spaces _ _ _ _ ∙ spaces _ _ _ t) gens 0 used
      ∙ moves_keep stacks freed
      ∙ for_each_keeps f count_as_free (λ i t. spaces _ _ _ t) gens 0 s
