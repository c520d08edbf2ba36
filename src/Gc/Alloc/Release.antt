-- ===== src/Gc/Alloc/Release.antt =====
-- src/mm/gc/gc_alloc.c: the end of a collection. No other executor runs.
pub mod Appended
pub mod Lists
pub mod Separate
pub mod Image
use masters_thesis.Base.{
  ℕ, zero, suc, ◌+◌, Bool, true, false, Option, none, some, List, [], ◌∷◌, ◌==◌, if◌then◌else◌,
}
use masters_thesis.Base.Word.{add32, sub32}
use masters_thesis.Gc.Alloc.{
  GcHeap, free_slices, used_slices, new_slices, null, set_stack, set_s_next, set_space,
}
use masters_thesis.Gc.Alloc.Refresh.{slice_powers}

-- `while(NULL != curr->s_next) curr = curr->s_next;`, `none` where the fuel ends first.
unfoldable pub last_slice : (fuel curr : ℕ) → GcHeap → Option ℕ
last_slice zero curr s = none
last_slice (suc fuel) curr s =
    let rest = last_slice fuel (s.slice curr).s_next s in
    if (s.slice curr).s_next == null then some curr else rest

-- The free slices of a power and a generation, with the used ones behind them.
unfoldable pub append_used : (fuel i j : ℕ) → GcHeap → Option GcHeap
append_used fuel i j s =
    let curr = s.stack free_slices i j in
    if curr == null
    then some (set_stack free_slices i j (s.stack used_slices i j) s)
    else elim (last_slice fuel curr s) [
      | none ↦ none
      | some last ↦ some (set_s_next last (s.stack used_slices i j) s)
    ]

-- `for(j = 0; j < gen - 1; j++)` from j on.
unfoldable pub append_row : (fuel i rounds j : ℕ) → GcHeap → Option GcHeap
append_row fuel i zero j s = some s
append_row fuel i (suc n) j s = elim (append_used fuel i j s) [
  | none ↦ none
  | some t ↦ append_row fuel i n (j + 1) t
]

unfoldable pub append_rows : (fuel gens rounds i : ℕ) → GcHeap → Option GcHeap
append_rows fuel gens zero i s = some s
append_rows fuel gens (suc n) i s = elim (append_row fuel i gens 0 s) [
  | none ↦ none
  | some t ↦ append_rows fuel gens n (i + 1) t
]

-- `for(i; i < bound; i++)`, for `rounds` values of i.
abbrev pub for_each : (body : ℕ → GcHeap → GcHeap) (rounds i : ℕ) → GcHeap → GcHeap
for_each body zero i s = s
for_each body (suc n) i s = for_each body n (i + 1) (body i s)

abbrev pub count_as_free : (i : ℕ) → GcHeap → GcHeap
count_as_free i s =
    set_space s.gc_free_space i (add32 (s.space s.gc_free_space i) (s.space s.gc_used_space i)) s

abbrev pub new_to_used : (i j : ℕ) → GcHeap → GcHeap
new_to_used i j s = set_stack used_slices i j (s.stack new_slices i j) s

abbrev pub new_count_to_used : (i : ℕ) → GcHeap → GcHeap
new_count_to_used i s =
    let t = set_space s.gc_used_space i (s.space s.gc_new_space i) s in
    set_space t.gc_new_space i 0 t

-- The steps behind the appends.
unfoldable pub start_new_image : (gens : ℕ) → GcHeap → GcHeap
start_new_image gens s =
    let freed = for_each count_as_free gens 0 s in
    let used = for_each (λ i. for_each (new_to_used i) gens 0) slice_powers 0 freed in
    let counted = for_each new_count_to_used gens 0 used in
    for_each (λ i. for_each (λ j. set_stack new_slices i j null) gens 0) slice_powers 0 counted

unfoldable pub gc_allocator_release_slices : (fuel gen : ℕ) → GcHeap → Option GcHeap
gc_allocator_release_slices fuel gen s =
    let gens = sub32 gen 1 in
    elim (append_rows fuel gens slice_powers 0 s) [
      | none ↦ none
      | some t ↦ some (start_new_image gens t)
    ]
