-- ===== src/Gc/Examples.antt =====
-- The theorems on headers and on allocation at concrete inputs.
use masters_thesis.Base.{
  ℕ, ◌*◌, ◌≡◌, ◌⊎◌, refl, true, false, ◌&&◌, none, some, List, [], ◌∷◌, ◌==◌, if◌then◌else◌, arith,
}
use masters_thesis.Base.Exit.{returned}
use masters_thesis.Base.Interleave.{Window, quiet, Keeps, retry}
use masters_thesis.Gc.Desc.{Words, gc_header_init_normal, gc_header_init_array, gc_header_array_len}
use masters_thesis.Gc.Alloc.{
  gc_allocator_limit_check, gc_allocator_total_used_space, gc_allocator_total_new_space,
  gc_allocator_total_free_space, try_snapshot, read_spaces, gc_allocator_alloc_slice, try_pop_slice,
  try_push_slice, try_add_used, try_sub_free, gc_allocator_check_activate_collector, GcHeap,
  free_slices, used_slices, is_stack, gc_allocator_update_sizes,
}
use masters_thesis.Gc.Alloc.Refresh.{
  gc_allocator_refresh, gc_allocator_do_refresh, find_slice, count_down, reuse_if_allowed,
  reuse_slice, slice_power, bitscan_high, high_bit,
}
use masters_thesis.Gc.Alloc.Bump.{gc_allocator_alloc}
use masters_thesis.Gc.Alloc.Bump.Laws.{alloc_each, in_two_steps, prealloc-postalloc}
use masters_thesis.Gc.Desc.Fields.{Reads, init-Reads}

-- A quiet window keeps everything.
quiet-Keeps : {A : Type 0} {f : GcHeap → A} → Keeps f quiet
quiet-Keeps = record { before = λ _. refl; between = λ _. refl }

-- A memory whose words are all 0xee.
abbrev old : Words
old _ = 0xee

-- A length of 12 reads as 0xee, a next generation of 5 and a count of 9 as 0.
init-Reads_example :
    Reads 0x40 0 0x8000 3 2 0 0 100 (gc_header_init_normal 0x40 0x8003 3 2 5 9 100 old)
    × Reads 0x40 0 0x8000 3 2 0 0 100 (gc_header_init_array 0x40 0x8003 3 2 5 9 12 100 old)
    × (gc_header_array_len 100 (gc_header_init_array 0x40 0x8003 3 2 5 9 12 100 old) ≡ 0xee)
init-Reads_example =
    init-Reads 0x40 0x8003 3 2 5 9 12 100 old (omega arith) (omega arith) (omega arith)
      (omega arith) (omega arith) (omega arith)

-- The generation 1 has the free slices 10 and 11 of the power 0, the used slice 12 and the new
-- slice 13. The arrays of the counters stand at 100, 200 and 300; the allocator 1 has 0x20 bytes
-- left.
abbrev some_heap : GcHeap
some_heap = record {
  stack = λ k i j.
      if (i == 0) && (j == 0)
      then (if is_stack k free_slices then 10 else if is_stack k used_slices then 12 else 13)
      else 0;
  slice = λ a. record { s_ptr = 0x4000 * a; s_size = 0x4000; s_next = if a == 10 then 11 else 0 };
  space = λ a j.
      if (a == 100) && (j == 0) then 0x4000 else if (a == 200) && (j == 0) then 0x8000 else 0x4000;
  gc_used_space = 100;
  gc_free_space = 200;
  gc_new_space = 300;
  gc_num_generations = 1;
  allocator = λ _. record { from = 0x1000; to = 0x1020 };
  fresh = (20, 0x90000) ∷ [];
  is_above_hard_ratio = λ _ _. true;
  is_above_soft_ratio = λ _ _. false;
  gc_state = 0;
  gc_state_inactive = 0;
  gc_state_phase = 3;
  gc_state_initial = 1;
}

-- The lists of some_heap.
abbrev free_lists : ℕ → ℕ → List ℕ
free_lists i j = if (i == 0) && (j == 0) then 10 ∷ 11 ∷ [] else []

abbrev used_lists : ℕ → ℕ → List ℕ
used_lists i j = if (i == 0) && (j == 0) then 12 ∷ [] else []

-- Objects of 16 and 8 bytes.
prealloc-postalloc_example :
    (u : GcHeap) × (alloc_each (λ size. gc_allocator_alloc 1 size 1) (16 ∷ 8 ∷ []) [] some_heap
      ≡ some (returned 0x1000 ∷ returned 0x1010 ∷ [], [], u))
    × (alloc_each (in_two_steps 1 1) (16 ∷ 8 ∷ []) [] some_heap
        ≡ some (returned 0x1000 ∷ returned 0x1010 ∷ [], [], u))
    × ((u.allocator 1).from ≡ 0x1018)
    × ((u.allocator 1).to ≡ (some_heap.allocator 1).to)
    × ((a : ℕ) → (a ≡ 1) ⊎ (u.allocator a ≡ some_heap.allocator a))
    × (u.stack ≡ some_heap.stack)
prealloc-postalloc_example = prealloc-postalloc 1 1 (16 ∷ 8 ∷ []) [] some_heap (omega arith)

-- gc_used_space holds the number that is also the used space: a refresh for the program ends.
abbrev lucky_heap : GcHeap
lucky_heap = record some_heap {
  space = λ a _. if a == 300 then 0 else a;
  slice = λ a. record { s_ptr = 0x4000 * a; s_size = 0x4000; s_next = 0 };
}

abbrev eleven : List (Window GcHeap)
eleven = quiet ∷ quiet ∷ quiet ∷ quiet ∷ quiet ∷ quiet ∷ quiet ∷ quiet ∷ quiet ∷ quiet ∷ quiet ∷ []

abbrev after_refresh : GcHeap
unfolding gc_allocator_refresh gc_allocator_do_refresh find_slice count_down reuse_if_allowed
    reuse_slice gc_allocator_limit_check gc_allocator_total_used_space gc_allocator_total_new_space
    gc_allocator_total_free_space try_snapshot read_spaces gc_allocator_alloc_slice try_pop_slice
    try_push_slice gc_allocator_update_sizes try_add_used try_sub_free
    gc_allocator_check_activate_collector slice_power bitscan_high high_bit retry
after_refresh = elim (gc_allocator_refresh 1 0x100 0x4000 1 eleven lucky_heap) [
  | none ↦ lucky_heap
  | some (r, ws, t) ↦ t
]

refreshed :
    gc_allocator_refresh 1 0x100 0x4000 1 eleven lucky_heap
    ≡ some (returned true, [], after_refresh)
unfolding gc_allocator_refresh gc_allocator_do_refresh find_slice count_down reuse_if_allowed
    reuse_slice gc_allocator_limit_check gc_allocator_total_used_space gc_allocator_total_new_space
    gc_allocator_total_free_space try_snapshot read_spaces gc_allocator_alloc_slice try_pop_slice
    try_push_slice gc_allocator_update_sizes try_add_used try_sub_free
    gc_allocator_check_activate_collector slice_power bitscan_high high_bit retry
refreshed = refl
