-- ===== src/Slice/Examples.antt =====
-- The theorems on slices at a concrete table.
use masters_thesis.Base.{
  ℕ, ◌+◌, ◌≡◌, refl, true, Option, some, none, List, [], ◌∷◌, ◌==◌, if◌then◌else◌, arith,
}
use masters_thesis.Base.Interleave.{Window, quiet}
use masters_thesis.Os.Mem.{SliceProt, os_mem_map, os_mem_map_result}
use masters_thesis.Slice.Types.{Slice, malloc, custom, used, blank, Slices}
use masters_thesis.Slice.Entry.{slice_entry_alloc}
use masters_thesis.Slice.Entry.Chain.{nil, cons, FreeList}
use masters_thesis.Slice.Entry.Aba.{entry_alloc_aba}
use masters_thesis.Slice.Space.{slice_reserve_total_space}
use masters_thesis.Slice.Alloc.{slice_alloc}
use masters_thesis.Slice.Alloc.Outcome.{SameCounters}
use masters_thesis.Slice.Alloc.Granted.{counted_in, slice_alloc_lem}

-- Two unused descriptors, 5 and 7, and limits that an allocation of 0x1000 bytes reaches.
abbrev entry : Option ℕ → Slice
entry next = record {
  s_size = 0;
  s_ptr = 0;
  s_type = custom;
  s_usage = used;
  s_prot = SliceProt.rw;
  s_next = next;
}

abbrev two_free : Slices
two_free = record {
  slice_tab = λ i. entry (if i == 5 then some 7 else none);
  slice_free_list = some 5;
  total_size = 0;
  malloc_size = 0;
  gc_size = 0;
  slice_size = 0x1000;
  total_limit = 0x1000;
  malloc_limit = 0x1000;
  gc_limit = 0x1000;
  os = [];
}

two_free-FreeList : FreeList two_free (5 ∷ 7 ∷ [])
two_free-FreeList = cons refl refl (cons refl refl nil)

-- In the first window another executor raises the total by 1.
abbrev raised : Window Slices
raised = record {
  before = λ s. s;
  between = λ s. record s { total_size = s.total_size + 1 };
  later = λ _ s. s;
}

raised_run :
    slice_reserve_total_space 0 0x1000 (raised ∷ quiet ∷ []) two_free
    ≡ some (true, [], record two_free { total_size = 0x1001 })
unfolding slice_reserve_total_space
raised_run = refl

-- Others take 5 and 7 and give 5 back.
abbrev swapped : Slices → Slices
swapped s = record s { slice_tab = λ i. entry none; slice_free_list = some 5 }

abbrev aba : Window Slices
aba = record { before = λ s. s; between = swapped; later = λ _ s. s }

entry_alloc_aba_example :
    (s' s'' : Slices) × (slice_entry_alloc (aba ∷ []) two_free ≡ some (some 5, [], s'))
    × (slice_entry_alloc (quiet ∷ []) s' ≡ some (some 7, [], s''))
entry_alloc_aba_example =
    entry_alloc_aba aba [] two_free 5 7 [] [] two_free-FreeList (cons refl refl nil) refl

-- The first call of mmap gives memory at 0x5000, the second one fails.
slice_alloc_lem_example :
    ((vs : List (Window Slices)) × (u : Slices) × (slice_alloc 0 none 0x5000 malloc SliceProt.rwx
          0x1000
          (quiet ∷ quiet ∷ quiet ∷ quiet ∷ [])
          two_free
        ≡ some (some 5, vs, u))
      × FreeList u (7 ∷ [])
      × ((j : ℕ)
          → u.slice_tab j ≡ (
              if j == 5
              then record (two_free.slice_tab 5) {
                s_ptr = os_mem_map_result 0x5000;
                s_type = malloc;
                s_usage = blank;
                s_size = 0x1000;
              }
              else two_free.slice_tab j))
      × SameCounters u (counted_in malloc 0x1000 two_free)
      × (u.os ≡ os_mem_map 0x1000 SliceProt.rwx ∷ []))
    × ((vs : List (Window Slices)) × (u : Slices) × (slice_alloc 0 none 0xffffffff malloc
            SliceProt.rwx 0x1000
            (quiet ∷ quiet ∷ quiet ∷ quiet ∷ [])
            two_free
          ≡ some (none, vs, u))
        × FreeList u (5 ∷ 7 ∷ [])
        × SameCounters u (counted_in malloc 0x1000 two_free)
        × (u.os ≡ os_mem_map 0x1000 SliceProt.rwx ∷ []))
unfolding os_mem_map_result
slice_alloc_lem_example =
    slice_alloc_lem malloc SliceProt.rwx 0 0x1000 0x5000 0xffffffff 5 (7 ∷ []) [] two_free
      (omega arith) (omega arith) (omega arith) (omega arith) two_free-FreeList (omega arith) refl
