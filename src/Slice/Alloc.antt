-- ===== src/Slice/Alloc.antt =====
-- src/mm/slice.c: the operations on slices that the allocators call.
pub mod Granted
pub mod Modes
pub mod Outcome
use masters_thesis.Base.{ℕ, Bool, true, false, Option, none, some, ◌∷◌, ◌==◌, if◌then◌else◌}
use masters_thesis.Base.Interleave.{Prog, pure, modify, gets, ◌>>=◌, ◌>>◌}
use masters_thesis.Os.Mem.{
  SliceProt, prot_index, OsCall, os_mem_map, os_mem_map_result, os_mem_unmap, os_mem_remap,
  os_mem_willneed, os_mem_dontneed, os_mem_release,
}
use masters_thesis.Slice.Types.{
  Ptr, Slice, SliceType, SliceUsage, used, unused, blank, Slices, set_entry,
}
use masters_thesis.Slice.Entry.{slice_entry_alloc, slice_entry_free}
use masters_thesis.Slice.Space.{slice_reserve_space}

abbrev pub call_os : OsCall → Slices → Slices
call_os c s = record s { os = c ∷ s.os }

-- The branch of slice_alloc that fails: a descriptor that was taken goes back to the list.
unfoldable pub alloc_failed : Ptr → Prog Slices Ptr
alloc_failed none = pure none
alloc_failed (some i) = do slice_entry_free i; pure none

-- `mapped` is what `mmap` returns.
unfoldable pub map_entry : (mapped : ℕ) → SliceType → SliceProt → (size : ℕ) → Ptr → Prog Slices Ptr
unfolding alloc_failed
map_entry mapped type prot size none = alloc_failed none
map_entry mapped type prot size (some i) = do
  modify (call_os (os_mem_map size prot))
  modify (set_entry i (λ e. record e { s_ptr = os_mem_map_result mapped }))
  if os_mem_map_result mapped == 0 then alloc_failed (some i) else do
    modify (set_entry i (λ e. record e { s_type = type; s_usage = blank; s_size = size }))
    pure (some i)

-- `failures` and `out` are the first values of local variables that the source does not initialise:
-- the one of slice_reserve_total_space, and `out`, which is read where the reservation fails.
unfoldable pub slice_alloc :
    (failures : ℕ) (out : Ptr) (mapped : ℕ) → SliceType → SliceProt → (size : ℕ) → Prog Slices Ptr
slice_alloc failures out mapped type prot size = do
  reserved ← slice_reserve_space failures size type
  if reserved
      then (do entry ← slice_entry_alloc; map_entry mapped type prot size entry)
      else alloc_failed out

unfoldable pub slice_free : ℕ → Prog Slices (Unit {0})
slice_free slice = do
  e ← gets (λ s. s.slice_tab slice)
  modify (call_os (os_mem_unmap e.s_ptr e.s_size))
  slice_entry_free slice

abbrev pub usage_eq : SliceUsage → SliceUsage → Bool
usage_eq used used = true
usage_eq unused unused = true
usage_eq blank blank = true
usage_eq _ _ = false

-- The switch of slice_set_usage.
abbrev pub usage_call : Slice → SliceUsage → OsCall
usage_call e used = os_mem_willneed e.s_ptr e.s_size
usage_call e unused = os_mem_dontneed e.s_ptr e.s_size
usage_call e blank = os_mem_release e.s_ptr e.s_size

unfoldable pub slice_set_usage : ℕ → SliceUsage → Slices → Slices
slice_set_usage slice usage s =
    let e = s.slice_tab slice in
    if usage_eq e.s_usage usage
    then s
    else call_os (usage_call e usage) (set_entry slice (λ d. record d { s_usage = usage }) s)

unfoldable pub slice_set_prot : ℕ → SliceProt → Slices → Slices
slice_set_prot slice prot s =
    let e = s.slice_tab slice in
    if prot_index e.s_prot == prot_index prot
    then s
    else set_entry slice (λ d. record d { s_prot = prot })
        (call_os (os_mem_remap e.s_ptr e.s_size prot) s)
