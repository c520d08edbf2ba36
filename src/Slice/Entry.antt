-- ===== src/Slice/Entry.antt =====
-- src/mm/slice.c: the lock-free list of unused descriptors.
pub mod Aba
pub mod Chain
pub mod Init
use masters_thesis.Base.{ℕ, Bool, true, false, Option, none, some, if◌then◌else◌}
use masters_thesis.Base.Interleave.{Window, Prog, retry}
use masters_thesis.Slice.Types.{Ptr, Slices, ptr_eq, set_entry}

-- `atomic_compare_and_set_ptr` on slice_free_list.
abbrev pub cas_free_list : (expect value : Ptr) → Slices → Bool × Slices
cas_free_list expect value s =
    if ptr_eq s.slice_free_list expect
    then (true, record s { slice_free_list = value })
    else (false, s)

-- `slice_opt_t` is an `Option`: `none` where o_valid is false.
unfoldable pub slice_entry_try_alloc : Window Slices → Slices → Option Ptr × Slices
slice_entry_try_alloc w s0 =
    let s = w.before s0 in
    let oldlist = s.slice_free_list in
    elim oldlist [
      | none ↦ (some none, s)
      | some i ↦
          let next = (s.slice_tab i).s_next in
          let (swapped, s') = cas_free_list (some i) next (w.between s) in
          (if swapped then some (some i) else none, s')
    ]

unfoldable pub slice_entry_alloc : Prog Slices Ptr
slice_entry_alloc = retry slice_entry_try_alloc

unfoldable pub slice_entry_try_free : ℕ → Window Slices → Slices → Option (Unit {0}) × Slices
slice_entry_try_free slice w s0 =
    let s = w.before s0 in
    let oldlist = s.slice_free_list in
    let s' = set_entry slice (λ e. record e { s_next = oldlist }) s in
    let (swapped, s'') = cas_free_list oldlist (some slice) (w.between s') in
    (if swapped then some tt else none, s'')

-- The loop that slice_alloc and slice_free run on it.
unfoldable pub slice_entry_free : ℕ → Prog Slices (Unit {0})
slice_entry_free slice = retry (slice_entry_try_free slice)
