-- ===== src/Malloc/Desc.antt =====
-- src/mm/malloc/lf_malloc.c: the lock-free list of unused descriptors.
pub mod Avail
pub mod Leak
use masters_thesis.Base.{
  ℕ, zero, suc, ◌+◌, ◌-◌, ◌*◌, ◌/◌, Bool, true, false, Option, none, some, ◌==◌, ltb, if◌then◌else◌,
}
use masters_thesis.Base.Interleave.{Window, Prog, retry}
use masters_thesis.Malloc.State.{
  Region, Descriptor, Mallocs, null, set_desc, take_slice, slice_free, cas_avail,
}

-- `sizeof(descriptor_t)` depends on the compiler and is an argument.
abbrev pub dessize : ℕ → ℕ
dessize size_of = if ltb size_of 64 then 64 else size_of

-- `for(i = 0; i < count - 1; i++) { addr->des_next = addr + dessize; addr += dessize; }`, with the
-- address where it ends.
unfoldable pub link_descs : (rounds dessize addr : ℕ) → Mallocs → ℕ × Mallocs
link_descs zero size addr s = (addr, s)
link_descs (suc n) size addr s =
    link_descs n size (addr + size) (set_desc addr (λ e. record e { des_next = addr + size }) s)

-- The list that is made of a new slice; it is installed if there is still none.
unfoldable pub desc_from_slice :
    (size_of : ℕ) → Region → Window Mallocs → Mallocs → Option ℕ × Mallocs
unfolding link_descs
desc_from_slice size_of r w s =
    let size = dessize size_of in
    let count = r.s_size / size in
    let newlist = r.s_ptr + size in
    let (last, linked) = link_descs (count - 1) size r.s_ptr s in
    let addr = last - size in
    let ended = set_desc addr (λ e. record e { des_next = null }) linked in
    let (swapped, s') = cas_avail null newlist (w.between ended) in
    if swapped then (some addr, s') else (none, slice_free r.slice s')

unfoldable pub try_desc_alloc : (size_of : ℕ) → Window Mallocs → Mallocs → Option ℕ × Mallocs
unfolding desc_from_slice
try_desc_alloc size_of w s0 =
    let s = w.before s0 in
    let desc = s.malloc_desc_avail in
    if desc == null
    then (let (slice, s') = take_slice s in
        elim slice [ none ↦ (none, s') | some r ↦ desc_from_slice size_of r w s' ])
    else (let next = (s.desc desc).des_next in
        let (swapped, s') = cas_avail desc next (w.between s) in
        (if swapped then some desc else none, s'))

unfoldable pub desc_alloc : (size_of : ℕ) → Prog Mallocs ℕ
desc_alloc size_of = retry (try_desc_alloc size_of)

unfoldable pub malloc_try_desc_retire : ℕ → Window Mallocs → Mallocs → Option (Unit {0}) × Mallocs
malloc_try_desc_retire desc w s0 =
    let s = w.before s0 in
    let oldhead = s.malloc_desc_avail in
    let s' = set_desc desc (λ e. record e { des_next = oldhead }) s in
    let (swapped, s'') = cas_avail oldhead desc (w.between s') in
    (if swapped then some tt else none, s'')

unfoldable pub malloc_desc_retire : ℕ → Prog Mallocs (Unit {0})
malloc_desc_retire desc = retry (malloc_try_desc_retire desc)
