-- ===== src/Gc/Alloc/Bump.antt =====
-- src/mm/gc/gc_alloc.c: memory for an object from an allocator.
pub mod Laws
use masters_thesis.Base.{
  ℕ, ◌+◌, ◌*◌, ◌/◌, ◌%◌, ◌^◌, Bool, true, false, Option, none, some, List, [], ◌∷◌, ltb, leb,
  if◌then◌else◌,
}
use masters_thesis.Base.Exit.{Exit, returned, crashed}
use masters_thesis.Base.Interleave.{Prog, pure, modify, gets, ◌>>=◌, ◌>>◌}
use masters_thesis.Gc.Alloc.{GcHeap, Allocator, null, set_allocator}
use masters_thesis.Gc.Alloc.Refresh.{
  min_slice_power, max_slice_power, gc_allocator_do_refresh, gc_allocator_refresh,
}

unfoldable pub get_target_size : (min : ℕ) → ℕ
get_target_size min =
    let max_size = 2 ^ max_slice_power in
    let min_size = 2 ^ min_slice_power in
    let default_size = min * 8 % 2 ^ 32 in
    if ltb min (max_size / 8)
    then (if ltb min_size default_size then default_size else min_size)
    else max_size

-- `out = allocator[0]; allocator[0] = newptr;`
abbrev pub advance : (allocator newptr : ℕ) → Prog GcHeap (Exit ℕ)
advance allocator newptr ws s = some (
  returned (s.allocator allocator).from,
  ws,
  set_allocator allocator (λ a. record a { from = newptr }) s,
)

-- `if(newptr <= allocator[1])`, the body, and otherwise a call of panic.
abbrev pub if_enough : (allocator newptr : ℕ) → Prog GcHeap (Exit ℕ) → Prog GcHeap (Exit ℕ)
if_enough allocator newptr body ws s =
    if leb newptr (s.allocator allocator).to then body ws s else some (crashed, ws, s)

-- What follows a refresh: without one the result is NULL.
abbrev pub if_refreshed : Exit Bool → Prog GcHeap (Exit ℕ) → Prog GcHeap (Exit ℕ)
if_refreshed crashed body = pure crashed
if_refreshed (returned false) body = pure (returned null)
if_refreshed (returned true) body = body

-- newptr is computed before the refresh.
unfoldable pub gc_allocator_alloc : (allocator size gen : ℕ) → Prog GcHeap (Exit ℕ)
gc_allocator_alloc allocator size gen ws s =
    let target = get_target_size size in
    let newptr = (s.allocator allocator).from + size in
    if leb newptr (s.allocator allocator).to
    then advance allocator newptr ws s
    else ((do
      refreshed ← gc_allocator_refresh allocator size target gen
      if_refreshed refreshed (if_enough allocator newptr (advance allocator newptr)))
        ws s)

-- closure->gth_allocators[gen - 1] is the allocator.
unfoldable pub gc_allocator_gc_prealloc : (allocator size gen : ℕ) → Prog GcHeap (Exit ℕ)
gc_allocator_gc_prealloc allocator size gen ws s =
    let target = get_target_size size in
    let newptr = (s.allocator allocator).from + size in
    let peek = gets (λ t. returned (t.allocator allocator).from) in
    if leb newptr (s.allocator allocator).to
    then peek ws s
    else ((do
      refreshed ← gc_allocator_do_refresh allocator size target gen true
      if_refreshed refreshed (if_enough allocator newptr peek))
        ws s)

unfoldable pub gc_allocator_gc_postalloc : (allocator size : ℕ) → GcHeap → Exit (Unit {0}) × GcHeap
gc_allocator_gc_postalloc allocator size s =
    let newptr = (s.allocator allocator).from + size in
    if leb newptr (s.allocator allocator).to
    then (returned tt, set_allocator allocator (λ a. record a { from = newptr }) s)
    else (crashed, s)
