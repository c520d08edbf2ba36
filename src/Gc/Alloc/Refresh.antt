-- ===== src/Gc/Alloc/Refresh.antt =====
-- src/mm/gc/gc_alloc.c: an allocator gets a slice.
pub mod Starved
use masters_thesis.Base.{
  ℕ, zero, suc, ◌+◌, ◌-◌, ◌/◌, ◌^◌, Bool, true, false, not, Option, none, some, List, [], ◌∷◌, ◌==◌,
  ltb, leb, if◌then◌else◌,
}
use masters_thesis.Base.Word.{add32, sub32}
use masters_thesis.Base.Exit.{Exit, returned, crashed}
use masters_thesis.Base.Interleave.{Window, Prog, pure, once, retry, modify, gets, ◌>>=◌, ◌>>◌}
use masters_thesis.Gc.Alloc.{
  GcHeap, Stack, free_slices, used_slices, new_slices, null, set_slice, set_allocator,
  try_push_slice, gc_allocator_alloc_slice, gc_allocator_limit_check, gc_allocator_update_sizes,
}

abbrev pub min_slice_power : ℕ
min_slice_power = 14

abbrev pub max_slice_power : ℕ
max_slice_power = 31

-- `((MAX_SLICE_POWER) - (MIN_SLICE_POWER)) + 1`
abbrev pub slice_powers : ℕ
slice_powers = 18

-- The place of the highest bit that is set, for a word that is not 0.
unfoldable pub high_bit : (rounds word : ℕ) → ℕ
high_bit zero word = 0
high_bit (suc n) word = let above = high_bit n (word / 2) in if ltb word 2 then 0 else above + 1

unfoldable pub bitscan_high : (word : ℕ) → ℕ
bitscan_high word = high_bit 31 word

unfoldable pub slice_power : (size : ℕ) → ℕ
slice_power size =
    let raw_power = bitscan_high size in
    if ltb min_slice_power raw_power then raw_power - min_slice_power else 0

-- `0x1 << (i + MIN_SLICE_POWER)`
abbrev pub power_size : (i : ℕ) → ℕ
power_size i = 2 ^ (i + min_slice_power)

-- `for_gc || gc_allocator_limit_check(0x1 << (i + MIN_SLICE_POWER))`
abbrev pub is_allowed : (for_gc : Bool) (i : ℕ) → Prog GcHeap Bool
is_allowed for_gc i = if for_gc then pure true else gc_allocator_limit_check (power_size i)

-- A free slice goes to the used slices, or to the new ones if it is for the collector, and its
-- size is counted.
unfoldable pub reuse_slice : (gen : ℕ) (for_gc : Bool) (i : ℕ) → Prog GcHeap ℕ
reuse_slice gen for_gc i = do
  slice ←
      gc_allocator_alloc_slice free_slices (if not for_gc then used_slices else new_slices) i
        (gen - 1)
  if slice == null
      then pure null
      else (do gc_allocator_update_sizes (power_size i) gen false for_gc; pure slice)

-- The body of the first loop.
unfoldable pub reuse_if_allowed : (gen : ℕ) (for_gc : Bool) (i : ℕ) → Prog GcHeap ℕ
reuse_if_allowed gen for_gc i = do
  ok ← is_allowed for_gc i
  if ok then reuse_slice gen for_gc i else pure null

-- `for(i = target_slice_power; i >= min_slice_power && NULL == slice; i--)` with an unsigned i:
-- below 0 it goes on at UINT_MAX, outside of the arrays, which counts as a crash.
unfoldable pub count_down : (body : ℕ → Prog GcHeap ℕ) (i min_power : ℕ) → Prog GcHeap (Exit ℕ)
count_down body zero min_power =
    if leb min_power 0
    then (do slice ← body 0; pure (if slice == null then crashed else returned slice))
    else pure (returned null)
count_down body (suc i) min_power =
    if leb min_power (suc i)
    then (do
      slice ← body (suc i)
      if slice == null then count_down body i min_power else pure (returned slice))
    else pure (returned null)

-- The second loop, whose condition also asks for the limit.
unfoldable pub count_up : (gen : ℕ) (for_gc : Bool) (rounds i : ℕ) → Prog GcHeap ℕ
count_up gen for_gc zero i = pure null
count_up gen for_gc (suc n) i = do
  ok ← is_allowed for_gc i
  slice ← (if ok then reuse_slice gen for_gc i else pure null)
  if ok then (if slice == null then count_up gen for_gc n (i + 1) else pure slice) else pure null

-- The slice that slice_alloc returns, with the size asked for.
abbrev pub fresh_slice : (size : ℕ) → List (ℕ × ℕ) → GcHeap → ℕ × GcHeap
fresh_slice size [] s = (null, s)
fresh_slice size ((out, ptr) ∷ more) s =
    (out, record (set_slice out (λ r. record r { s_ptr = ptr; s_size = size }) s) { fresh = more })

-- The body of the third loop: a new slice for the collector goes to the used slices, another one
-- to the new slices.
unfoldable pub insert_fresh : (gen : ℕ) (for_gc : Bool) (i : ℕ) → Prog GcHeap ℕ
insert_fresh gen for_gc i = do
  slice ← once (λ w s. fresh_slice (power_size i) (w.before s).fresh (w.before s))
  if slice == null then pure null else (do
    retry (try_push_slice (if for_gc then used_slices else new_slices) i (gen - 1) slice)
    gc_allocator_update_sizes (power_size i) gen true for_gc
    pure slice)

-- The three loops, each of which is left out where there is a slice already.
unfoldable pub find_slice : (min target gen : ℕ) (for_gc : Bool) → Prog GcHeap (Exit ℕ)
find_slice min target gen for_gc = do
  first ← count_down (reuse_if_allowed gen for_gc) (slice_power target) (slice_power min)
  elim first [
    | crashed ↦ pure crashed
    | returned slice ↦ if not (slice == null) then pure (returned slice) else (do
      second ← count_up gen for_gc (slice_powers - (slice_power min + 1)) (slice_power min + 1)
      if not (second == null)
          then pure (returned second)
          else count_down (insert_fresh gen for_gc) (slice_power target) (slice_power min))
  ]

abbrev pub give_slice : (allocator slice : ℕ) → GcHeap → GcHeap
give_slice allocator slice s =
    let r = s.slice slice in
    set_allocator allocator (λ _. record { from = r.s_ptr; to = r.s_ptr + r.s_size }) s

unfoldable pub gc_allocator_do_refresh :
    (allocator min target gen : ℕ) (for_gc : Bool) → Prog GcHeap (Exit Bool)
gc_allocator_do_refresh allocator min target gen for_gc = do
  found ← find_slice min target gen for_gc
  elim found [
    | crashed ↦ pure crashed
    | returned slice ↦
        if slice == null
        then pure (returned false)
        else (do modify (give_slice allocator slice); pure (returned true))
  ]

unfoldable pub gc_allocator_refresh : (allocator min target gen : ℕ) → Prog GcHeap (Exit Bool)
gc_allocator_refresh allocator min target gen =
    gc_allocator_do_refresh allocator min target gen false
