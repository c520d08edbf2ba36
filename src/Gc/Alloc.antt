-- ===== src/Gc/Alloc.antt =====
-- src/mm/gc/gc_alloc.c: the slices of the collector's heap and the counters of its space.
pub mod Refresh
pub mod Bump
pub mod Release
use masters_thesis.Base.{
  ℕ, zero, suc, ◌+◌, Bool, true, false, ◌&&◌, not, Option, none, some, List, [], ◌∷◌, ◌==◌, bit_and,
  if◌then◌else◌,
}
use masters_thesis.Base.Word.{add32, sub32}
use masters_thesis.Base.Interleave.{Window, Prog, pure, once, retry, modify, gets, ◌>>=◌, ◌>>◌}

-- The fields of slice_t that the allocator uses.
pub record GcSlice : Type 0 where
  pub s_ptr : ℕ
  pub s_size : ℕ
  pub s_next : ℕ

-- An allocator: the first free address, and the end.
pub record Allocator : Type 0 where
  pub from : ℕ
  pub to : ℕ

-- The three arrays of stacks, by the power of a slice's size and the index of its generation.
pub data Stack : Type 0 where
  free_slices : Stack
  used_slices : Stack
  new_slices : Stack

-- Slices and allocators stand at addresses, 0 being NULL. `stack` has gc_free_slices,
-- gc_used_slices and gc_new_slices. `space` is the memory of counters, by an array's address and
-- an index; the variables gc_used_space, gc_free_space and gc_new_space hold addresses. `fresh`
-- has the address of each slice that a coming slice_alloc returns, and its memory's. The
-- comparisons of floats with gc_hard_ratio and gc_soft_ratio, and the GC_STATE values, are not
-- defined by this file.
pub record GcHeap : Type 0 where
  pub stack : Stack → (power index : ℕ) → ℕ
  pub slice : ℕ → GcSlice
  pub space : (array index : ℕ) → ℕ
  pub gc_used_space : ℕ
  pub gc_free_space : ℕ
  pub gc_new_space : ℕ
  pub gc_num_generations : ℕ
  pub allocator : ℕ → Allocator
  pub fresh : List (ℕ × ℕ)
  pub is_above_hard_ratio : (total_size total_used_size : ℕ) → Bool
  pub is_above_soft_ratio : (total_size used_size : ℕ) → Bool
  pub gc_state : ℕ
  pub gc_state_inactive : ℕ
  pub gc_state_phase : ℕ
  pub gc_state_initial : ℕ

abbrev pub null : ℕ
null = 0

abbrev pub is_stack : Stack → Stack → Bool
is_stack free_slices free_slices = true
is_stack used_slices used_slices = true
is_stack new_slices new_slices = true
is_stack _ _ = false

abbrev pub set_stack : Stack → (power index value : ℕ) → GcHeap → GcHeap
set_stack k i j v s = record s {
  stack = λ k' i' j'. if is_stack k' k && (i' == i) && (j' == j) then v else s.stack k' i' j';
}

abbrev pub set_slice : ℕ → (GcSlice → GcSlice) → GcHeap → GcHeap
set_slice a f s = record s { slice = λ b. if b == a then f (s.slice b) else s.slice b }

abbrev pub set_s_next : (slice next : ℕ) → GcHeap → GcHeap
set_s_next a next = set_slice a (λ r. record r { s_next = next })

abbrev pub set_space : (array index value : ℕ) → GcHeap → GcHeap
set_space a j v s = record s { space = λ b k. if (b == a) && (k == j) then v else s.space b k }

abbrev pub set_allocator : ℕ → (Allocator → Allocator) → GcHeap → GcHeap
set_allocator a f s = record s {
  allocator = λ b. if b == a then f (s.allocator b) else s.allocator b;
}

abbrev pub cas_stack : Stack → (power index expect value : ℕ) → GcHeap → Bool × GcHeap
cas_stack k i j expect value s =
    if s.stack k i j == expect then (true, set_stack k i j value s) else (false, s)

-- A round of the loop that takes a slice from the source.
unfoldable pub try_pop_slice :
    (src : Stack) (power index : ℕ) → Window GcHeap → GcHeap → Option ℕ × GcHeap
try_pop_slice src i j w s0 =
    let s = w.before s0 in
    let out = s.stack src i j in
    let (done, s') = cas_stack src i j out (s.slice out).s_next (w.between s) in
    if out == null then (some null, s) else (if done then some out else none, s')

-- A round of the loop that puts a slice on the destination.
unfoldable pub try_push_slice :
    (dst : Stack) (power index slice : ℕ) → Window GcHeap → GcHeap → Option (Unit {0}) × GcHeap
try_push_slice dst i j out w s0 =
    let s = w.before s0 in
    let dst_value = s.stack dst i j in
    let (done, s') = cas_stack dst i j dst_value out (w.between (set_s_next out dst_value s)) in
    (if done then some tt else none, s')

unfoldable pub gc_allocator_alloc_slice : (src dst : Stack) (power index : ℕ) → Prog GcHeap ℕ
gc_allocator_alloc_slice src dst i j = do
  out ← retry (try_pop_slice src i j)
  if out == null then pure null else (do retry (try_push_slice dst i j out); pure out)

-- The others may act before each read; `k` counts the reads.
unfoldable pub read_spaces :
    (rounds index k : ℕ) → (GcHeap → ℕ) → Window GcHeap → GcHeap → List ℕ × GcHeap
read_spaces zero j k base w s = ([], s)
read_spaces (suc n) j k base w s0 =
    let s = w.later k s0 in
    let (values, s') = read_spaces n (j + 1) (k + 1) base w s in (s.space (base s) j ∷ values, s')

abbrev pub are_equal : List ℕ → List ℕ → Bool
are_equal [] [] = true
are_equal (a ∷ as') (b ∷ bs) = (a == b) && are_equal as' bs
are_equal _ _ = false

abbrev pub sum32 : List ℕ → ℕ
sum32 [] = 0
sum32 (a ∷ as') = add32 a (sum32 as')

-- A round of the snapshot: each counter is read twice, and the values must be the same.
unfoldable pub try_snapshot : (GcHeap → ℕ) → Window GcHeap → GcHeap → Option ℕ × GcHeap
try_snapshot base w s =
    let (snapshot, s1) = read_spaces s.gc_num_generations 0 0 base w s in
    let (again, s2) = read_spaces s.gc_num_generations 0 s.gc_num_generations base w s1 in
    (if are_equal snapshot again then some (sum32 snapshot) else none, s2)

unfoldable pub gc_allocator_total_used_space : Prog GcHeap ℕ
gc_allocator_total_used_space = retry (try_snapshot (λ s. s.gc_used_space))

unfoldable pub gc_allocator_total_new_space : Prog GcHeap ℕ
gc_allocator_total_new_space = retry (try_snapshot (λ s. s.gc_new_space))

unfoldable pub gc_allocator_total_free_space : Prog GcHeap ℕ
gc_allocator_total_free_space = retry (try_snapshot (λ s. s.gc_free_space))

unfoldable pub gc_allocator_limit_check : (req_size : ℕ) → Prog GcHeap Bool
gc_allocator_limit_check req_size = do
  used_size ← gc_allocator_total_used_space
  new_size ← gc_allocator_total_new_space
  free_size ← gc_allocator_total_free_space
  gets (λ s.
      s.is_above_hard_ratio (add32 (add32 used_size new_size) free_size) (add32 used_size req_size))

-- `GC_STATE_INACTIVE == gc_state.value & GC_STATE_PHASE && ratio >= gc_soft_ratio`: the comparison
-- binds first.
abbrev pub activate_collector :
    (total_size used_size : ℕ) → Window GcHeap → GcHeap → Unit {0} × GcHeap
activate_collector total_size used_size w s0 =
    let s = w.before s0 in
    let equal = if s.gc_state_inactive == s.gc_state then 1 else 0 in
    if not (bit_and equal s.gc_state_phase == 0) && s.is_above_soft_ratio total_size used_size
    then (tt, record (w.between s) { gc_state = s.gc_state_initial })
    else (tt, s)

unfoldable pub gc_allocator_check_activate_collector : Prog GcHeap (Unit {0})
gc_allocator_check_activate_collector = do
  used_size ← gc_allocator_total_used_space
  new_size ← gc_allocator_total_new_space
  free_size ← gc_allocator_total_free_space
  once (activate_collector (add32 (add32 used_size new_size) free_size) used_size)

-- The loops of gc_allocator_update_sizes: the compare-and-set is on the variable that holds the
-- array's address, not on the counter that was read.
unfoldable pub try_add_used :
    (req_size gen : ℕ) → Window GcHeap → GcHeap → Option (Unit {0}) × GcHeap
try_add_used req_size gen w s0 =
    let s = w.before s0 in
    let used_size = s.space s.gc_used_space (sub32 gen 1) in
    let t = w.between s in
    if t.gc_used_space == used_size
    then (some tt, record t { gc_used_space = add32 used_size req_size })
    else (none, t)

unfoldable pub try_add_new :
    (req_size gen : ℕ) → Window GcHeap → GcHeap → Option (Unit {0}) × GcHeap
try_add_new req_size gen w s0 =
    let s = w.before s0 in
    let new_size = s.space s.gc_new_space (sub32 gen 1) in
    let t = w.between s in
    if t.gc_new_space == new_size
    then (some tt, record t { gc_new_space = add32 new_size req_size })
    else (none, t)

unfoldable pub try_sub_free :
    (req_size gen : ℕ) → Window GcHeap → GcHeap → Option (Unit {0}) × GcHeap
try_sub_free req_size gen w s0 =
    let s = w.before s0 in
    let free_size = s.space s.gc_free_space (sub32 gen 1) in
    let t = w.between s in
    if t.gc_free_space == free_size
    then (some tt, record t { gc_free_space = sub32 free_size req_size })
    else (none, t)

unfoldable pub gc_allocator_update_sizes :
    (req_size gen : ℕ) (is_new for_gc : Bool) → Prog GcHeap (Unit {0})
gc_allocator_update_sizes req_size gen is_new for_gc = do
  if for_gc then retry (try_add_new req_size gen) else retry (try_add_used req_size gen)
  if is_new then pure tt else retry (try_sub_free req_size gen)
  if for_gc then pure tt else gc_allocator_check_activate_collector
