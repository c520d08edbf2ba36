-- ===== src/Slice/Space.antt =====
-- src/mm/slice.c: the counters of reserved space, total, for malloc and for the collector.
pub mod Interfered
pub mod Limits
use masters_thesis.Base.{
  ℕ, Bool, true, false, Option, none, some, [], ◌∷◌, leb, ◌==◌, if◌then◌else◌,
}
use masters_thesis.Base.Interleave.{Window, Prog, pure, retry, ◌>>=◌, ◌>>◌}
use masters_thesis.Base.Word.{add32, sub32}
use masters_thesis.Slice.Types.{SliceType, gc, malloc, custom, static, Slices}

-- One of the three counters with its limit.
pub data Counter : Type 0 where
  total malloc_space gc_space : Counter

abbrev pub counted : Counter → Slices → ℕ
counted total s = s.total_size
counted malloc_space s = s.malloc_size
counted gc_space s = s.gc_size

abbrev pub limit : Counter → Slices → ℕ
limit total s = s.total_limit
limit malloc_space s = s.malloc_limit
limit gc_space s = s.gc_limit

abbrev pub set_counted : Counter → ℕ → Slices → Slices
set_counted total n s = record s { total_size = n }
set_counted malloc_space n s = record s { malloc_size = n }
set_counted gc_space n s = record s { gc_size = n }

-- `atomic_compare_and_set_uint` on a counter.
unfoldable pub cas_counter : Counter → (expect value : ℕ) → Slices → Bool × Slices
cas_counter c expect value s =
    if counted c s == expect then (true, set_counted c value s) else (false, s)

-- slice_try_release_total_space, and its copies for the other counters.
unfoldable pub slice_try_release :
    Counter → (size : ℕ) → Window Slices → Slices → Option (Unit {0}) × Slices
unfolding cas_counter
slice_try_release c size w s0 =
    let s = w.before s0 in
    let oldspace = counted c s in
    let (out, s') = cas_counter c oldspace (sub32 oldspace size) (w.between s) in
    (if out then some tt else none, s')

unfoldable pub slice_release_total_space : ℕ → Prog Slices (Unit {0})
slice_release_total_space size = retry (slice_try_release total size)

-- Both of these call slice_try_release_total_space.
unfoldable pub slice_release_gc_space : ℕ → Prog Slices (Unit {0})
slice_release_gc_space size = retry (slice_try_release total size)

unfoldable pub slice_release_malloc_space : ℕ → Prog Slices (Unit {0})
slice_release_malloc_space size = retry (slice_try_release total size)

-- One round of a reservation: `some b` leaves the loop with the answer b, `none` goes round again.
-- `give_up` says whether the loop ends in this round where the test on the limit fails.
unfoldable pub reserve_round :
    Counter → (size : ℕ) → (give_up : Bool) → Window Slices → Slices → Option Bool × Slices
unfolding cas_counter
reserve_round c size give_up w s0 =
    let s = w.before s0 in
    let oldspace = counted c s in
    if leb (limit c s) (add32 oldspace size)
    then (let (out, s') = cas_counter c oldspace (add32 oldspace size) (w.between s) in
        (if out then some true else none, s'))
    else (if give_up then some false else none, s)

-- `failures` has no initialiser in the source: its first value is an argument. The test on the limit
-- decides whether a round that goes on has counted a failure.
unfoldable pub slice_reserve_total_space : (failures size : ℕ) → Prog Slices Bool
unfolding reserve_round
slice_reserve_total_space failures size [] s = none
slice_reserve_total_space failures size (w ∷ ws) s =
    let before = w.before s in
    let tested = leb (limit total before) (add32 (counted total before) size) in
    let failures' = if tested then failures else add32 failures 1 in
    let (r, s') = reserve_round total size (leb 3 failures') w s in
    elim r [ some out ↦ some (out, ws, s') | none ↦ slice_reserve_total_space failures' size ws s' ]

unfoldable pub slice_reserve_gc_space : ℕ → Prog Slices Bool
slice_reserve_gc_space size = retry (reserve_round gc_space size true)

unfoldable pub slice_reserve_malloc_space : ℕ → Prog Slices Bool
slice_reserve_malloc_space size = retry (reserve_round malloc_space size true)

-- The switch of slice_reserve_space.
abbrev pub reserve_for : SliceType → ℕ → Prog Slices Bool
reserve_for gc size = do
  got ← slice_reserve_gc_space size
  if got then pure true else (do slice_release_total_space size; pure false)
reserve_for malloc size = do
  got ← slice_reserve_malloc_space size
  if got then pure true else (do slice_release_total_space size; pure false)
reserve_for custom size = pure true
reserve_for static size = pure true

unfoldable pub slice_reserve_space : (failures size : ℕ) → SliceType → Prog Slices Bool
slice_reserve_space failures size type = do
  got ← slice_reserve_total_space failures size
  if got then reserve_for type size else pure false

abbrev pub release_for : SliceType → ℕ → Prog Slices (Unit {0})
release_for gc size = slice_release_gc_space size
release_for malloc size = slice_release_malloc_space size
release_for custom size = pure tt
release_for static size = pure tt

unfoldable pub slice_release_space : ℕ → SliceType → Prog Slices (Unit {0})
slice_release_space size type = do slice_release_total_space size; release_for type size
