-- ===== src/Gc/Alloc/Bump/Laws.antt =====
-- src/mm/gc/gc_alloc.c: what the allocation of an object gives.
use masters_thesis.Base.{
  ℕ, ◌+◌, ◌*◌, ◌^◌, ◌≤◌, ◌<◌, ◌≡◌, refl, ap, ◌∙◌, ◌⊎◌, inr, true, some, List, [], ◌∷◌, leb,
  if◌then◌else◌, arith,
}
use masters_thesis.Base.Exit.{Exit, returned, crashed}
use masters_thesis.Base.Interleave.{Window, Prog, pure, bind_done, ◌>>=◌}
use masters_thesis.Gc.Alloc.{GcHeap, set_allocator}
use masters_thesis.Gc.Alloc.Refresh.{gc_allocator_refresh}
use masters_thesis.Gc.Alloc.Bump.{
  get_target_size, gc_allocator_alloc, gc_allocator_gc_prealloc, gc_allocator_gc_postalloc,
}

-- The slice that an allocator asks for is a size from 2^14 to 2^31, no smaller than the object,
-- for each object of at most 2^31 bytes; below 2^28 bytes it has room for eight of them.
pub target_size_lem :
    (min : ℕ)
    → min ≤ 2 ^ 31
    → (2 ^ 14 ≤ get_target_size min)
      × (get_target_size min ≤ 2 ^ 31)
      × (min ≤ get_target_size min)
      × ((2 ^ 28 ≤ min) ⊎ (8 * min ≤ get_target_size min))
unfolding get_target_size
target_size_lem min fits = (ground arith, ground arith, ground arith, ground arith)

-- Objects of these sizes, one behind the other.
abbrev pub alloc_each :
    (alloc : (size : ℕ) → Prog GcHeap (Exit ℕ)) → List ℕ → Prog GcHeap (List (Exit ℕ))
alloc_each alloc [] = pure []
alloc_each alloc (n ∷ ns) = do out ← alloc n; outs ← alloc_each alloc ns; pure (out ∷ outs)

alloc_each-cons :
    (alloc : (size : ℕ) → Prog GcHeap (Exit ℕ)) (n : ℕ) (ns : List ℕ) (ws : List (Window GcHeap))
    (s t u : GcHeap) (a : Exit ℕ) (outs : List (Exit ℕ))
    → alloc n ws s ≡ some (a, ws, t)
    → alloc_each alloc ns ws t ≡ some (outs, ws, u)
    → alloc_each alloc (n ∷ ns) ws s ≡ some (a ∷ outs, ws, u)
alloc_each-cons alloc n ns ws s t u a outs one rest =
    bind_done (alloc n) (λ out. alloc_each alloc ns >>= λ others. pure (out ∷ others)) ws ws s t a
      one
    ∙ bind_done (alloc_each alloc ns) (λ others. pure (a ∷ others)) ws ws t u outs rest

-- gc_allocator_gc_postalloc, which no other executor sees.
abbrev commit : (allocator size : ℕ) → Prog GcHeap (Exit (Unit {0}))
commit allocator size ws s =
    let (done, t) = gc_allocator_gc_postalloc allocator size s in some (done, ws, t)

abbrev if_done : Exit (Unit {0}) → Exit ℕ → Exit ℕ
if_done (returned _) out = out
if_done crashed out = crashed

-- An object by the two functions that the collector calls.
abbrev pub in_two_steps : (allocator gen size : ℕ) → Prog GcHeap (Exit ℕ)
in_two_steps allocator gen size = gc_allocator_gc_prealloc allocator size gen >>= λ out.
    commit allocator size >>= λ done. pure (if_done done out)

-- Each object starts where the one before it ends.
abbrev pub addresses : (from : ℕ) → List ℕ → List (Exit ℕ)
addresses from [] = []
addresses from (n ∷ ns) = returned from ∷ addresses (from + n) ns

abbrev pub total_size : List ℕ → ℕ
total_size [] = 0
total_size (n ∷ ns) = n + total_size ns

abbrev advanced : (allocator size : ℕ) → GcHeap → GcHeap
advanced allocator size s =
    set_allocator allocator (λ a. record a { from = (s.allocator allocator).from + size }) s

module _ (allocator size gen : ℕ) (ws : List (Window GcHeap)) (s : GcHeap)
    (fits : (s.allocator allocator).from + size ≤ (s.allocator allocator).to) where
  alloc_fits :
      gc_allocator_alloc allocator size gen ws s
      ≡ some (returned (s.allocator allocator).from, ws, advanced allocator size s)
  unfolding gc_allocator_alloc
  alloc_fits = ground arith

  prealloc_fits :
      gc_allocator_gc_prealloc allocator size gen ws s
      ≡ some (returned (s.allocator allocator).from, ws, s)
  unfolding gc_allocator_gc_prealloc
  prealloc_fits = ground arith

  commit_fits : commit allocator size ws s ≡ some (returned tt, ws, advanced allocator size s)
  unfolding gc_allocator_gc_postalloc
  commit_fits = ground arith

  two_steps_fit :
      in_two_steps allocator gen size ws s
      ≡ some (returned (s.allocator allocator).from, ws, advanced allocator size s)
  two_steps_fit =
      bind_done (gc_allocator_gc_prealloc allocator size gen)
        (λ out. commit allocator size >>= λ done. pure (if_done done out)) ws ws s s
        (returned (s.allocator allocator).from) prealloc_fits
      ∙ bind_done (commit allocator size)
          (λ done. pure (if_done done (returned (s.allocator allocator).from))) ws ws s
          (advanced allocator size s) (returned tt) commit_fits

  -- The state behind the first of several objects that fit.
  still_fits :
      (rest : ℕ)
      → (s.allocator allocator).from + (size + rest) ≤ (s.allocator allocator).to
      → ((advanced allocator size s).allocator allocator).from + rest
        ≤ ((advanced allocator size s).allocator allocator).to
  still_fits rest all = ground arith

  from_advanced :
      ((advanced allocator size s).allocator allocator).from ≡ (s.allocator allocator).from + size
  from_advanced = ground arith

-- Where objects of these sizes fit into the allocator all together: gc_allocator_alloc returns for
-- them addresses of which each is the end of the object before, the first one being the first free
-- address; gc_allocator_gc_prealloc with gc_allocator_gc_postalloc returns the same addresses and
-- leaves the same state. In it the first free address is the end of the last object, the end of the
-- allocator's slice and the other allocators are as before, and so are the stacks of slices.
pub prealloc-postalloc :
    (allocator gen : ℕ) (sizes : List ℕ) (ws : List (Window GcHeap)) (s : GcHeap)
    → (s.allocator allocator).from + total_size sizes ≤ (s.allocator allocator).to
    → (u : GcHeap) × (alloc_each (λ size. gc_allocator_alloc allocator size gen) sizes ws s
        ≡ some (addresses (s.allocator allocator).from sizes, ws, u))
      × (alloc_each (in_two_steps allocator gen) sizes ws s
          ≡ some (addresses (s.allocator allocator).from sizes, ws, u))
      × ((u.allocator allocator).from ≡ (s.allocator allocator).from + total_size sizes)
      × ((u.allocator allocator).to ≡ (s.allocator allocator).to)
      × ((a : ℕ) → (a ≡ allocator) ⊎ (u.allocator a ≡ s.allocator a))
      × (u.stack ≡ s.stack)
prealloc-postalloc allocator gen [] ws s fits =
    (s, refl, refl, omega arith, refl, (λ a. inr refl), refl)
prealloc-postalloc allocator gen (n ∷ ns) ws s fits =
    let first : (s.allocator allocator).from + n ≤ (s.allocator allocator).to =
      omega (arith, fits) in
    let t = advanced allocator n s in
    let (u, ones, twos, from, to, other, stacks) =
      prealloc-postalloc allocator gen ns ws t
        (still_fits allocator n gen ws s first (total_size ns) fits) in
    let start = from_advanced allocator n gen ws s first in
    (
      u,
      alloc_each-cons (λ size. gc_allocator_alloc allocator size gen) n ns ws s t u
          (returned (s.allocator allocator).from) (addresses ((s.allocator allocator).from + n) ns)
          (alloc_fits allocator n gen ws s first)
          (ones ∙ ap (λ (a : ℕ). some (addresses a ns, ws, u)) start),
      alloc_each-cons (in_two_steps allocator gen) n ns ws s t u
          (returned (s.allocator allocator).from) (addresses ((s.allocator allocator).from + n) ns)
          (two_steps_fit allocator n gen ws s first)
          (twos ∙ ap (λ (a : ℕ). some (addresses a ns, ws, u)) start),
      omega (arith, from, start),
      ground (arith, to),
      (λ a. ground (arith, other a)),
      stacks,
    )

-- Where an object does not fit, and a refresh gives the allocator a slice: gc_allocator_alloc
-- returns the slice's first address, but advances to the size behind the address of before the
-- refresh, or panics where that is beyond the slice.
pub alloc_stale :
    (allocator size gen : ℕ) (ws ws' : List (Window GcHeap)) (s t : GcHeap)
    → (s.allocator allocator).to < (s.allocator allocator).from + size
    → gc_allocator_refresh allocator size (get_target_size size) gen ws s
      ≡ some (returned true, ws', t)
    → gc_allocator_alloc allocator size gen ws s ≡ (
        let newptr = (s.allocator allocator).from + size in
        if leb newptr (t.allocator allocator).to
        then some (
          returned (t.allocator allocator).from,
          ws',
          set_allocator allocator (λ a. record a { from = newptr }) t,
        )
        else some (crashed, ws', t))
unfolding gc_allocator_alloc
alloc_stale allocator size gen ws ws' s t full refreshed = ground (arith, full, refreshed)
