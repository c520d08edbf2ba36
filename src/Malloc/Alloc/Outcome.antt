-- ===== src/Malloc/Alloc/Outcome.antt =====
-- What malloc_lf returns, and where it does not return.
use masters_thesis.Base.{
  ℕ, zero, suc, ◌+◌, ◌^◌, ◌<◌, ◌≡◌, ◌≢◌, refl, Option, some, none, List, [], ◌∷◌, ne→==, eq→==,
  arith,
}
use masters_thesis.Base.Interleave.{Window, quiet, retry}
use masters_thesis.Base.Word.{add32}
use masters_thesis.Malloc.Anchor.{active_get_ptr}
use masters_thesis.Malloc.SizeClass.{cache_line_size, find_heap}
use masters_thesis.Malloc.State.{Region, Mallocs, null, dequeue, take_slice}
use masters_thesis.Malloc.Superblock.{
  block_addr, malloc_from_active, reserve_from_active, reserve_round,
}
use masters_thesis.Malloc.Superblock.Invariant.{IsSuperblock, reserved_by}
use masters_thesis.Malloc.Superblock.Take.{Taken, active_desc, malloc_from_active-Taken}
use masters_thesis.Malloc.Partial.{
  malloc_from_partial, claim_partial, heap_get_partial, get_partial_round,
}
use masters_thesis.Malloc.Alloc.{malloc_from_new_sb, try_alloc, alloc_loop, malloc_lf}

-- A loop of malloc_lf that finds a block in its first round.
loop_done :
    (fuel size_of h p : ℕ) (ws left : List (Window Mallocs)) (s u : Mallocs)
    → malloc_from_active h ws s ≡ some (p, left, u)
    → p ≢ null
    → alloc_loop (suc fuel) size_of h ws s ≡ some (p, left, u)
unfolding alloc_loop try_alloc
loop_done fuel size_of h p ws left s u found ne = ground (arith, found, ne)

-- Where no other executor interferes, the request is above 0 and does not overflow with the cache
-- line, it has the heap h, and h has an active superblock whose free blocks are i and then `is`,
-- the credits of the active word and one more being set aside: malloc_lf returns the address
-- behind the first cache line of block i, and the superblock keeps the free blocks `is`, with what
-- the heap's new active word grants set aside.
pub malloc_lf-Taken :
    (size_of req_size exec h i : ℕ) (is : List ℕ) (large : Option Region)
    (ws : List (Window Mallocs)) (s : Mallocs)
    → 0 < req_size
    → req_size + cache_line_size < 2 ^ 32
    → find_heap (req_size + cache_line_size) exec ≡ some h
    → active_desc h s ≢ null
    → IsSuperblock s.word (s.desc (active_desc h s)) (i ∷ is) (reserved_by (s.heap h).ph_active)
    → (u : Mallocs) × (left : List (Window Mallocs)) × (malloc_lf size_of large req_size exec
          (quiet ∷ quiet ∷ quiet ∷ ws)
          s
        ≡ some (block_addr (s.desc (active_desc h s)) i + cache_line_size, left, u))
      × Taken h (active_desc h s) i is s u
unfolding malloc_lf
malloc_lf-Taken size_of req_size exec h i is large ws s pos fits has_heap ne sb =
    let (u, left, run, took) = malloc_from_active-Taken h i is ws s ne sb in
    let kept : add32 req_size cache_line_size ≡ req_size + cache_line_size = omega (arith, fits) in
    (
      u,
      left,
      rw (ne→== req_size 0 (omega arith), kept, has_heap)
          (loop_done _ size_of h _ _ left s u run (omega arith)),
      took,
    )

-- No block can be had for a heap: it has no active and no partial superblock, the queue of its
-- size class is empty, and slice_alloc returns NULL.
pub record IsStarved (h : ℕ) (s : Mallocs) : Type 0 where
  pub no_active : active_get_ptr (s.heap h).ph_active ≡ null
  pub no_slot : (s.heap h).ph_partial ≡ null
  pub no_queue : s.sc_partial (s.heap h).ph_sizeclass ≡ []
  pub no_slices : s.slices ≡ []

-- The state after a round of a starved malloc.
abbrev after_round : (h : ℕ) → Mallocs → Mallocs
after_round h s = (take_slice (dequeue (s.heap h).ph_sizeclass s).1).1

round_IsStarved : (h : ℕ) (s : Mallocs) → IsStarved h s → IsStarved h (after_round h s)
round_IsStarved h s st = record {
  no_active = st.no_active;
  no_slot = st.no_slot;
  no_queue = rw (eq→== (s.heap h).ph_sizeclass (s.heap h).ph_sizeclass refl, st.no_queue) refl;
  no_slices = rw st.no_slices refl;
}

starved_active :
    (h : ℕ) (ws : List (Window Mallocs)) (s : Mallocs)
    → IsStarved h s
    → malloc_from_active h (quiet ∷ ws) s ≡ some (null, ws, s)
unfolding malloc_from_active reserve_from_active reserve_round retry
starved_active h ws s st = ground (arith, st.no_active)

starved_partial :
    (h : ℕ) (ws : List (Window Mallocs)) (s : Mallocs)
    → IsStarved h s
    → malloc_from_partial h (quiet ∷ ws) s ≡ some (null, ws, (dequeue (s.heap h).ph_sizeclass s).1)
unfolding malloc_from_partial claim_partial heap_get_partial get_partial_round retry
starved_partial h ws s st = ground (arith, st.no_slot, st.no_queue)

starved_slice :
    (size_of h : ℕ) (ws : List (Window Mallocs)) (s : Mallocs)
    → s.slices ≡ []
    → malloc_from_new_sb size_of h ws s ≡ some (null, ws, (take_slice s).1)
unfolding malloc_from_new_sb
starved_slice size_of h ws s none_left = ground (arith, none_left)

-- A schedule of n windows in which the others do nothing.
abbrev pub quiets : ℕ → List (Window Mallocs)
quiets zero = []
quiets (suc n) = quiet ∷ quiets n

no_time : (size_of h : ℕ) (s : Mallocs) → try_alloc size_of h [] s ≡ none
unfolding try_alloc malloc_from_active reserve_from_active retry
no_time size_of h s = refl

half_time :
    (size_of h : ℕ) (s : Mallocs) → IsStarved h s → try_alloc size_of h (quiet ∷ []) s ≡ none
unfolding try_alloc malloc_from_partial claim_partial heap_get_partial retry
half_time size_of h s st = ground (arith, starved_active h [] s st)

starved_round :
    (size_of h : ℕ) (ws : List (Window Mallocs)) (s : Mallocs)
    → IsStarved h s
    → try_alloc size_of h (quiet ∷ quiet ∷ ws) s ≡ some (null, ws, after_round h s)
unfolding try_alloc
starved_round size_of h ws s st = ground (
  arith,
  starved_active h (quiet ∷ ws) s st,
  starved_partial h ws s st,
  starved_slice size_of h ws (dequeue (s.heap h).ph_sizeclass s).1 st.no_slices,
)

starved_loop :
    (fuel size_of h n : ℕ) (s : Mallocs)
    → IsStarved h s
    → alloc_loop fuel size_of h (quiets n) s ≡ none
unfolding alloc_loop
starved_loop zero size_of h n s st = refl
starved_loop (suc fuel) size_of h zero s st = ground (arith, no_time size_of h s)
starved_loop (suc fuel) size_of h (suc zero) s st = ground (arith, half_time size_of h s st)
starved_loop (suc fuel) size_of h (suc (suc n)) s st = ground (
  arith,
  starved_round size_of h (quiets n) s st,
  starved_loop fuel size_of h n (after_round h s) (round_IsStarved h s st),
)

-- Where no other executor interferes, a request above 0 that does not overflow with the cache line
-- and has a heap for which no block can be had is never answered: malloc_lf is still running when
-- the schedule ends, however long it is and whatever the fuel of its loop. It does not return
-- NULL.
pub malloc_lf_starved :
    (size_of req_size exec h n fuel : ℕ) (large : Option Region) (s : Mallocs)
    → 0 < req_size
    → req_size + cache_line_size < 2 ^ 32
    → find_heap (req_size + cache_line_size) exec ≡ some h
    → IsStarved h s
    → (malloc_lf size_of large req_size exec (quiets n) s ≡ none)
      × (alloc_loop fuel size_of h (quiets n) s ≡ none)
unfolding malloc_lf
malloc_lf_starved size_of req_size exec h n fuel large s pos fits has_heap st =
    let kept : add32 req_size cache_line_size ≡ req_size + cache_line_size = omega (arith, fits) in
    (
      rw (ne→== req_size 0 (omega arith), kept, has_heap) (starved_loop _ size_of h n s st),
      starved_loop fuel size_of h n s st,
    )
