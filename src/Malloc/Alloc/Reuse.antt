-- ===== src/Malloc/Alloc/Reuse.antt =====
-- A block that is given back is the next one to be taken.
use masters_thesis.Base.{ℕ, ◌+◌, ◌%◌, ◌<◌, ◌≡◌, ◌≢◌, refl, sym, ap, ◌∙◌, false, some, List, ◌∷◌}
use masters_thesis.Base.Interleave.{Window, quiet}
use masters_thesis.Malloc.Anchor.{anchor_get_credits, anchor_get_state, active_get_ptr}
use masters_thesis.Malloc.SizeClass.{cache_line_size}
use masters_thesis.Malloc.State.{Mallocs, null}
use masters_thesis.Malloc.Superblock.{block_addr, anc_empty, malloc_from_active}
use masters_thesis.Malloc.Superblock.Invariant.{has, IsSuperblock, reserved_by}
use masters_thesis.Malloc.Superblock.Take.{active_desc, malloc_from_active-Taken}
use masters_thesis.Malloc.Free.{free_lf}
use masters_thesis.Malloc.Free.Push.{Returned, free_lf-Returned}

-- The allocation after the block came back.
taken_again :
    (h d j : ℕ) (is : List ℕ) (ws : List (Window Mallocs)) (s u : Mallocs)
    → d ≡ active_desc h u
    → d ≢ null
    → Returned d j is (reserved_by (u.heap h).ph_active) s u
    → (v : Mallocs) × (left : List (Window Mallocs)) × (malloc_from_active h
          (quiet ∷ quiet ∷ quiet ∷ ws)
          u
        ≡ some (block_addr (s.desc d) j + cache_line_size, left, v))
      × IsSuperblock v.word (v.desc d) is (reserved_by (v.heap h).ph_active)
taken_again h d j is ws s u e ne back =
    let ne' : active_desc h u ≢ null = rw e at ne in
    let back' : Returned (active_desc h u) j is (reserved_by (u.heap h).ph_active) s u =
      rw e at back in
    let (v, left, run, took) = malloc_from_active-Taken h j is ws u ne' back'.superblock in
    rw e (v, left, run ∙ rw back'.place refl, took.superblock)

-- Where no other executor interferes, and block j is a block of the active superblock of the heap
-- h as in free_lf-Returned, the credits of the active word and one more being set aside: after
-- free_lf, malloc_from_active returns the same address, and the free blocks are those of before.
pub free-malloc :
    (h j : ℕ) (is : List ℕ) (ws : List (Window Mallocs)) (s : Mallocs)
    → active_desc h s ≢ null
    → IsSuperblock s.word (s.desc (active_desc h s)) is (reserved_by (s.heap h).ph_active)
    → anchor_get_credits (s.desc (active_desc h s)).des_anchor + 1
      < (s.desc (active_desc h s)).des_maxcount
    → j < (s.desc (active_desc h s)).des_maxcount
    → has j is ≡ false
    → s.word (block_addr (s.desc (active_desc h s)) j) ≡ active_desc h s
    → active_desc h s % 2 ≡ 0
    → anchor_get_state (s.desc (active_desc h s)).des_anchor ≢ anc_empty
    → (u v : Mallocs) × (rest left : List (Window Mallocs)) × (free_lf
          (block_addr (s.desc (active_desc h s)) j + cache_line_size)
          (quiet ∷ quiet ∷ ws)
          s
        ≡ some (tt, rest, u))
      × (malloc_from_active h (quiet ∷ quiet ∷ quiet ∷ ws) u
          ≡ some (block_addr (s.desc (active_desc h s)) j + cache_line_size, left, v))
      × IsSuperblock v.word (v.desc (active_desc h s)) is (reserved_by (v.heap h).ph_active)
free-malloc h j is ws s ne sb more below out header even not_empty =
    let (u, rest, freed, back) =
      free_lf-Returned ws (active_desc h s) j is (reserved_by (s.heap h).ph_active) s sb more below
        out header even not_empty in
    let kept : (u.heap h).ph_active ≡ (s.heap h).ph_active = ap (λ (f : ℕ → ℕ). f h) back.active in
    let (v, left, taken, sb') =
      taken_again h (active_desc h s) j is ws s u (sym (ap active_get_ptr kept)) ne
        (rw kept back) in
    (u, v, rest, left, freed, taken, sb')
