-- ===== src/Malloc/Free/Push.antt =====
-- free_lf of a block of a superblock.
use masters_thesis.Base.{
  ℕ, ◌+◌, ◌-◌, ◌*◌, ◌/◌, ◌%◌, ◌<◌, ◌≡◌, ◌≢◌, refl, ap, ◌∙◌, true, false, some, List, ◌∷◌, ◌==◌,
  if◌then◌else◌, Bool-cases, inl, inr, ne→==, eq→==, ==_iff, arith,
}
use mathlib.Core.Path.{fun_ext}
use native.Mathlib.Nat.{add-mul-div_right, zero-div}
use masters_thesis.Base.Interleave.{Window, quiet, retry, retry_done}
use masters_thesis.Malloc.Anchor.{anchor_get_avail, anchor_get_credits, anchor_get_state}
use masters_thesis.Malloc.SizeClass.{cache_line_size}
use masters_thesis.Malloc.State.{Mallocs, null, store, put, set_desc, enqueue, set_heap}
use masters_thesis.Malloc.Superblock.{
  block_addr, anc_full, anc_partial, anc_empty, heap_put_partial, try_heap_put_partial,
}
use masters_thesis.Malloc.Superblock.Invariant.{has, IsSuperblock}
use masters_thesis.Malloc.Free.Freed.{freed_state, push-IsSuperblock, freed}
use masters_thesis.Malloc.Free.{freed_anchor, try_free, freed_block, free_lf}

-- heap_put_partial, where no other executor interferes: the descriptor takes the partial slot of
-- its heap, and the one that was there goes to the queue of the size class.
abbrev offered : (d : ℕ) → Mallocs → Mallocs
offered d s =
    let h = (s.desc d).des_heap in
    let prev = (s.heap h).ph_partial in
    record (set_heap h (λ g. record g { ph_partial = d }) s) {
      sc_partial =
          if prev == null
          then s.sc_partial
          else (enqueue (s.heap h).ph_sizeclass prev s).sc_partial;
    }

put_round : (d : ℕ) (s : Mallocs) → try_heap_put_partial d quiet s ≡ (some tt, offered d s)
unfolding try_heap_put_partial
put_round d s = ground arith

put_partial_lem :
    (d : ℕ) (ws : List (Window Mallocs)) (s : Mallocs)
    → heap_put_partial d (quiet ∷ ws) s ≡ some (tt, ws, offered d s)
unfolding heap_put_partial
put_partial_lem d ws s =
    retry_done (try_heap_put_partial d) quiet ws s (offered d s) tt (put_round d s)

module _ (ws : List (Window Mallocs)) (d j : ℕ) (s : Mallocs) where
  abbrev ptr : ℕ
  ptr = block_addr (s.desc d) j

  -- The state when the block is back on the chain.
  abbrev pushed : Mallocs
  pushed = set_desc d (freed j) (store ptr (anchor_get_avail (s.desc d).des_anchor) s)

  sub_base : ptr - (s.desc d).des_slice.s_ptr ≡ 0 + j * (s.desc d).des_size
  sub_base = omega arith

  offset : 0 < (s.desc d).des_size → (ptr - (s.desc d).des_slice.s_ptr) / (s.desc d).des_size ≡ j
  offset pos =
      ap (λ n. n / (s.desc d).des_size) (sub_base)
      ∙ add-mul-div_right 0 j pos
      ∙ ap (λ n. n + j) (zero-div _)
      ∙ omega arith

  try_free_lem :
      0 < (s.desc d).des_size
      → retry (try_free d ptr) (quiet ∷ ws) s
        ≡ some (
          ((s.desc d).des_anchor, freed_anchor (s.desc d).des_anchor j (s.desc d).des_maxcount),
          ws,
          pushed,
        )
  unfolding try_free retry
  try_free_lem pos = ground (arith, offset pos)

  free_run :
      0 < (s.desc d).des_size
      → s.word ptr ≡ d
      → d % 2 ≡ 0
      → free_lf (ptr + cache_line_size) (quiet ∷ ws) s
        ≡ freed_block d
            (s.desc d).des_anchor
            (freed_anchor (s.desc d).des_anchor j (s.desc d).des_maxcount)
            ws
            pushed
  unfolding free_lf
  free_run pos header even = ground (arith, try_free_lem pos)

  abbrev old : ℕ
  old = (s.desc d).des_anchor

  -- The rest of try_free where the superblock was full.
  freed_full :
      anchor_get_state old ≡ anc_full
      → anchor_get_state (freed_anchor old j (s.desc d).des_maxcount) ≡ anc_partial
      → freed_block d old (freed_anchor old j (s.desc d).des_maxcount) (quiet ∷ ws) pushed
        ≡ some (tt, ws, offered d pushed)
  unfolding freed_block
  freed_full full partial = rw (full, partial) (put_partial_lem d ws pushed)

  freed_open :
      (anchor_get_state old == anc_full) ≡ false
      → (anchor_get_state (freed_anchor old j (s.desc d).des_maxcount) == anc_empty) ≡ false
      → (rest : List (Window Mallocs))
      → freed_block d old (freed_anchor old j (s.desc d).des_maxcount) rest pushed
        ≡ some (tt, rest, pushed)
  unfolding freed_block
  freed_open not_full not_empty rest = rw (not_empty, not_full) refl

abbrev pub active_words : Mallocs → ℕ → ℕ
active_words s h = (s.heap h).ph_active

-- What a block that came back leaves: a superblock with the block in front of its free ones, and the
-- descriptor in the partial slot of its heap if the superblock was full.
pub record Returned (d j : ℕ) (is : List ℕ) (reserved : ℕ) (s u : Mallocs) : Type 0 where
  pub superblock : IsSuperblock u.word (u.desc d) (j ∷ is) reserved
  pub slot : (u.heap (s.desc d).des_heap).ph_partial ≡ (
      if anchor_get_state (s.desc d).des_anchor == anc_full
      then d
      else (s.heap (s.desc d).des_heap).ph_partial)
  pub memory :
      u.word ≡ put (block_addr (s.desc d) j) (anchor_get_avail (s.desc d).des_anchor) s.word
  pub active : active_words u ≡ active_words s
  pub place : block_addr (u.desc d) j ≡ block_addr (s.desc d) j
  pub others :
      (u.malloc_desc_avail ≡ s.malloc_desc_avail) × (u.slices ≡ s.slices) × (u.freed ≡ s.freed)

module _ (ws : List (Window Mallocs)) (d j : ℕ) (is : List ℕ) (reserved : ℕ) (s : Mallocs) where
  pushed-IsSuperblock :
      IsSuperblock s.word (s.desc d) is reserved
      → anchor_get_credits (s.desc d).des_anchor + 1 < (s.desc d).des_maxcount
      → j < (s.desc d).des_maxcount
      → has j is ≡ false
      → IsSuperblock (pushed ws d j s).word ((pushed ws d j s).desc d) (j ∷ is) reserved
  pushed-IsSuperblock sb more below out =
      rw (eq→== d d refl) (push-IsSuperblock s.word (s.desc d) j is reserved sb more below out)

  pushed-Returned :
      IsSuperblock (pushed ws d j s).word ((pushed ws d j s).desc d) (j ∷ is) reserved
      → (anchor_get_state (s.desc d).des_anchor == anc_full) ≡ false
      → Returned d j is reserved s (pushed ws d j s)
  pushed-Returned sb not_full = record {
    superblock = sb;
    slot = rw not_full refl;
    memory = refl;
    active = refl;
    place = rw (eq→== d d refl) refl;
    others = (refl, refl, refl);
  }

  slot_active : (g : ℕ) → ((offered d (pushed ws d j s)).heap g).ph_active ≡ (s.heap g).ph_active
  slot_active g = elim (Bool-cases (g == ((pushed ws d j s).desc d).des_heap)) [
    | inl here ↦ rw here refl
    | inr elsewhere ↦ rw elsewhere refl
  ]

  offered-Returned :
      IsSuperblock (pushed ws d j s).word ((pushed ws d j s).desc d) (j ∷ is) reserved
      → (anchor_get_state (s.desc d).des_anchor == anc_full) ≡ true
      → Returned d j is reserved s (offered d (pushed ws d j s))
  offered-Returned sb full = record {
    superblock = sb;
    slot = rw (eq→== d d refl) (rw (eq→== (s.desc d).des_heap (s.desc d).des_heap refl, full) refl);
    memory = refl;
    active = fun_ext slot_active;
    place = rw (eq→== d d refl) refl;
    others = (refl, refl, refl);
  }

-- Where no other executor interferes: a block j of a superblock that is not free yet, is not the
-- last one to come back and names its descriptor, an even address, is given to free_lf by the
-- address behind its first cache line, and the anchor is not EMPTY. free_lf returns. Block j is
-- then the first free one, in front of `is`; as many are set aside as before; if the anchor was
-- FULL, the descriptor takes the partial slot of its heap.
pub free_lf-Returned :
    (ws : List (Window Mallocs)) (d j : ℕ) (is : List ℕ) (reserved : ℕ) (s : Mallocs)
    → IsSuperblock s.word (s.desc d) is reserved
    → anchor_get_credits (s.desc d).des_anchor + 1 < (s.desc d).des_maxcount
    → j < (s.desc d).des_maxcount
    → has j is ≡ false
    → s.word (block_addr (s.desc d) j) ≡ d
    → d % 2 ≡ 0
    → anchor_get_state (s.desc d).des_anchor ≢ anc_empty
    → (u : Mallocs) × (left : List (Window Mallocs)) × (free_lf
          (block_addr (s.desc d) j + cache_line_size)
          (quiet ∷ quiet ∷ ws)
          s
        ≡ some (tt, left, u))
      × Returned d j is reserved s u
free_lf-Returned ws d j is reserved s sb more below out header even not_empty =
    let run = free_run (quiet ∷ ws) d j s sb.positive header even in
    let sb' = pushed-IsSuperblock ws d j is reserved s sb more below out in
    let state = freed_state (s.desc d).des_anchor j (s.desc d).des_maxcount more sb.few in
    elim (Bool-cases (anchor_get_state (s.desc d).des_anchor == anc_full)) [
      | inl full ↦ (
        offered d (pushed ws d j s),
        ws,
        run ∙ freed_full ws d j s ((==_iff _ _).0 full) (state ∙ rw full refl),
        offered-Returned ws d j is reserved s sb' full,
      )
      | inr not_full ↦ (
        pushed ws d j s,
        quiet ∷ ws,
        run
            ∙ freed_open ws d j s not_full (ne→== _ _ (grind (arith, state, not_full, not_empty)))
                (quiet ∷ ws),
        pushed-Returned ws d j is reserved s sb' not_full,
      )
    ]
