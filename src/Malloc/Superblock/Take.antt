-- ===== src/Malloc/Superblock/Take.antt =====
-- An executor that is alone takes a block from the active superblock of a heap.
use masters_thesis.Base.{
  ℕ, ◌+◌, ◌<◌, ◌≡◌, ◌≢◌, refl, ◌∙◌, min, true, false, some, List, ◌∷◌, ◌==◌, if◌then◌else◌,
  Bool-cases, inl, inr, ltb, ◌&&◌, ne→==, eq→==, ==_iff, ltb→lt, arith,
}
use masters_thesis.Base.Interleave.{Window, quiet, retry}
use masters_thesis.Base.Word.{sub32}
use masters_thesis.Malloc.Anchor.{
  anchor_get_avail, anchor_get_credits, active_get_ptr, active_get_credits, active_set_ptr,
  active_set_credits, active_create,
}
use masters_thesis.Malloc.Anchor.Active
use masters_thesis.Malloc.Anchor.Fields.{credits_lt}
use masters_thesis.Malloc.SizeClass.{cache_line_size}
use masters_thesis.Malloc.State.{Procheap, Mallocs, null, store, put, set_heap, set_desc}
use masters_thesis.Malloc.Superblock.{
  block_addr, popped_anchor, reserve_from_active, reserve_round, try_reserve_from_active,
  try_pop_active, popped_active, update_active, malloc_from_active, max_credits,
}
use masters_thesis.Malloc.Superblock.Pop.{pop-IsSuperblock}
use masters_thesis.Malloc.Superblock.Invariant.{IsSuperblock, reserved_by}

-- What reserve_from_active leaves in the heap.
abbrev left_active : (active : ℕ) → ℕ
left_active active =
    if active_get_credits active == 0
    then active_set_ptr active null
    else active_set_credits active (sub32 (active_get_credits active) 1)

reserve_lem :
    (h : ℕ) (ws : List (Window Mallocs)) (s : Mallocs)
    → active_get_ptr (s.heap h).ph_active ≢ null
    → reserve_from_active h (quiet ∷ ws) s
      ≡ some (
        (s.heap h).ph_active,
        ws,
        set_heap h (λ g. record g { ph_active = left_active (s.heap h).ph_active }) s,
      )
unfolding reserve_from_active reserve_round try_reserve_from_active retry
reserve_lem h ws s ne = ground arith

pop_lem :
    (active : ℕ) (ws : List (Window Mallocs)) (s : Mallocs)
    → (let e = s.desc (active_get_ptr active) in
        let addr = block_addr e (anchor_get_avail e.des_anchor) in
        retry (try_pop_active active) (quiet ∷ ws) s
        ≡ some (
          (addr, e.des_anchor),
          ws,
          set_desc
              (active_get_ptr active)
              (λ e'. record e' { des_anchor = popped_anchor active e.des_anchor (s.word addr) })
              s,
        ))
unfolding try_pop_active retry
pop_lem active ws s = ground arith

-- What a taken block leaves: the superblock keeps its other free blocks, those of the heap's new
-- active word set aside, the block names its descriptor, and nothing else changed.
pub record Taken (h d i : ℕ) (is : List ℕ) (s u : Mallocs) : Type 0 where
  pub superblock : IsSuperblock u.word (u.desc d) is (reserved_by (u.heap h).ph_active)
  pub header : u.word (block_addr (s.desc d) i) ≡ d
  pub memory : u.word ≡ put (block_addr (s.desc d) i) d s.word
  pub others :
      (u.sc_partial ≡ s.sc_partial)
      × (u.malloc_desc_avail ≡ s.malloc_desc_avail)
      × (u.slices ≡ s.slices)
      × (u.freed ≡ s.freed)

module _ (h i : ℕ) (is : List ℕ) (ws : List (Window Mallocs)) (s : Mallocs) where
  abbrev active : ℕ
  active = (s.heap h).ph_active

  abbrev d : ℕ
  d = active_get_ptr active

  abbrev old : ℕ
  old = (s.desc d).des_anchor

  abbrev addr : ℕ
  addr = block_addr (s.desc d) (anchor_get_avail old)

  -- The state when the block is off the list.
  abbrev off : Mallocs
  off =
      set_desc d (λ e. record e { des_anchor = popped_anchor active old (s.word addr) })
        (set_heap h (λ g. record g { ph_active = left_active active }) s)

  -- Past the reservation and the compare-and-set of the anchor.
  from_active_lem :
      active_get_ptr active ≢ null
      → malloc_from_active h (quiet ∷ quiet ∷ ws) s ≡ popped_active h active addr old ws off
  unfolding malloc_from_active
  from_active_lem ne = ground (
    arith,
    reserve_lem h (quiet ∷ ws) s ne,
    pop_lem active ws (set_heap h (λ g. record g { ph_active = left_active active }) s),
  )

  -- The heap's active word where the last credit went and the anchor has more.
  abbrev refilled : Mallocs
  refilled =
      set_heap h
        (λ g. record g {
          ph_active = active_create d (sub32 (min (anchor_get_credits old) max_credits) 1);
        })
        off

  left_null : active_get_credits active ≡ 0 → left_active active ≡ 0
  left_null none_left = grind (arith, Active.set_ptr_lem 0 active, Active.get_credits_lem active)

  -- The rest of pop_from_active, with credits left in the active word or none at all.
  popped_kept :
      ((active_get_credits active == 0) && ltb 0 (anchor_get_credits old)) ≡ false
      → (rest : List (Window Mallocs))
      → popped_active h active addr old rest off
        ≡ some (addr + cache_line_size, rest, store addr d off)
  unfolding popped_active
  popped_kept kept rest = rw kept refl

  popped_refilled :
      ((active_get_credits active == 0) && ltb 0 (anchor_get_credits old)) ≡ true
      → popped_active h active addr old (quiet ∷ ws) off
        ≡ some (addr + cache_line_size, ws, store addr d refilled)
  unfolding popped_active update_active
  popped_refilled refills = ground (arith, left_null)

  -- What the heap's next active word sets aside is what the pop left to set aside.
  reserved_kept :
      active_get_ptr active ≢ null
      → (active_get_credits active == 0) ≡ false
      → reserved_by (active_set_credits active (sub32 (active_get_credits active) 1))
        ≡ active_get_credits active
  reserved_kept ne kept =
      let (_, _, credits, ptr) =
        Active.active_setters active 0 (sub32 (active_get_credits active) 1) (omega arith) in
      (grind (arith, ne, kept, credits, ptr, Active.get_credits_lem active))

  reserved_full :
      active_get_credits active ≡ 0
      → ltb 0 (anchor_get_credits old) ≡ false
      → reserved_by (active_set_ptr active null) ≡ min (anchor_get_credits old) 64
  reserved_full none_left full =
      let no_ptr : active_get_ptr (active_set_ptr active null) ≡ 0 =
        omega (
          arith,
          Active.get_ptr_lem (active_set_ptr active null),
          Active.set_ptr_lem null active,
        ) in
      rw (no_ptr) (ground arith)

  reserved_refilled :
      active_get_ptr active ≢ null
      → 0 < anchor_get_credits old
      → reserved_by (active_create d (sub32 (min (anchor_get_credits old) max_credits) 1))
        ≡ min (anchor_get_credits old) max_credits
  reserved_refilled ne more =
      let (ptr, credits, _) =
        Active.active_roundtrip d (sub32 (min (anchor_get_credits old) max_credits) 1)
          (omega (arith, Active.get_ptr_lem active)) (omega (arith, Active.get_ptr_lem active))
          (omega (arith, credits_lt old)) in
      rw (ptr, ne→== _ _ ne, credits) (omega (arith, credits_lt old))

  -- The block is taken whatever the heaps are, if the active word sets aside what is left.
  store-Taken :
      IsSuperblock s.word (s.desc d) (i ∷ is) (active_get_credits active + 1)
      → (heaps : ℕ → Procheap)
      → reserved_by (heaps h).ph_active ≡ (
          if active_get_credits active == 0
          then min (anchor_get_credits old) 64
          else active_get_credits active)
      → Taken h d i is s (store addr d (record off { heap = heaps }))
  store-Taken sb heaps reserved = record {
    superblock =
        rw (eq→== d d refl, reserved) (pop-IsSuperblock active s.word (s.desc d) i is sb d);
    header = rw (sb.blocks.0, eq→== (block_addr (s.desc d) i) (block_addr (s.desc d) i) refl) refl;
    memory = rw sb.blocks.0 refl;
    others = (refl, refl, refl, refl);
  }

  -- The three ways through the rest of pop_from_active.
  pops :
      active_get_ptr active ≢ null
      → IsSuperblock s.word (s.desc d) (i ∷ is) (active_get_credits active + 1)
      → (u : Mallocs) × (left : List (Window Mallocs)) × (popped_active h active addr old
            (quiet ∷ ws)
            off
          ≡ some (addr + cache_line_size, left, u))
        × Taken h d i is s u
  pops ne sb = elim (Bool-cases (active_get_credits active == 0)) [
    | inr kept ↦ (
      store addr d off,
      quiet ∷ ws,
      popped_kept (rw kept refl) (quiet ∷ ws),
      store-Taken sb off.heap (rw (eq→== h h refl, kept) (reserved_kept ne kept)),
    )
    | inl last ↦ elim (Bool-cases (ltb 0 (anchor_get_credits old))) [
      | inl more ↦ (
        store addr d refilled,
        ws,
        popped_refilled (rw (last, more) refl),
        store-Taken sb refilled.heap
            (rw (eq→== h h refl, last) (reserved_refilled ne (ltb→lt _ _ more))),
      )
      | inr full ↦ (
        store addr d off,
        quiet ∷ ws,
        popped_kept (rw (last, full) refl) (quiet ∷ ws),
        store-Taken sb off.heap
            (rw (eq→== h h refl, last) (reserved_full ((==_iff _ _).0 last) full)),
      )
    ]
  ]

-- The descriptor of the active superblock of a heap.
abbrev pub active_desc : (h : ℕ) → Mallocs → ℕ
active_desc h s = active_get_ptr (s.heap h).ph_active

-- Where no other executor interferes, and the heap h has an active superblock whose free blocks
-- are i and then `is`, the credits of the active word and one more being set aside:
-- malloc_from_active returns the address behind the first cache line of block i. The superblock
-- keeps the free blocks `is`, what the heap's new active word grants set aside; the block names
-- its descriptor, and no other memory changes.
pub malloc_from_active-Taken :
    (h i : ℕ) (is : List ℕ) (ws : List (Window Mallocs)) (s : Mallocs)
    → active_desc h s ≢ null
    → IsSuperblock s.word (s.desc (active_desc h s)) (i ∷ is) (reserved_by (s.heap h).ph_active)
    → (u : Mallocs) × (left : List (Window Mallocs)) × (malloc_from_active h
          (quiet ∷ quiet ∷ quiet ∷ ws)
          s
        ≡ some (block_addr (s.desc (active_desc h s)) i + cache_line_size, left, u))
      × Taken h (active_desc h s) i is s u
malloc_from_active-Taken h i is ws s ne sb =
    let reserved = rw (ne→== (active_desc h s) null ne) at sb in
    let (u, left, run, took) = pops h i is ws s ne reserved in
    (u, left, from_active_lem h i is (quiet ∷ ws) s ne ∙ run ∙ rw sb.blocks.0 refl, took)
