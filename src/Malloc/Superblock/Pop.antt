-- ===== src/Malloc/Superblock/Pop.antt =====
-- Taking the first free block off the chain of a superblock.
use masters_thesis.Base.{
  ℕ, ◌+◌, ◌-◌, ◌%◌, ◌^◌, ◌≡◌, min, List, ◌∷◌, ◌==◌, if◌then◌else◌, Bool-cases, inl, inr, ==_iff,
  arith,
}
use masters_thesis.Malloc.Anchor.{anchor_get_avail, anchor_get_credits, active_get_credits}
use masters_thesis.Malloc.Anchor.Fields.{credits_lt}
use masters_thesis.Malloc.Anchor.Rules.{anchor_rules}
use masters_thesis.Malloc.State.{Descriptor, put}
use masters_thesis.Malloc.Superblock.{block_addr, popped_anchor}
use masters_thesis.Malloc.Superblock.Invariant.{IsSuperblock, FreeBlocks-put, FreeBlocks-field}

module _ (active old next : ℕ) where
  popped_avail : anchor_get_avail (popped_anchor active old next) ≡ next % 2 ^ 10
  unfolding popped_anchor
  popped_avail = elim (Bool-cases (active_get_credits active == 0)) [
    | inl last ↦ elim (Bool-cases (anchor_get_credits old == 0)) [
      | inl full ↦ rw (last, full) (simp anchor_rules)
      | inr more ↦ rw (last, more) (simp anchor_rules)
    ]
    | inr kept ↦ rw kept (simp anchor_rules)
  ]

  popped_credits : anchor_get_credits (popped_anchor active old next) ≡ (
      if active_get_credits active == 0
      then anchor_get_credits old - min (anchor_get_credits old) 64
      else anchor_get_credits old)
  unfolding popped_anchor
  popped_credits = elim (Bool-cases (active_get_credits active == 0)) [
    | inl last ↦ elim (Bool-cases (anchor_get_credits old == 0)) [
      | inl full ↦ rw (last, full) (simp anchor_rules (omega (arith, (==_iff _ _).0 full)))
      | inr more ↦ rw (last, more) (simp anchor_rules (omega (arith, credits_lt old)))
    ]
    | inr kept ↦ rw kept (simp anchor_rules)
  ]

-- The descriptor after the pop of its first free block.
abbrev pub popped : (active : ℕ) (word : ℕ → ℕ) → Descriptor → Descriptor
popped active word e = record e {
  des_anchor =
      popped_anchor active e.des_anchor (word (block_addr e (anchor_get_avail e.des_anchor)));
}

module _ (active : ℕ) (word : ℕ → ℕ) (e : Descriptor) (i : ℕ) (is : List ℕ) where
  -- The caller has the credit for its block; what is set aside besides are the credits of the active
  -- word, or those that the pop took from the anchor for the next active word.
  pub pop-IsSuperblock :
      IsSuperblock word e (i ∷ is) (active_get_credits active + 1)
      → (v : ℕ)
      → IsSuperblock
          (put (block_addr e (anchor_get_avail e.des_anchor)) v word)
          (popped active word e)
          is
          (if active_get_credits active == 0
            then min (anchor_get_credits e.des_anchor) 64
            else active_get_credits active)
  pop-IsSuperblock sb v = record {
    positive = sb.positive;
    few = sb.few;
    blocks =
        rw
          (
            popped_avail active e.des_anchor (word (block_addr e (anchor_get_avail e.des_anchor))),
            sb.blocks.0,
          )
          (FreeBlocks-put word e.des_slice.s_ptr e.des_size _ i v is sb.positive sb.distinct.1 (
            FreeBlocks-field word e.des_slice.s_ptr e.des_size _ e.des_maxcount is sb.few
              sb.distinct.2 sb.blocks.1));
    distinct = sb.distinct.2;
    counted = ground (
      arith,
      popped_credits active e.des_anchor (word (block_addr e (anchor_get_avail e.des_anchor))),
      sb.counted,
      credits_lt e.des_anchor,
    );
  }
