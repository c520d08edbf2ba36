-- ===== src/Malloc/Free/Freed.antt =====
-- The anchor of try_free, and a block on the chain of its superblock again.
use masters_thesis.Base.{
  ℕ, ◌+◌, ◌%◌, ◌^◌, ◌≤◌, ◌<◌, ◌≡◌, refl, ◌∙◌, false, List, ◌∷◌, ◌==◌, if◌then◌else◌, Bool-cases,
  inl, inr, ne→==, eq→==, arith,
}
use masters_thesis.Base.Word.{sub32}
use masters_thesis.Malloc.Anchor.{anchor_get_avail, anchor_get_credits, anchor_get_state}
use masters_thesis.Malloc.Anchor.Rules.{anchor_rules}
use masters_thesis.Malloc.State.{Descriptor, put}
use masters_thesis.Malloc.Superblock.{block_addr, anc_full, anc_partial}
use masters_thesis.Malloc.Superblock.Invariant.{has, IsSuperblock, FreeBlocks-put}
use masters_thesis.Malloc.Free.{freed_anchor}

module _ (old j maxcount : ℕ) where
  freed_avail : anchor_get_avail (freed_anchor old j maxcount) ≡ j % 2 ^ 10
  unfolding freed_anchor
  freed_avail = elim (Bool-cases (anchor_get_credits old == sub32 maxcount 1)) [
    | inl all ↦ rw all (simp anchor_rules)
    | inr some_taken ↦ rw some_taken (simp anchor_rules)
  ]

  not_last :
      anchor_get_credits old + 1 < maxcount
      → maxcount ≤ 1024
      → (anchor_get_credits old == sub32 maxcount 1) ≡ false
  not_last more few = ne→== _ _ (omega arith)

  -- Where the freed block is not the last one to come back.
  freed_credits :
      anchor_get_credits old + 1 < maxcount
      → maxcount ≤ 1024
      → anchor_get_credits (freed_anchor old j maxcount) ≡ anchor_get_credits old + 1
  unfolding freed_anchor
  freed_credits more few = elim (Bool-cases (anchor_get_state old == anc_full)) [
    | inl full ↦ rw (not_last more few, full) (simp anchor_rules (omega arith))
    | inr not_full ↦ rw (not_last more few, not_full) (simp anchor_rules (omega arith))
  ]

  pub freed_state :
      anchor_get_credits old + 1 < maxcount
      → maxcount ≤ 1024
      → anchor_get_state (freed_anchor old j maxcount)
        ≡ (if anchor_get_state old == anc_full then anc_partial else anchor_get_state old)
  unfolding freed_anchor
  freed_state more few = elim (Bool-cases (anchor_get_state old == anc_full)) [
    | inl full ↦ rw (not_last more few, full) (simp anchor_rules)
    | inr not_full ↦ rw (not_last more few, not_full) (simp anchor_rules)
  ]

-- The descriptor after block j came back.
abbrev pub freed : (j : ℕ) → Descriptor → Descriptor
freed j e = record e { des_anchor = freed_anchor e.des_anchor j e.des_maxcount }

module _ (word : ℕ → ℕ) (e : Descriptor) (j : ℕ) (is : List ℕ) (reserved : ℕ) where
  pub push-IsSuperblock :
      IsSuperblock word e is reserved
      → anchor_get_credits e.des_anchor + 1 < e.des_maxcount
      → j < e.des_maxcount
      → has j is ≡ false
      → IsSuperblock
          (put (block_addr e j) (anchor_get_avail e.des_anchor) word)
          (freed j e)
          (j ∷ is)
          reserved
  push-IsSuperblock sb more below out = record {
    positive = sb.positive;
    few = sb.few;
    blocks = (
      freed_avail e.des_anchor j e.des_maxcount ∙ omega (arith, sb.few),
      rw (eq→== (block_addr e j) (block_addr e j) refl)
          (FreeBlocks-put word e.des_slice.s_ptr e.des_size _ j _ is sb.positive out sb.blocks),
    );
    distinct = (below, out, sb.distinct);
    counted = omega (arith, freed_credits e.des_anchor j e.des_maxcount more sb.few, sb.counted);
  }
