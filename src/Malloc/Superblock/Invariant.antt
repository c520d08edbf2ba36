-- ===== src/Malloc/Superblock/Invariant.antt =====
-- What makes a superblock consistent: the chain of its free blocks, and who may take how many of
-- them.
use masters_thesis.Base.{
  ℕ, suc, ◌+◌, ◌*◌, ◌%◌, ◌^◌, ◌≤◌, ◌<◌, ◌≡◌, ◌≢◌, Bool, false, ◌||◌, List, [], ◌∷◌, ◌==◌,
  if◌then◌else◌, length, ne→==, arith,
}
use native.Mathlib.Decide.{dec_lt}
use masters_thesis.Malloc.Anchor.{
  anchor_get_avail, anchor_get_credits, active_get_ptr, active_get_credits,
}
use masters_thesis.Malloc.State.{Descriptor, null, put}

-- The blocks of a sequence are free and in this order: the first is `avail`, and the word at the
-- start of each names the next. What the last one names does not matter.
abbrev pub FreeBlocks : (word : ℕ → ℕ) (base size avail : ℕ) → List ℕ → Type 0
FreeBlocks word base size avail [] = Unit {0}
FreeBlocks word base size avail (i ∷ is) =
    (avail ≡ i) × FreeBlocks word base size (word (base + i * size)) is

abbrev pub has : ℕ → List ℕ → Bool
has i [] = false
has i (j ∷ js) = (i == j) || has i js

-- The blocks of a sequence are different blocks of a superblock of `count`.
abbrev pub DistinctBelow : (count : ℕ) → List ℕ → Type 0
DistinctBelow count [] = Unit {0}
DistinctBelow count (i ∷ is) = (i < count) × (has i is ≡ false) × DistinctBelow count is

-- `is` are the free blocks of the superblock of a descriptor, and `reserved` of them are set
-- aside: by the credits of the active word, or for an allocation under way. The others stand in
-- the anchor's credits.
pub record IsSuperblock (word : ℕ → ℕ) (e : Descriptor) (is : List ℕ) (reserved : ℕ) : Type 0 where
  pub positive : 0 < e.des_size
  pub few : e.des_maxcount ≤ 1024
  pub blocks : FreeBlocks word e.des_slice.s_ptr e.des_size (anchor_get_avail e.des_anchor) is
  pub distinct : DistinctBelow e.des_maxcount is
  pub counted : length is ≡ anchor_get_credits e.des_anchor + reserved

-- What an active word sets aside: the credit of the word itself and those in its low bits.
abbrev pub reserved_by : (active : ℕ) → ℕ
reserved_by active = if active_get_ptr active == null then 0 else active_get_credits active + 1

mul_mono : (a b c : ℕ) → a ≤ b → a * c ≤ b * c
mul_mono a b c h = grind arith

block_ne : (base size i j : ℕ) → 0 < size → i ≢ j → base + i * size ≢ base + j * size
block_ne base size i j pos ne e = elim (dec_lt i j) [
  | yes below ↦ omega (arith, mul_mono (suc i) j size below)
  | no above ↦ omega (arith, mul_mono (suc j) i size (omega arith))
]

-- A write to the memory of a block that is not in the sequence keeps the sequence.
pub FreeBlocks-put :
    (word : ℕ → ℕ) (base size avail j v : ℕ) (is : List ℕ)
    → 0 < size
    → has j is ≡ false
    → FreeBlocks word base size avail is
    → FreeBlocks (put (base + j * size) v word) base size avail is
FreeBlocks-put word base size avail j v [] pos out f = tt
FreeBlocks-put word base size avail j v (i ∷ is) pos out f =
    let apart : (base + i * size == base + j * size) ≡ false =
      ne→== _ _ (block_ne base size i j pos (ground arith)) in
    rw apart
      (f.0, FreeBlocks-put word base size (word (base + i * size)) j v is pos (ground arith) f.1)

-- A free block's number fits the ten bits of the field avail.
pub FreeBlocks-field :
    (word : ℕ → ℕ) (base size avail count : ℕ) (is : List ℕ)
    → count ≤ 1024
    → DistinctBelow count is
    → FreeBlocks word base size avail is
    → FreeBlocks word base size (avail % 2 ^ 10) is
FreeBlocks-field word base size avail count [] few below f = tt
FreeBlocks-field word base size avail count (i ∷ is) few below f = (omega arith, f.1)
