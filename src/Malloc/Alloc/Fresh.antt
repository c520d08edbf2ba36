-- ===== src/Malloc/Alloc/Fresh.antt =====
-- A new superblock and its free blocks.
use masters_thesis.Base.{
  ℕ, zero, suc, ◌+◌, ◌-◌, ◌*◌, ◌/◌, ◌%◌, ◌^◌, ◌≤◌, ◌<◌, ◌≡◌, ◌≢◌, refl, ap, ◌∙◌, false, some, List,
  [], ◌∷◌, length, ne→==, eq→==, arith,
}
use masters_thesis.Base.Interleave.{Window, quiet}
use masters_thesis.Base.Word.{add32, sub32}
use masters_thesis.Malloc.SizeClass.{cache_line_size, sc_size, sc_block_size}
use masters_thesis.Malloc.State.{
  Region, Descriptor, Procheap, Mallocs, null, store, put, set_desc, set_heap,
}
use masters_thesis.Malloc.Anchor.{active_create, active_get_ptr, anchor_create}
use masters_thesis.Malloc.Anchor.Active
use masters_thesis.Malloc.Anchor.Rules.{avail-create, credits-create}
use masters_thesis.Malloc.Superblock.{anc_active}
use masters_thesis.Malloc.Superblock.Invariant.{
  reserved_by, FreeBlocks-put, FreeBlocks, has, DistinctBelow, IsSuperblock,
}
use masters_thesis.Malloc.Alloc.{link_blocks, block_rounds, first_credits, superblock_from_slice}

-- The numbers of `n` blocks from i on.
abbrev pub count_from : (i n : ℕ) → List ℕ
count_from i zero = []
count_from i (suc n) = i ∷ count_from (i + 1) n

-- The loop leaves the memory below the first block that it links.
link_below :
    (n i base size : ℕ) (s : Mallocs) (a : ℕ)
    → a < base + size * i
    → (link_blocks n i base size s).word a ≡ s.word a
unfolding link_blocks
link_below zero i base size s a below = refl
link_below (suc n) i base size s a below =
    link_below n (i + 1) base size (store (base + size * i) (i + 1) s) a (grind (arith, below))
    ∙ rw (ne→== a (base + size * i) (omega arith)) refl

linked_next :
    (n i base size : ℕ) (s : Mallocs)
    → 0 < size
    → (link_blocks n (i + 1) base size (store (base + size * i) (i + 1) s)).word (base + i * size)
      ≡ i + 1
linked_next n i base size s pos =
    let here : base + i * size ≡ base + size * i = grind arith in
    rw here (
      link_below n (i + 1) base size (store (base + size * i) (i + 1) s) (base + size * i)
        (grind (arith, pos))
      ∙ rw (eq→== (base + size * i) (base + size * i) refl) refl)

link_FreeBlocks :
    (n i base size : ℕ) (s : Mallocs)
    → 0 < size
    → FreeBlocks (link_blocks n i base size s).word base size i (count_from i (suc n))
unfolding link_blocks
link_FreeBlocks zero i base size s pos = (refl, tt)
link_FreeBlocks (suc n) i base size s pos = (
  refl,
  rw (linked_next n i base size s pos)
      (link_FreeBlocks n (i + 1) base size (store (base + size * i) (i + 1) s) pos),
)

counted-FreeBlocks :
    (n m i base size : ℕ) (s : Mallocs)
    → m ≡ suc n
    → 0 < size
    → FreeBlocks (link_blocks n i base size s).word base size i (count_from i m)
counted-FreeBlocks n m i base size s e pos = rw e (link_FreeBlocks n i base size s pos)

has-count_from : (k i n : ℕ) → k < i → has k (count_from i n) ≡ false
has-count_from k i zero below = refl
has-count_from k i (suc n) below =
    rw (ne→== k i (omega arith)) (has-count_from k (i + 1) n (omega arith))

count_from-DistinctBelow : (i n count : ℕ) → i + n ≤ count → DistinctBelow count (count_from i n)
count_from-DistinctBelow i zero count fits = tt
count_from-DistinctBelow i (suc n) count fits = (
  omega arith,
  has-count_from i (i + 1) n (omega arith),
  count_from-DistinctBelow (i + 1) n count (omega arith),
)

length-count_from : (i n : ℕ) → length (count_from i n) ≡ n
length-count_from i zero = refl
length-count_from i (suc n) = ap suc (length-count_from (i + 1) n)

module _ (h d : ℕ) (r : Region) (ws : List (Window Mallocs)) (s : Mallocs) where
  abbrev size : ℕ
  size = sc_size (s.heap h).ph_sizeclass

  abbrev maxcount : ℕ
  maxcount = sc_block_size / size

  abbrev linked : Mallocs
  linked = link_blocks (block_rounds maxcount) 1 r.s_ptr size s

  abbrev created : ℕ
  created = anchor_create 1 (sub32 (sub32 maxcount 1) (add32 (first_credits maxcount) 1)) anc_active

  abbrev described : Descriptor → Descriptor
  described e = record e {
    des_slice = r;
    des_heap = h;
    des_size = size;
    des_maxcount = maxcount;
    des_anchor = created;
  }

  abbrev activated : Mallocs → Mallocs
  activated t =
      set_heap h (λ g. record g { ph_active = active_create d (first_credits maxcount) })
        (set_desc d described t)

  link_heap : (n i base sz : ℕ) (t : Mallocs) → (link_blocks n i base sz t).heap ≡ t.heap
  unfolding link_blocks
  link_heap zero i base sz t = refl
  link_heap (suc n) i base sz t = link_heap n (i + 1) base sz (store (base + sz * i) (i + 1) t)

  from_slice_run :
      (s.heap h).ph_active ≡ 0
      → superblock_from_slice h r d (quiet ∷ ws) s
        ≡ some (r.s_ptr + cache_line_size, ws, store r.s_ptr d (activated linked))
  unfolding superblock_from_slice
  from_slice_run unused = ground (
    arith,
    unused,
    ap (λ (f : ℕ → Procheap). (f h).ph_active) (link_heap (block_rounds maxcount) 1 r.s_ptr size s),
  )

  -- The word that names the descriptor stands in block 0, which is not on the chain.
  first_blocks :
      0 < size
      → 2 ≤ maxcount
      → FreeBlocks
          (put r.s_ptr d linked.word)
          r.s_ptr
          size
          (1 % 2 ^ 10)
          (count_from 1 (maxcount - 1))
  first_blocks pos two =
      let chain =
        counted-FreeBlocks (block_rounds maxcount) (maxcount - 1) 1 r.s_ptr size s
          (omega (arith, two)) pos in
      let start : r.s_ptr + 0 * size ≡ r.s_ptr = omega arith in
      let marked =
        FreeBlocks-put linked.word r.s_ptr size 1 0 d (count_from 1 (maxcount - 1)) pos
          (has-count_from 0 1 (maxcount - 1) (omega arith)) chain in
      rw start at marked

  fresh-IsSuperblock :
      0 < size
      → 2 ≤ maxcount
      → maxcount ≤ 1024
      → IsSuperblock
          (put r.s_ptr d linked.word)
          (described (linked.desc d))
          (count_from 1 (maxcount - 1))
          (first_credits maxcount + 1)
  fresh-IsSuperblock pos two few = record {
    positive = pos;
    few = few;
    blocks =
        rw (avail-create 1 (sub32 (sub32 maxcount 1) (add32 (first_credits maxcount) 1)) anc_active)
          (first_blocks pos two);
    distinct = count_from-DistinctBelow 1 (maxcount - 1) maxcount (omega arith);
    counted =
        length-count_from 1 (maxcount - 1)
        ∙ omega (
          arith,
          credits-create 1 (sub32 (sub32 maxcount 1) (add32 (first_credits maxcount) 1)) anc_active,
        );
  }

-- Where no other executor interferes, and the heap has no active superblock: superblock_from_slice
-- takes block 0 of the slice for its caller and returns the address behind its first cache line.
-- The other blocks, from 1 on, are free, and those that the new active word grants are set aside.
-- It holds where the size of the class is above 0 and gives from 2 to 1024 blocks, and for a
-- descriptor at a 32-bit address other than NULL that is a multiple of 64.
pub superblock_from_slice-IsSuperblock :
    (h d : ℕ) (r : Region) (ws : List (Window Mallocs)) (s : Mallocs)
    → (s.heap h).ph_active ≡ 0
    → 0 < sc_size (s.heap h).ph_sizeclass
    → 2 ≤ sc_block_size / sc_size (s.heap h).ph_sizeclass
    → sc_block_size / sc_size (s.heap h).ph_sizeclass ≤ 1024
    → d ≢ null
    → d < 2 ^ 32
    → d % 64 ≡ 0
    → (u : Mallocs) × (superblock_from_slice h r d (quiet ∷ ws) s
        ≡ some (r.s_ptr + cache_line_size, ws, u))
      × IsSuperblock u.word
          (u.desc d)
          (count_from 1 (sc_block_size / sc_size (s.heap h).ph_sizeclass - 1))
          (reserved_by (u.heap h).ph_active)
      × (active_get_ptr (u.heap h).ph_active ≡ d)
      × (u.word r.s_ptr ≡ d)
      × ((u.desc d).des_slice ≡ r)
superblock_from_slice-IsSuperblock h d r ws s unused pos two few ne fits aligned =
    let (ptr, credits, _) =
      Active.active_roundtrip d (first_credits (maxcount h d r ws s)) fits aligned (omega arith) in
    (
      store r.s_ptr d (activated h d r ws s (linked h d r ws s)),
      from_slice_run h d r ws s unused,
      rw (eq→== d d refl) (
          rw (eq→== h h refl)
            (rw (ptr, ne→== d null ne, credits) (fresh-IsSuperblock h d r ws s pos two few))),
      rw (eq→== h h refl) ptr,
      rw (eq→== r.s_ptr r.s_ptr refl) refl,
      rw (eq→== d d refl) refl,
    )
