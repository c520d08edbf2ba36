-- ===== src/Malloc/Runs.antt =====
-- The theorems on malloc and free at concrete states.
use masters_thesis.Base.{
  ℕ, ◌+◌, ◌-◌, ◌*◌, ◌/◌, ◌^◌, ◌<◌, ◌≡◌, ◌≢◌, refl, sym, true, false, some, none, List, [], ◌∷◌,
  ◌++◌, ◌==◌, if◌then◌else◌, arith,
}
use masters_thesis.Base.Interleave.{Window, quiet}
use masters_thesis.Malloc.Anchor.{
  anchor_get_avail, anchor_get_credits, anchor_get_state, active_get_ptr, active_get_credits,
}
use masters_thesis.Malloc.SizeClass.{
  cache_line_size, sc_size, sc_block_size, find_heap, malloc_size_class,
}
use masters_thesis.Malloc.State.{Region, Descriptor, Mallocs, null}
use masters_thesis.Malloc.Superblock.{block_addr, malloc_from_active}
use masters_thesis.Malloc.Superblock.Invariant.{IsSuperblock, reserved_by}
use masters_thesis.Malloc.Superblock.Take.{Taken, active_desc}
use masters_thesis.Malloc.Desc.{dessize, desc_alloc}
use masters_thesis.Malloc.Desc.Leak.{DescList, every, desc_alloc_still_listed}
use masters_thesis.Malloc.Alloc.{superblock_from_slice, malloc_lf, alloc_loop}
use masters_thesis.Malloc.Alloc.Fresh.{count_from, superblock_from_slice-IsSuperblock}
use masters_thesis.Malloc.Alloc.Outcome.{malloc_lf-Taken, IsStarved, quiets, malloc_lf_starved}
use masters_thesis.Malloc.Free.{free_lf, remove_empty_desc, desc_empty}
use masters_thesis.Malloc.Free.Push.{Returned, free_lf-Returned}
use masters_thesis.Malloc.Alloc.Reuse.{free-malloc}
use masters_thesis.Malloc.Free.Requeue.{HasQueue, requeue_empty_drops}

abbrev some_region : Region
some_region = record { slice = 1; s_ptr = 65536; s_size = 65536 }

-- The superblock's blocks have 0x60 bytes. Block 3 is free and names 5, which names 6; block 4 is
-- in use. One credit is in the anchor.
abbrev some_desc : Descriptor
some_desc = record {
  des_anchor = 3 * 2 ^ 54 + 2 ^ 44;
  des_next = 0;
  des_slice = some_region;
  des_heap = 2;
  des_size = 0x60;
  des_maxcount = 682;
}

abbrev some_word : ℕ → ℕ
some_word a = if a == 65824 then 5 else if a == 66016 then 6 else if a == 65920 then 64 else 0

-- The active words of all heaps name the descriptor 64 and have one credit.
abbrev some_mallocs : Mallocs
some_mallocs = record {
  desc = λ _. some_desc;
  malloc_desc_avail = 0;
  heap = λ _. record { ph_partial = 0; ph_active = 65; ph_sizeclass = 2 };
  sc_partial = λ _. [];
  word = some_word;
  slices = some_region ∷ [];
  freed = [];
}

some-IsSuperblock : IsSuperblock some_word some_desc (3 ∷ 5 ∷ 6 ∷ []) 2
unfolding anchor_get_avail anchor_get_credits
some-IsSuperblock = record {
  positive = omega arith;
  few = omega arith;
  blocks = (refl, (refl, (refl, tt)));
  distinct = (omega arith, refl, (omega arith, refl, (omega arith, refl, tt)));
  counted = refl;
}

two_reserved :
    IsSuperblock some_word
      (some_mallocs.desc (active_desc 2 some_mallocs))
      (3 ∷ 5 ∷ 6 ∷ [])
      (reserved_by 65)
unfolding active_get_ptr active_get_credits
two_reserved = some-IsSuperblock

has_active : active_desc 2 some_mallocs ≢ null
unfolding active_get_ptr
has_active = omega arith

heap_two : find_heap (32 + cache_line_size) 0 ≡ some 2
unfolding find_heap malloc_size_class
heap_two = refl

malloc_lf-Taken_example :
    (u : Mallocs) × (left : List (Window Mallocs)) × (malloc_lf 48 none 32 0
        (quiet ∷ quiet ∷ quiet ∷ [])
        some_mallocs
      ≡ some (
        block_addr (some_mallocs.desc (active_desc 2 some_mallocs)) 3 + cache_line_size,
        left,
        u,
      ))
    × Taken 2 (active_desc 2 some_mallocs) 3 (5 ∷ 6 ∷ []) some_mallocs u
malloc_lf-Taken_example =
    malloc_lf-Taken 48 32 0 2 3 (5 ∷ 6 ∷ []) none [] some_mallocs (omega arith) (omega arith)
      heap_two has_active two_reserved

credits_left : anchor_get_credits some_desc.des_anchor + 1 < 682
unfolding anchor_get_credits
credits_left = omega arith

state_active : anchor_get_state some_desc.des_anchor ≢ 3
unfolding anchor_get_state
state_active = omega arith

free_lf-Returned_example :
    (u : Mallocs) × (left : List (Window Mallocs)) × (free_lf
        (block_addr some_desc 4 + cache_line_size)
        (quiet ∷ quiet ∷ [])
        some_mallocs
      ≡ some (tt, left, u))
    × Returned 64 4 (3 ∷ 5 ∷ 6 ∷ []) 2 some_mallocs u
free_lf-Returned_example =
    free_lf-Returned [] 64 4 (3 ∷ 5 ∷ 6 ∷ []) 2 some_mallocs some-IsSuperblock credits_left
      (omega arith) refl refl refl state_active

-- Nothing is active or partial, and no slice is left.
abbrev no_blocks : Mallocs
no_blocks = record some_mallocs {
  heap = λ _. record { ph_partial = 0; ph_active = 0; ph_sizeclass = 2 };
  slices = [];
}

size_two : sc_size 2 ≡ 0x60
unfolding sc_size
size_two = refl

superblock_from_slice-IsSuperblock_example :
    (u : Mallocs) × (superblock_from_slice 2 some_region 64 (quiet ∷ []) no_blocks
      ≡ some (65536 + cache_line_size, [], u))
    × IsSuperblock u.word
        (u.desc 64)
        (count_from 1 (sc_block_size / sc_size 2 - 1))
        (reserved_by (u.heap 2).ph_active)
    × (active_get_ptr (u.heap 2).ph_active ≡ 64)
    × (u.word 65536 ≡ 64)
    × ((u.desc 64).des_slice ≡ some_region)
superblock_from_slice-IsSuperblock_example =
    superblock_from_slice-IsSuperblock 2 64 some_region [] no_blocks refl (omega (arith, size_two))
      (rw size_two (omega arith)) (rw size_two (omega arith)) (omega arith) (omega arith) refl

starved : IsStarved 2 no_blocks
unfolding active_get_ptr
starved = record { no_active = refl; no_slot = refl; no_queue = refl; no_slices = refl }

malloc_lf_starved_example :
    (malloc_lf 48 none 32 0 (quiets 9) no_blocks ≡ none)
    × (alloc_loop 20 48 2 (quiets 9) no_blocks ≡ none)
malloc_lf_starved_example =
    malloc_lf_starved 48 32 0 2 9 20 none no_blocks (omega arith) (omega arith) heap_two starved

no_heap_large : find_heap (300000 + cache_line_size) 0 ≡ none
unfolding find_heap
no_heap_large = refl

-- The queue of class 2 has the descriptors 64, 128 and 192; all but 128 are in use. The descriptor
-- 256 is in no slot.
abbrev queued : Mallocs
queued = record some_mallocs {
  desc = λ d. if d == 128 then record some_desc { des_anchor = 3 * 2 ^ 42 } else some_desc;
  sc_partial = λ _. 64 ∷ 128 ∷ 192 ∷ [];
  heap = λ _. record { ph_partial = 320; ph_active = 0; ph_sizeclass = 2 };
}

queued_used : desc_empty queued 64 ≡ false
unfolding anchor_get_state
queued_used = refl

queued_empty : desc_empty queued 128 ≡ true
unfolding anchor_get_state
queued_empty = refl

requeue_empty_drops_example :
    (u : Mallocs) × (remove_empty_desc 2 256 (quiet ∷ quiet ∷ quiet ∷ quiet ∷ []) queued
      ≡ some (tt, [], u))
    × HasQueue 2 (192 ∷ 128 ∷ []) queued u
requeue_empty_drops_example =
    requeue_empty_drops 2 256 queued (64 ∷ []) (192 ∷ []) 128 [] (omega arith) refl
      (omega arith, queued_used, tt) (omega arith) queued_empty

desc_alloc_still_listed_example :
    (d : ℕ) × (u : Mallocs) × (desc_alloc 48 (quiet ∷ []) some_mallocs ≡ some (d, [], u))
    × DescList u.desc u.malloc_desc_avail (every (65536 + dessize 48) (dessize 48) 1021 ++ d ∷ [])
desc_alloc_still_listed_example =
    desc_alloc_still_listed 48 1021 some_region [] [] some_mallocs refl refl refl

is_desc : active_desc 2 some_mallocs ≡ 64
unfolding active_get_ptr
is_desc = refl

free-malloc_example :
    (u v : Mallocs) × (rest left : List (Window Mallocs)) × (free_lf
        (block_addr some_desc 4 + cache_line_size)
        (quiet ∷ quiet ∷ [])
        some_mallocs
      ≡ some (tt, rest, u))
    × (malloc_from_active 2 (quiet ∷ quiet ∷ quiet ∷ []) u
        ≡ some (block_addr some_desc 4 + cache_line_size, left, v))
    × IsSuperblock v.word
        (v.desc (active_desc 2 some_mallocs))
        (3 ∷ 5 ∷ 6 ∷ [])
        (reserved_by (v.heap 2).ph_active)
free-malloc_example =
    free-malloc 2 4 (3 ∷ 5 ∷ 6 ∷ []) [] some_mallocs has_active two_reserved credits_left
      (omega arith) refl (sym is_desc) (rw is_desc refl) state_active

-- Descriptor 128 is available, and no other.
abbrev one_desc : Mallocs
one_desc = record some_mallocs { malloc_desc_avail = 128 }
