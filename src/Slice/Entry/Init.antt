-- ===== src/Slice/Entry/Init.antt =====
-- slice_init: every descriptor of the table is unused.
use masters_thesis.Base.{ℕ, zero, suc, ◌+◌, ◌<◌, ◌≡◌, refl, false, some, [], ◌∷◌, List, arith}
use masters_thesis.Slice.Types.{Slice, Slices, link_entries, slice_init, slice_tab_size}
use masters_thesis.Slice.Entry.Chain.{has, Chain, nil, cons, FreeList}

-- The `k` numbers from `j` on.
abbrev pub count_from : (j k : ℕ) → List ℕ
count_from j zero = []
count_from j (suc k) = j ∷ count_from (j + 1) k

not-has-count_from : (i j k : ℕ) → i < j → has i (count_from j k) ≡ false
not-has-count_from i j zero h = refl
not-has-count_from i j (suc k) h = ground (arith, not-has-count_from i (j + 1) k)

linked :
    (tab : ℕ → Slice) (k j : ℕ)
    → j + suc k ≡ slice_tab_size
    → Chain (link_entries tab) (some j) (count_from j (suc k))
linked tab zero j h = cons (ground arith) refl nil
linked tab (suc k) j h =
    cons (ground arith) (not-has-count_from j (j + 1) (suc k) (omega arith))
      (linked tab k (j + 1) (omega arith))

-- After `slice_init` all 256 descriptors are unused, in the order of the table; the total is 0,
-- and the limits and the default size are the arguments.
pub init-FreeList :
    (max defaultsize malloc_max gc_max : ℕ) (s : Slices)
    → (let s' = slice_init max defaultsize malloc_max gc_max s in
        FreeList s' (count_from 0 slice_tab_size)
        × (s'.total_size ≡ 0)
        × (s'.total_limit ≡ max)
        × (s'.slice_size ≡ defaultsize)
        × (s'.malloc_limit ≡ malloc_max)
        × (s'.gc_limit ≡ gc_max))
unfolding slice_init
init-FreeList max d m g s = (linked s.slice_tab 255 0 refl, refl, refl, refl, refl, refl)
