-- ===== src/Malloc/Desc/Leak.antt =====
-- The list of descriptors that desc_alloc makes of a new slice.
use masters_thesis.Base.{
  ℕ, zero, suc, ◌+◌, ◌-◌, ◌*◌, ◌/◌, ◌<◌, ◌≡◌, refl, ap, ◌∙◌, some, List, [], ◌∷◌, ◌++◌, ◌==◌,
  if◌then◌else◌, ne→==, eq→==, arith,
}
use masters_thesis.Base.Interleave.{Window, quiet, retry_done}
use masters_thesis.Malloc.State.{Region, Descriptor, Mallocs, null, set_desc}
use masters_thesis.Malloc.Desc.{dessize, link_descs, desc_from_slice, try_desc_alloc, desc_alloc}

-- The descriptors of a sequence are linked in this order by des_next, the last one to NULL.
abbrev pub DescList : (desc : ℕ → Descriptor) (head : ℕ) → List ℕ → Type 0
DescList desc head [] = head ≡ null
DescList desc head (d ∷ ds) = (head ≡ d) × DescList desc (desc d).des_next ds

-- `n` addresses from `addr` on.
abbrev pub every : (addr size n : ℕ) → List ℕ
every addr size zero = []
every addr size (suc n) = addr ∷ every (addr + size) size n

-- `n` descriptors from `addr` on name the next one.
abbrev Linked : (desc : ℕ → Descriptor) (addr size n : ℕ) → Type 0
Linked desc addr size zero = Unit {0}
Linked desc addr size (suc n) =
    ((desc addr).des_next ≡ addr + size) × Linked desc (addr + size) size n

abbrev ended : (last : ℕ) (desc : ℕ → Descriptor) → ℕ → Descriptor
ended last desc e = if e == last then record (desc e) { des_next = null } else desc e

Linked-DescList :
    (desc : ℕ → Descriptor) (addr size n last : ℕ)
    → 0 < size
    → last ≡ addr + n * size
    → Linked desc addr size n
    → DescList (ended last desc) addr (every addr size (suc n))
Linked-DescList desc addr size zero last pos e l =
    (refl, rw (eq→== addr last (omega (arith, e))) refl)
Linked-DescList desc addr size (suc n) last pos e l = (
  refl,
  rw (ne→== addr last (grind (arith, e, pos)), l.0)
      (Linked-DescList desc (addr + size) size n last pos (grind (arith, e)) l.1),
)

Linked-shorter :
    (desc : ℕ → Descriptor) (addr size n : ℕ)
    → Linked desc addr size (suc n)
    → Linked desc addr size n
Linked-shorter desc addr size zero l = tt
Linked-shorter desc addr size (suc n) l = (l.0, Linked-shorter desc (addr + size) size n l.1)

link_last : (n size addr : ℕ) (s : Mallocs) → (link_descs n size addr s).0 ≡ addr + n * size
unfolding link_descs
link_last zero size addr s = omega arith
link_last (suc n) size addr s = link_last n size (addr + size) _ ∙ grind arith

link_below :
    (n size addr d : ℕ) (s : Mallocs) → d < addr → (link_descs n size addr s).1.desc d ≡ s.desc d
unfolding link_descs
link_below zero size addr d s below = refl
link_below (suc n) size addr d s below =
    link_below n size (addr + size) d _ (omega arith) ∙ rw (ne→== d addr (omega arith)) refl

link_Linked :
    (n size addr : ℕ) (s : Mallocs)
    → 0 < size
    → Linked (link_descs n size addr s).1.desc addr size n
unfolding link_descs
link_Linked zero size addr s pos = tt
link_Linked (suc n) size addr s pos = (
  ap (λ (e : Descriptor). e.des_next) (link_below n size (addr + size) addr _ (omega arith))
      ∙ rw (eq→== addr addr refl) refl,
  link_Linked n size (addr + size) _ pos,
)

every-snoc :
    (p addr size n : ℕ)
    → p ≡ addr + n * size
    → every addr size (suc n) ≡ every addr size n ++ p ∷ []
every-snoc p addr size zero e = ap (λ (a : ℕ). a ∷ []) (omega (arith, e))
every-snoc p addr size (suc n) e =
    ap (λ (rest : List ℕ). addr ∷ rest) (every-snoc p (addr + size) size n (grind (arith, e)))

module _ (size_of n : ℕ) (r : Region) (rs : List Region) (ws : List (Window Mallocs))
    (s : Mallocs) where
  abbrev size : ℕ
  size = dessize size_of

  size_pos : 0 < size
  size_pos = ground arith

  -- The state once the loop linked the n + 3 descriptors of the slice.
  abbrev linked : Mallocs
  linked = (link_descs (suc (suc n)) size r.s_ptr (record s { slices = rs })).1

  abbrev last : ℕ
  last = r.s_ptr + suc n * size

  abbrev made : Mallocs
  made = record (set_desc last (λ e. record e { des_next = null }) linked) {
    malloc_desc_avail = r.s_ptr + size;
  }

  keeps_avail :
      (k sz addr : ℕ) (t : Mallocs)
      → (link_descs k sz addr t).1.malloc_desc_avail ≡ t.malloc_desc_avail
  unfolding link_descs
  keeps_avail zero sz addr t = refl
  keeps_avail (suc k) sz addr t = keeps_avail k sz (addr + sz) _

  from_slice_lem :
      s.malloc_desc_avail ≡ null
      → r.s_size / size ≡ n + 3
      → desc_from_slice size_of r quiet (record s { slices = rs }) ≡ (some last, made)
  unfolding desc_from_slice
  from_slice_lem unused count =
      let rounds : r.s_size / size - 1 ≡ suc (suc n) = omega (arith, count) in
      let at_last : (link_descs (suc (suc n)) size r.s_ptr (record s { slices = rs })).0 - size
          ≡ last =
        grind (arith, link_last (suc (suc n)) size r.s_ptr (record s { slices = rs })) in
      let avail : (link_descs (suc (suc n)) size r.s_ptr
            (record s { slices = rs })).1.malloc_desc_avail
          ≡ null =
        keeps_avail (suc (suc n)) size r.s_ptr (record s { slices = rs }) ∙ unused in
      rw (rounds, at_last, avail) refl

-- Where no other executor interferes, no descriptor is available, and slice_alloc returns a slice
-- for n + 3 descriptors: desc_alloc makes a list of the second to the last but one, and what it
-- returns is the last descriptor of that list, which stays on it. The first and the last
-- descriptor of the slice are lost.
pub desc_alloc_still_listed :
    (size_of n : ℕ) (r : Region) (rs : List Region) (ws : List (Window Mallocs)) (s : Mallocs)
    → s.malloc_desc_avail ≡ null
    → s.slices ≡ r ∷ rs
    → r.s_size / dessize size_of ≡ n + 3
    → (d : ℕ) × (u : Mallocs) × (desc_alloc size_of (quiet ∷ ws) s ≡ some (d, ws, u))
      × DescList u.desc u.malloc_desc_avail
          (every (r.s_ptr + dessize size_of) (dessize size_of) n ++ d ∷ [])
unfolding desc_alloc try_desc_alloc
desc_alloc_still_listed size_of n r rs ws s unused slices count =
    let pos = size_pos size_of n r rs ws s in
    (
      last size_of n r rs ws s,
      made size_of n r rs ws s,
      retry_done (try_desc_alloc size_of) quiet ws s (made size_of n r rs ws s)
          (last size_of n r rs ws s)
          (ground (arith, unused, slices, from_slice_lem size_of n r rs ws s unused count)),
      rw
          (← every-snoc (last size_of n r rs ws s) (r.s_ptr + dessize size_of) (dessize size_of) n
            (grind arith))
          (Linked-DescList (linked size_of n r rs ws s).desc (r.s_ptr + dessize size_of)
            (dessize size_of) n (last size_of n r rs ws s) pos (grind arith)
            (Linked-shorter (linked size_of n r rs ws s).desc (r.s_ptr + dessize size_of)
              (dessize size_of) n
              (link_Linked (suc (suc n)) (dessize size_of) r.s_ptr (record s { slices = rs })
                pos).1)),
    )
