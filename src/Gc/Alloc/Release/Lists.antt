-- ===== src/Gc/Alloc/Release/Lists.antt =====
-- src/mm/gc/gc_alloc.c: the lists of slices at the end of a collection.
use masters_thesis.Base.{
  ℕ, zero, suc, ◌≤◌, ◌≡◌, ◌≢◌, refl, ap, ◌∙◌, true, false, some, List, [], ◌∷◌, ◌++◌, ◌==◌, length,
  if◌then◌else◌, ne→==, eq→==, arith,
}
use masters_thesis.BlockQueue.Links.{AllDistinct, Apart}
use masters_thesis.BlockQueue.Retired.Table.{has}
use masters_thesis.Gc.Alloc.{GcHeap, GcSlice, null}
use masters_thesis.Gc.Alloc.Release.{last_slice}

-- The slices of a stack, the first one first.
abbrev pub SliceList : (slice : ℕ → GcSlice) (head : ℕ) → List ℕ → Type 0
SliceList slice head [] = head ≡ null
SliceList slice head (n ∷ ns) = (head ≡ n) × SliceList slice (slice n).s_next ns

abbrev pub with_s_next : (a next : ℕ) → (ℕ → GcSlice) → ℕ → GcSlice
with_s_next a next slice b = if b == a then record (slice b) { s_next = next } else slice b

pub SliceList-with_s_next :
    (slice : ℕ → GcSlice) (head : ℕ) (ns : List ℕ) (a next : ℕ)
    → has a ns ≡ false
    → SliceList slice head ns
    → SliceList (with_s_next a next slice) head ns
SliceList-with_s_next slice head [] a next out l = l
SliceList-with_s_next slice head (n ∷ ns) a next out l = (
  l.0,
  rw (ne→== n a (ground arith))
      (SliceList-with_s_next slice (slice n).s_next ns a next (ground arith) l.1),
)

-- The walk to the last slice, which is one of them.
pub walk :
    (fuel head n : ℕ) (ns us : List ℕ) (used : ℕ) (s : GcHeap)
    → SliceList s.slice head (n ∷ ns)
    → AllDistinct (n ∷ ns)
    → Apart (n ∷ ns) us
    → SliceList s.slice used us
    → length (n ∷ ns) ≤ fuel
    → (l : ℕ) × (last_slice fuel head s ≡ some l)
      × (has l (n ∷ ns) ≡ true)
      × SliceList (with_s_next l used s.slice) head (n ∷ ns ++ us)
unfolding last_slice
walk zero head n ns us used s free distinct apart after fits = absurd (omega (arith, fits))
walk (suc fuel) head n [] us used s free distinct apart after fits = (
  n,
  rw (ap (λ (x : ℕ). (s.slice x).s_next) free.0 ∙ free.1) (ap some free.0),
  rw (eq→== n n refl) refl,
  (free.0, rw (eq→== n n refl) (SliceList-with_s_next s.slice used us n used apart.0 after)),
)
walk (suc fuel) head n (m ∷ ms) us used s free distinct apart after fits =
    let (l, run, found, links) =
      walk fuel (s.slice n).s_next m ms us used s free.1 distinct.2 apart.1 after
        (omega (arith, fits)) in
    (
      l,
      rw (ap (λ (x : ℕ). (s.slice x).s_next) free.0)
          (rw (ne→== (s.slice n).s_next null (ground (arith, free.1.0, distinct.2.0))) run),
      ground (arith, found),
      (free.0, rw (ne→== n l (apart_from l found)) links),
    )
  where
    apart_from : (l : ℕ) → has l (m ∷ ms) ≡ true → n ≢ l
    apart_from l found = ground (arith, found, distinct.1)
