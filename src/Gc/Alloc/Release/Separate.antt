-- ===== src/Gc/Alloc/Release/Separate.antt =====
-- src/mm/gc/gc_alloc.c: the body of the loop that puts the used slices behind the free ones, among
-- the lists of the other powers and generations.
use masters_thesis.Base.{
  ℕ, ◌≤◌, ◌≡◌, refl, ◌∙◌, Bool, true, false, ◌&&◌, ◌||◌, some, List, [], ◌∷◌, ◌++◌, inl, inr, ◌==◌,
  length, if◌then◌else◌, ne→==, eq→==, Bool-cases, arith,
}
use masters_thesis.BlockQueue.Links.{AllDistinct, Apart}
use masters_thesis.BlockQueue.Retired.Table.{has}
use masters_thesis.Gc.Alloc.{GcHeap, free_slices, used_slices, null, set_stack, set_s_next}
use masters_thesis.Gc.Alloc.Release.{append_used}
use masters_thesis.Gc.Alloc.Release.Lists.{SliceList, SliceList-with_s_next, walk}

-- The free slices of each power and generation are distinct, and in no other list.
pub record AreSeparate (free used : ℕ → ℕ → List ℕ) : Type 0 where
  pub distinct : (i j : ℕ) → AllDistinct (free i j)
  pub from_used : (i j a b n : ℕ) → has n (free i j) ≡ true → has n (used a b) ≡ false
  pub from_free :
      (i j a b n : ℕ)
      → ((a == i) && (b == j)) ≡ false
      → has n (free i j) ≡ true
      → has n (free a b) ≡ false

has-append : (n : ℕ) (ms ns : List ℕ) → has n (ms ++ ns) ≡ (has n ms || has n ns)
has-append n [] ns = refl
has-append n (m ∷ ms) ns = ground (arith, has-append n ms ns)

Apart-lists : (ms ns : List ℕ) → ((n : ℕ) → has n ms ≡ true → has n ns ≡ false) → Apart ms ns
Apart-lists [] ns apart = tt
Apart-lists (m ∷ ms) ns apart = (
  apart m (rw (eq→== m m refl) refl),
  Apart-lists ms ns (λ (n : ℕ) (h : has n ms ≡ true). apart n (ground (arith, h))),
)

module _ (free used : ℕ → ℕ → List ℕ) (sep : AreSeparate free used) where
  -- The free slices once those of some powers and generations have the used ones behind them.
  abbrev pub now : (done : ℕ → ℕ → Bool) → ℕ → ℕ → List ℕ
  now done a b = if done a b then free a b ++ used a b else free a b

  pub record Holds (done : ℕ → ℕ → Bool) (s : GcHeap) : Type 0 where
    pub lists : (a b : ℕ) → SliceList s.slice (s.stack free_slices a b) (now done a b)
    pub useds : (a b : ℕ) → SliceList s.slice (s.stack used_slices a b) (used a b)

  pub Holds-same :
      (done done' : ℕ → ℕ → Bool) (s : GcHeap)
      → ((a b : ℕ) → done a b ≡ done' a b)
      → Holds done s
      → Holds done' s
  Holds-same done done' s same h = record {
    lists = λ a b. rw (same a b) at (h.lists a b);
    useds = h.useds;
  }

  abbrev pub with_done : (done : ℕ → ℕ → Bool) (i j : ℕ) → ℕ → ℕ → Bool
  with_done done i j a b = done a b || ((a == i) && (b == j))

  -- No other list has a free slice of i and j.
  now_apart :
      (done : ℕ → ℕ → Bool) (i j a b n : ℕ)
      → ((a == i) && (b == j)) ≡ false
      → has n (free i j) ≡ true
      → has n (now done a b) ≡ false
  now_apart done i j a b n other found = elim (Bool-cases (done a b)) [
    | inl is_done ↦ rw is_done (
        has-append n (free a b) (used a b)
        ∙ rw (sep.from_free i j a b n other found) (sep.from_used i j a b n found))
    | inr not_done ↦ rw not_done (sep.from_free i j a b n other found)
  ]

  list_at :
      (done : ℕ → ℕ → Bool) (i j : ℕ) (s : GcHeap)
      → done i j ≡ false
      → Holds done s
      → SliceList s.slice (s.stack free_slices i j) (free i j)
  list_at done i j s not_done h = rw not_done at (h.lists i j)

  -- The appended list of i and j, and what stays.
  pointwise :
      (done : ℕ → ℕ → Bool) (i j : ℕ) (t : GcHeap)
      → SliceList t.slice (t.stack free_slices i j) (free i j ++ used i j)
      → ((a b : ℕ)
          → ((a == i) && (b == j)) ≡ false
          → SliceList t.slice (t.stack free_slices a b) (now done a b))
      → (a b : ℕ) → SliceList t.slice (t.stack free_slices a b) (now (with_done done i j) a b)
  pointwise done i j t here others a b = elim (Bool-cases ((a == i) && (b == j))) [
    | inl same ↦
        let (at_i, at_j) = both a b same in
        rw (at_i, at_j) (rw (eq→== i i refl, eq→== j j refl) (by_done (done i j)))
    | inr other ↦ rw other (unchanged a b (done a b) (others a b other))
  ]
    where
      both : (a b : ℕ) → ((a == i) && (b == j)) ≡ true → (a ≡ i) × (b ≡ j)
      both a b same = ground (arith, same)

      by_done :
          (d : Bool)
          → SliceList t.slice
              (t.stack free_slices i j)
              (if d || (true && true) then free i j ++ used i j else free i j)
      by_done true = here
      by_done false = here

      unchanged :
          (a b : ℕ) (d : Bool)
          → SliceList t.slice
              (t.stack free_slices a b)
              (if d then free a b ++ used a b else free a b)
          → SliceList t.slice
              (t.stack free_slices a b)
              (if d || false then free a b ++ used a b else free a b)
      unchanged a b true l = l
      unchanged a b false l = l

  -- The body of the loop where there are no free slices.
  step_none :
      (fuel i j : ℕ) (done : ℕ → ℕ → Bool) (s : GcHeap)
      → free i j ≡ []
      → done i j ≡ false
      → Holds done s
      → (t : GcHeap) × (append_used fuel i j s ≡ some t) × Holds (with_done done i j) t
  unfolding append_used
  step_none fuel i j done s none not_done h =
      let t = set_stack free_slices i j (s.stack used_slices i j) s in
      let l = list_at done i j s not_done h in
      let empty : s.stack free_slices i j ≡ null = rw none at l in
      (
        t,
        rw (eq→== (s.stack free_slices i j) null empty) refl,
        record {
          lists =
              pointwise done i j t (rw none (rw (eq→== i i refl, eq→== j j refl) (h.useds i j)))
                (λ (a b : ℕ) (other : ((a == i) && (b == j)) ≡ false). rw other (h.lists a b));
          useds = h.useds;
        },
      )

  step_some :
      (fuel i j n : ℕ) (ns : List ℕ) (done : ℕ → ℕ → Bool) (s : GcHeap)
      → free i j ≡ n ∷ ns
      → done i j ≡ false
      → length (free i j) ≤ fuel
      → Holds done s
      → (t : GcHeap) × (append_used fuel i j s ≡ some t) × Holds (with_done done i j) t
  unfolding append_used
  step_some fuel i j n ns done s e not_done fits h =
      let l = list_at done i j s not_done h in
      let is_free : SliceList s.slice (s.stack free_slices i j) (n ∷ ns) = rw e at l in
      let distinct : AllDistinct (n ∷ ns) = rw e at (sep.distinct i j) in
      let (last, run, found, links) =
        walk fuel (s.stack free_slices i j) n ns (used i j) (s.stack used_slices i j) s is_free
          distinct (Apart-lists (n ∷ ns) (used i j) (rw e at (sep.from_used i j i j))) (h.useds i j)
          (rw e at fits) in
      let in_free : has last (free i j) ≡ true = rw e found in
      let t = set_s_next last (s.stack used_slices i j) s in
      (
        t,
        rw (ne→== (s.stack free_slices i j) null (ground (arith, is_free.0, distinct.0)), run) refl,
        record {
          lists =
              pointwise done i j t (rw e links)
                (λ (a b : ℕ) (other : ((a == i) && (b == j)) ≡ false).
                  SliceList-with_s_next s.slice (s.stack free_slices a b) (now done a b) last
                    (s.stack used_slices i j) (now_apart done i j a b last other in_free)
                    (h.lists a b));
          useds = λ a b.
              SliceList-with_s_next s.slice (s.stack used_slices a b) (used a b) last
                (s.stack used_slices i j) (sep.from_used i j a b last in_free) (h.useds a b);
        },
      )

  pub step_lem :
      (fuel i j : ℕ) (done : ℕ → ℕ → Bool) (s : GcHeap)
      → done i j ≡ false
      → length (free i j) ≤ fuel
      → Holds done s
      → (t : GcHeap) × (append_used fuel i j s ≡ some t) × Holds (with_done done i j) t
  step_lem fuel i j done s not_done fits h = by_list (free i j) refl
    where
      by_list :
          (ns : List ℕ)
          → free i j ≡ ns
          → (t : GcHeap) × (append_used fuel i j s ≡ some t) × Holds (with_done done i j) t
      by_list [] e = step_none fuel i j done s e not_done h
      by_list (n ∷ ns) e = step_some fuel i j n ns done s e not_done fits h
