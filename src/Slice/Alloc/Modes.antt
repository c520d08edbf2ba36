-- ===== src/Slice/Alloc/Modes.antt =====
-- slice_set_usage and slice_set_prot: when the system is told, and what the descriptor says then.
use masters_thesis.Base.{
  ℕ, ◌≡◌, ◌≢◌, true, some, none, ◌∷◌, List, Bool-cases, inl, inr, ◌==◌, if◌then◌else◌, refl, ap,
  get_or, [], arith,
}
use masters_thesis.Base.Interleave.{Window, quiet}
use masters_thesis.Os.Mem.{SliceProt, prot_index, os_mem_map_result, os_mem_remap}
use masters_thesis.Slice.Types.{SliceType, Slice, SliceUsage, used, unused, blank, Slices}
use masters_thesis.Slice.Entry.Chain.{FreeList}
use masters_thesis.Slice.Space.{slice_reserve_space}
use masters_thesis.Slice.Alloc.{usage_eq, usage_call, slice_set_usage, slice_set_prot, slice_alloc}
use masters_thesis.Slice.Alloc.Outcome.{alloc_lem}

usage_eq_refl : (u : SliceUsage) → usage_eq u u ≡ true
usage_eq_refl used = refl
usage_eq_refl unused = refl
usage_eq_refl blank = refl

usage_eq_sound : (u v : SliceUsage) → usage_eq u v ≡ true → u ≡ v
usage_eq_sound used used h = refl
usage_eq_sound unused unused h = refl
usage_eq_sound blank blank h = refl
usage_eq_sound used unused h = cc
usage_eq_sound used blank h = cc
usage_eq_sound unused used h = cc
usage_eq_sound unused blank h = cc
usage_eq_sound blank used h = cc
usage_eq_sound blank unused h = cc

abbrev of_index : ℕ → SliceProt
of_index n = get_or prots n SliceProt.none
  where
    prots : List SliceProt
    prots =
        SliceProt.none ∷ SliceProt.r ∷ SliceProt.w ∷ SliceProt.rw ∷ SliceProt.x ∷ SliceProt.rx
        ∷ SliceProt.wx ∷ SliceProt.rwx ∷ []

of_index-prot_index : (p : SliceProt) → of_index (prot_index p) ≡ p
of_index-prot_index SliceProt.none = refl
of_index-prot_index SliceProt.r = refl
of_index-prot_index SliceProt.w = refl
of_index-prot_index SliceProt.rw = refl
of_index-prot_index SliceProt.x = refl
of_index-prot_index SliceProt.rx = refl
of_index-prot_index SliceProt.wx = refl
of_index-prot_index SliceProt.rwx = refl

prot_index-injective : (p q : SliceProt) → prot_index p ≡ prot_index q → p ≡ q
prot_index-injective p q h = cc (ap of_index h, of_index-prot_index p, of_index-prot_index q)

-- After `slice_set_usage` the descriptor has the usage that was asked for, and asking again changes
-- nothing; the system is told, by the call for that usage, exactly if the usage was another.
pub set_usage_lem :
    (i : ℕ) (usage : SliceUsage) (s : Slices)
    → (let s' = slice_set_usage i usage s in
        ((s'.slice_tab i).s_usage ≡ usage)
        × (slice_set_usage i usage s' ≡ s')
        × (s'.os ≡ (
            if usage_eq (s.slice_tab i).s_usage usage
            then s.os
            else usage_call (s.slice_tab i) usage ∷ s.os)))
unfolding slice_set_usage
set_usage_lem i usage s = elim (Bool-cases (usage_eq (s.slice_tab i).s_usage usage)) [
  | inl same ↦ rw (same, same) (usage_eq_sound _ _ same, refl, refl)
  | inr other ↦ ground (arith, other, usage_eq_refl usage)
]

-- After `slice_set_prot` the descriptor has the protection that was asked for, and asking again
-- changes nothing; the system is told exactly if the protection was another.
pub set_prot_lem :
    (i : ℕ) (prot : SliceProt) (s : Slices)
    → (let s' = slice_set_prot i prot s in
        ((s'.slice_tab i).s_prot ≡ prot)
        × (slice_set_prot i prot s' ≡ s')
        × (s'.os ≡ (
            if prot_index (s.slice_tab i).s_prot == prot_index prot
            then s.os
            else os_mem_remap (s.slice_tab i).s_ptr (s.slice_tab i).s_size prot ∷ s.os)))
unfolding slice_set_prot
set_prot_lem i prot s = elim (Bool-cases (prot_index (s.slice_tab i).s_prot == prot_index prot)) [
  | inl same ↦ rw (same, same) (prot_index-injective _ _ (ground (arith, same)), refl, refl)
  | inr other ↦ ground (arith, other)
]

-- A slice that `slice_alloc` maps keeps the protection that its descriptor had before: changing the
-- slice to that one makes no call of the system, whatever protection the memory was mapped with.
pub alloc_prot_stale :
    (failures mapped size : ℕ) (type : SliceType) (prot : SliceProt) (ws ws' : List (Window Slices))
    (s t : Slices) (i : ℕ) (is : List ℕ)
    → slice_reserve_space failures size type ws s ≡ some (true, quiet ∷ ws', t)
    → FreeList t (i ∷ is)
    → os_mem_map_result mapped ≢ 0
    → (u : Slices) × (slice_alloc failures none mapped type prot size ws s ≡ some (some i, ws', u))
      × (slice_set_prot i (t.slice_tab i).s_prot u ≡ u)
unfolding slice_set_prot
alloc_prot_stale failures mapped size type prot ws ws' s t i is e free ok =
    let (u, run, _, entry, _, _) =
      alloc_lem failures mapped size type prot ws ws' s t i is e free ok in
    (u, run, ground (arith, ap (λ (d : Slice). d.s_prot) (entry i)))
