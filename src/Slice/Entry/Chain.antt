-- ===== src/Slice/Entry/Chain.antt =====
-- The list of unused descriptors as a chain through the table, and as a sequence.
use masters_thesis.Base.{
  ℕ, ◌≡◌, refl, Bool, true, false, ◌||◌, some, none, [], ◌∷◌, List, ◌==◌, arith,
}
use masters_thesis.Base.Interleave.{Window, quiet, retry}
use masters_thesis.Slice.Types.{Ptr, Slice, Slices, ptr_eq, set_entry}
use masters_thesis.Slice.Entry.{
  slice_entry_alloc, slice_entry_free, slice_entry_try_alloc, slice_entry_try_free,
}

abbrev pub has : ℕ → List ℕ → Bool
has i [] = false
has i (j ∷ js) = (i == j) || has i js

-- From `p` the fields s_next lead through the distinct entries of the sequence to NULL.
pub data Chain (tab : ℕ → Slice) : Ptr → List ℕ → Type 0 where
  nil : Chain tab none []
  cons :
      {i : ℕ} {q : Ptr} {is : List ℕ}
      → (tab i).s_next ≡ q
      → has i is ≡ false
      → Chain tab q is
      → Chain tab (some i) (i ∷ is)

-- The unused descriptors of a state, in order.
abbrev pub FreeList : Slices → List ℕ → Type 0
FreeList s is = Chain s.slice_tab s.slice_free_list is

-- A chain survives a change of the table that spares the links of its own entries.
pub Chain-frame :
    {tab tab' : ℕ → Slice} {p : Ptr} {is : List ℕ}
    → Chain tab p is
    → ((i : ℕ) → has i is ≡ true → (tab' i).s_next ≡ (tab i).s_next)
    → Chain tab' p is
Chain-frame nil same = nil
Chain-frame (cons {i} e out c) same =
    cons (ground (arith, same i)) out (Chain-frame c (λ j h. same j (ground arith)))

pub Chain-uncons :
    {tab : ℕ → Slice} {p : Ptr} {i : ℕ} {is : List ℕ}
    → Chain tab p (i ∷ is)
    → (p ≡ some i) × (has i is ≡ false) × Chain tab (tab i).s_next is
Chain-uncons {tab} {is} (cons e out c) = (refl, out, rw e c)

Chain-head : {tab : ℕ → Slice} {p : Ptr} → Chain tab p [] → p ≡ none
Chain-head nil = refl

ptr_eq_refl : (p : Ptr) → ptr_eq p p ≡ true
ptr_eq_refl none = refl
ptr_eq_refl (some i) = ground arith

module _ (ws : List (Window Slices)) (s : Slices) where
  -- Alone, `slice_entry_alloc` takes the first unused descriptor and leaves the others in order; it
  -- writes nothing but the head of the list.
  pub entry_alloc-cons :
      (i : ℕ) (is : List ℕ)
      → FreeList s (i ∷ is)
      → (s' : Slices) × (slice_entry_alloc (quiet ∷ ws) s ≡ some (some i, ws, s'))
        × (s' ≡ record s { slice_free_list = (s.slice_tab i).s_next })
        × FreeList s' is
  unfolding slice_entry_alloc slice_entry_try_alloc retry
  entry_alloc-cons i is free =
      let (head, out, rest) = Chain-uncons free in
      (record s { slice_free_list = (s.slice_tab i).s_next }, ground arith, refl, rest)

  -- With no unused descriptor it returns NULL and changes nothing.
  pub entry_alloc-nil : FreeList s [] → slice_entry_alloc (quiet ∷ ws) s ≡ some (none, ws, s)
  unfolding slice_entry_alloc slice_entry_try_alloc retry
  entry_alloc-nil free = let head = Chain-head free in ground arith

  -- Alone, giving back a descriptor that is not in the list puts it in front and keeps the others.
  pub entry_free-cons :
      (i : ℕ) (is : List ℕ)
      → FreeList s is
      → has i is ≡ false
      → (s' : Slices) × (slice_entry_free i (quiet ∷ ws) s ≡ some (tt, ws, s'))
        × (s' ≡ record (set_entry i (λ e. record e { s_next = s.slice_free_list }) s) {
          slice_free_list = some i;
        })
        × FreeList s' (i ∷ is)
  unfolding slice_entry_free slice_entry_try_free retry
  entry_free-cons i is free out = (
    record (set_entry i (λ e. record e { s_next = s.slice_free_list }) s) {
      slice_free_list = some i;
    },
    ground (arith, ptr_eq_refl s.slice_free_list),
    refl,
    cons (ground arith) out (Chain-frame free (λ j h. ground arith)),
  )
