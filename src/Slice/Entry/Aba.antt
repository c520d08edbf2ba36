-- ===== src/Slice/Entry/Aba.antt =====
-- The list of unused descriptors has no tag: a compare-and-set may succeed on a list that changed.
use masters_thesis.Base.{ℕ, ◌≡◌, false, some, ◌∷◌, List, arith}
use masters_thesis.Base.Interleave.{Window, quiet, retry}
use masters_thesis.Slice.Types.{Slices}
use masters_thesis.Slice.Entry.{slice_entry_alloc, slice_entry_try_alloc}
use masters_thesis.Slice.Entry.Chain.{FreeList, has, Chain-uncons}

-- Where an executor reads the list a, b, … and the others make it a, … before the compare-and-set,
-- by taking a and b and giving a back, the executor gets a, and b is the head of the list again
-- although it was not unused: the next executor gets b as well.
pub entry_alloc_aba :
    (w : Window Slices) (ws : List (Window Slices)) (s : Slices) (a b : ℕ) (is js : List ℕ)
    → FreeList (w.before s) (a ∷ b ∷ is)
    → FreeList (w.between (w.before s)) (a ∷ js)
    → has b (a ∷ js) ≡ false
    → (s' s'' : Slices) × (slice_entry_alloc (w ∷ ws) s ≡ some (some a, ws, s'))
      × (slice_entry_alloc (quiet ∷ ws) s' ≡ some (some b, ws, s''))
unfolding slice_entry_alloc slice_entry_try_alloc retry
entry_alloc_aba w ws s a b is js free free' gone =
    let t = w.before s in
    let u = w.between t in
    let (head, _, rest) = Chain-uncons free in
    let (second, _, _) = Chain-uncons rest in
    let (head', _, _) = Chain-uncons free' in
    let s' : Slices = record u { slice_free_list = some b } in
    (
      s',
      record s' { slice_free_list = (u.slice_tab b).s_next },
      ground (arith, head, second, head'),
      ground arith,
    )
