-- ===== src/Slice/Space/Interfered.antt =====
-- A reservation among other executors that move the counters as they like.
use masters_thesis.Base.{ℕ, ◌≤◌, ◌≡◌, refl, Bool, true, some, ◌∷◌, [], List, arith}
use masters_thesis.Base.Interleave.{Window, Prog, Each, Keeps, retry}
use masters_thesis.Base.Word.{add32}
use masters_thesis.Slice.Types.{Slices}
use masters_thesis.Slice.Space.{
  Counter, total, malloc_space, gc_space, counted, limit, set_counted, reserve_round,
  slice_reserve_total_space, slice_reserve_gc_space, slice_reserve_malloc_space,
}

counted-set : (c : Counter) (n : ℕ) (s : Slices) → counted c (set_counted c n s) ≡ n
counted-set total n s = refl
counted-set malloc_space n s = refl
counted-set gc_space n s = refl

reserve_total_over :
    (failures size : ℕ) (ws : List (Window Slices)) (s : Slices) {ws' : List (Window Slices)}
    {s' : Slices}
    → Each (Keeps (λ (t : Slices). t.total_limit)) ws
    → slice_reserve_total_space failures size ws s ≡ some (true, ws', s')
    → s.total_limit ≤ s'.total_size
unfolding slice_reserve_total_space
reserve_total_over f size [] s kept e = cc
reserve_total_over f size (w ∷ ws) s {ws'} {s'} (kw, kept) e =
    let t = w.before s in
    let limits : t.total_limit ≡ s.total_limit = kw.before s in
    let limits' : (w.between t).total_limit ≡ t.total_limit = kw.between t in
    ground (
      arith,
      limits,
      limits',
      reserve_total_over f size ws (w.between t) {ws' = ws'} {s' = s'} kept,
      reserve_total_over (add32 f 1) size ws t {ws' = ws'} {s' = s'} kept,
    )

round_over :
    (c : Counter) (size : ℕ) (ws : List (Window Slices)) (s : Slices) {ws' : List (Window Slices)}
    {s' : Slices}
    → Each (Keeps (limit c)) ws
    → retry (reserve_round c size true) ws s ≡ some (true, ws', s')
    → limit c s ≤ counted c s'
unfolding retry reserve_round
round_over c size [] s kept e = cc
round_over c size (w ∷ ws) s {ws'} {s'} (kw, kept) e =
    let t = w.before s in
    let limits : limit c t ≡ limit c s = kw.before s in
    let limits' : limit c (w.between t) ≡ limit c t = kw.between t in
    ground (
      arith,
      limits,
      limits',
      counted-set c (add32 (counted c t) size) (w.between t),
      round_over c size ws (w.between t) {ws' = ws'} {s' = s'} kept,
    )

-- The reservation of each counter.
abbrev pub reserve : Counter → (failures size : ℕ) → Prog Slices Bool
reserve total failures size = slice_reserve_total_space failures size
reserve gc_space failures size = slice_reserve_gc_space size
reserve malloc_space failures size = slice_reserve_malloc_space size

-- Among other executors that change anything but the limits: a reservation that is granted leaves
-- its counter at or above the limit, for the total, the collector's and malloc's counters.
pub granted_over :
    (c : Counter) (failures size : ℕ) (ws ws' : List (Window Slices)) (s s' : Slices)
    → Each (Keeps (limit c)) ws
    → reserve c failures size ws s ≡ some (true, ws', s')
    → limit c s ≤ counted c s'
unfolding slice_reserve_gc_space slice_reserve_malloc_space
granted_over total failures size ws ws' s s' = reserve_total_over failures size ws s
granted_over gc_space failures size ws ws' s s' = round_over gc_space size ws s
granted_over malloc_space failures size ws ws' s s' = round_over malloc_space size ws s
