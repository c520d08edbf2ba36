-- ===== src/Malloc/Superblock.antt =====
-- src/mm/malloc/lf_malloc.c: taking blocks from the active superblock of a heap and from partial
-- ones.
pub mod Invariant
pub mod Pop
pub mod Take
use masters_thesis.Base.{
  ℕ, zero, suc, ◌+◌, ◌*◌, min, Bool, true, false, not, Option, none, some, List, [], ◌∷◌, ◌==◌, ltb,
  ◌&&◌, if◌then◌else◌, length,
}
use masters_thesis.Base.Word.{add32, sub32}
use masters_thesis.Base.Interleave.{Window, Prog, pure, once, retry, modify, gets, ◌>>=◌, ◌>>◌}
use masters_thesis.Malloc.Anchor.{
  anchor_get_avail, anchor_get_credits, anchor_get_state, anchor_get_tag, anchor_set_avail,
  anchor_set_credits, anchor_set_state, anchor_set_tag, active_create, active_get_credits,
  active_get_ptr, active_set_credits, active_set_ptr,
}
use masters_thesis.Malloc.SizeClass.{cache_line_size}
use masters_thesis.Malloc.State.{
  Descriptor, Mallocs, null, set_desc, store, enqueue, dequeue, cas_anchor, cas_active, cas_partial,
}

abbrev pub anc_active : ℕ
anc_active = 0

abbrev pub anc_full : ℕ
anc_full = 1

abbrev pub anc_partial : ℕ
anc_partial = 2

abbrev pub anc_empty : ℕ
anc_empty = 3

abbrev pub max_credits : ℕ
max_credits = 64

unfoldable pub try_reserve_from_active : (h active : ℕ) → Mallocs → Bool × Mallocs
try_reserve_from_active h active s =
    let credits = active_get_credits active in
    let newactive =
      if credits == 0
      then active_set_ptr active null
      else active_set_credits active (sub32 credits 1) in
    cas_active h active newactive s

-- A round of the loop of reserve_from_active.
unfoldable pub reserve_round : (h : ℕ) → Window Mallocs → Mallocs → Option ℕ × Mallocs
unfolding try_reserve_from_active
reserve_round h w s0 =
    let s = w.before s0 in
    let active = (s.heap h).ph_active in
    if active_get_ptr active == null
    then (some active, s)
    else (let (out, s') = try_reserve_from_active h active (w.between s) in
        (if out then some active else none, s'))

unfoldable pub reserve_from_active : (h : ℕ) → Prog Mallocs ℕ
reserve_from_active h = retry (reserve_round h)

-- The loop of try_heap_put_partial.
unfoldable pub try_heap_put_partial :
    (d : ℕ) → Window Mallocs → Mallocs → Option (Unit {0}) × Mallocs
try_heap_put_partial d w s0 =
    let s = w.before s0 in
    let h = (s.desc d).des_heap in
    let prev = (s.heap h).ph_partial in
    let (out, s') = cas_partial h prev d (w.between s) in
    if out
    then (some tt, if prev == null then s' else enqueue (s'.heap h).ph_sizeclass prev s')
    else (none, s')

unfoldable pub heap_put_partial : (d : ℕ) → Prog Mallocs (Unit {0})
heap_put_partial d = retry (try_heap_put_partial d)

-- The compare-and-set of update_partial; heap_put_partial follows it once it succeeds.
unfoldable pub try_update_partial :
    (d morecredits : ℕ) → Window Mallocs → Mallocs → Option (Unit {0}) × Mallocs
try_update_partial d morecredits w s0 =
    let s = w.before s0 in
    let oldanchor = (s.desc d).des_anchor in
    let partial = anchor_set_state oldanchor anc_partial in
    let newanchor = anchor_set_credits partial (add32 (anchor_get_credits oldanchor) morecredits) in
    let (out, s') = cas_anchor d oldanchor newanchor (w.between s) in
    (if out then some tt else none, s')

unfoldable pub update_partial : (d morecredits : ℕ) → Prog Mallocs (Unit {0})
update_partial d morecredits = do retry (try_update_partial d morecredits); heap_put_partial d

unfoldable pub update_active : (h d morecredits : ℕ) → Prog Mallocs (Unit {0})
update_active h d morecredits = do
  let active = active_create d (sub32 morecredits 1)
  done ← once (λ w s. cas_active h 0 active (w.between (w.before s)))
  if done then pure tt else update_partial d morecredits

-- The address of the block that an anchor names.
abbrev pub block_addr : Descriptor → (avail : ℕ) → ℕ
block_addr e avail = e.des_slice.s_ptr + avail * e.des_size

-- The anchor that pop_from_active installs, given the block that the first one names as next.
unfoldable pub popped_anchor : (active oldanchor next : ℕ) → ℕ
popped_anchor active oldanchor next =
    let morecredits = min (anchor_get_credits oldanchor) max_credits in
    let avail = anchor_set_avail oldanchor next in
    let newanchor = anchor_set_tag avail (anchor_get_tag oldanchor + 1) in
    if active_get_credits active == 0
    then if anchor_get_credits oldanchor == 0
      then anchor_set_state newanchor anc_full
      else anchor_set_credits newanchor (sub32 (anchor_get_credits newanchor) morecredits)
    else newanchor

-- pop_from_active up to its compare-and-set: the block and the anchor that it was taken from.
unfoldable pub try_pop_active : (active : ℕ) → Window Mallocs → Mallocs → Option (ℕ × ℕ) × Mallocs
unfolding popped_anchor
try_pop_active active w s0 =
    let s = w.before s0 in
    let d = active_get_ptr active in
    let oldanchor = (s.desc d).des_anchor in
    let addr = block_addr (s.desc d) (anchor_get_avail oldanchor) in
    let next = s.word addr in
    let (out, s') = cas_anchor d oldanchor (popped_anchor active oldanchor next) (w.between s) in
    (if out then some (addr, oldanchor) else none, s')

-- The rest of pop_from_active.
unfoldable pub popped_active : (h active addr oldanchor : ℕ) → Prog Mallocs ℕ
popped_active h active addr oldanchor = do
  let d = active_get_ptr active
  let morecredits = min (anchor_get_credits oldanchor) max_credits
  if (active_get_credits active == 0) && ltb 0 (anchor_get_credits oldanchor)
      then update_active h d morecredits
      else pure tt
  modify (store addr d)
  pure (addr + cache_line_size)

unfoldable pub malloc_from_active : (h : ℕ) → Prog Mallocs ℕ
malloc_from_active h = do
  active ← reserve_from_active h
  if active_get_ptr active == null then pure null else (do
    (addr, oldanchor) ← retry (try_pop_active active)
    popped_active h active addr oldanchor)
