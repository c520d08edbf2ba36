-- ===== src/Malloc/Free.antt =====
-- src/mm/malloc/lf_malloc.c: free.
pub mod Freed
pub mod Push
pub mod Requeue
use masters_thesis.Base.{
  ℕ, zero, suc, ◌+◌, ◌-◌, ◌/◌, ◌%◌, Bool, true, false, Option, none, some, List, [], ◌∷◌, ◌==◌, ltb,
  not, ◌&&◌, if◌then◌else◌, length,
}
use masters_thesis.Base.Word.{add32, sub32}
use masters_thesis.Base.Interleave.{Window, Prog, pure, once, gets, modify, retry, ◌>>=◌, ◌>>◌}
use masters_thesis.Malloc.Anchor.{
  anchor_get_avail, anchor_get_credits, anchor_get_state, anchor_set_avail, anchor_set_credits,
  anchor_set_state,
}
use masters_thesis.Malloc.SizeClass.{cache_line_size}
use masters_thesis.Malloc.State.{
  Descriptor, Mallocs, null, set_desc, store, enqueue, dequeue, slice_free, cas_anchor, cas_partial,
}
use masters_thesis.Malloc.Desc.{malloc_desc_retire}
use masters_thesis.Malloc.Superblock.{anc_full, anc_partial, anc_empty, heap_put_partial}

abbrev pub desc_empty : Mallocs → ℕ → Bool
desc_empty s d = anchor_get_state (s.desc d).des_anchor == anc_empty

-- What a round of the loop of remove_empty_desc meets: the end of the queue, a descriptor that it
-- drops, or an empty one.
pub data Met : Type 0 where
  at_end : Met
  in_use : Met
  empty : (d : ℕ) → Met

-- A round: a dequeue, then a read of the anchor. The others may act before each of the two.
unfoldable pub dequeue_round : (class : ℕ) → Window Mallocs → Mallocs → Met × Mallocs
dequeue_round c w s0 =
    let (curr, s1) = dequeue c (w.before s0) in
    let s2 = w.between s1 in
    if curr == null then (at_end, s1) else (if desc_empty s2 curr then empty curr else in_use, s2)

-- The loop, and the enqueue behind it.
unfoldable pub requeue_rounds : (fuel class : ℕ) → Prog Mallocs (Unit {0})
requeue_rounds zero c ws s = none
requeue_rounds (suc fuel) c ws s =
    (do
      met ← once (dequeue_round c)
      elim met [
        | at_end ↦ pure tt
        | in_use ↦ requeue_rounds fuel c
        | empty d ↦ once (λ w t. (tt, enqueue c d (w.before t)))
      ])
      ws s

-- The second branch of remove_empty_desc. Each round uses up a window, so that one more than the
-- windows of the schedule is enough.
unfoldable pub requeue_empty : (class : ℕ) → Prog Mallocs (Unit {0})
requeue_empty c ws s = requeue_rounds (suc (length ws)) c ws s

unfoldable pub remove_empty_desc : (h d : ℕ) → Prog Mallocs (Unit {0})
remove_empty_desc h d = do
  done ← once (λ w s. cas_partial h d null (w.between (w.before s)))
  if done
      then malloc_desc_retire d
      else (do class ← gets (λ s. (s.heap h).ph_sizeclass); requeue_empty class)

-- The anchor that try_free installs for the block `offset` of a superblock of `maxcount` blocks.
unfoldable pub freed_anchor : (oldanchor offset maxcount : ℕ) → ℕ
freed_anchor oldanchor offset maxcount =
    let reopened =
      if anchor_get_state oldanchor == anc_full
      then anchor_set_state oldanchor anc_partial
      else oldanchor in
    let newanchor = anchor_set_avail reopened offset in
    if anchor_get_credits oldanchor == sub32 maxcount 1
    then anchor_set_state newanchor anc_empty
    else anchor_set_credits newanchor (anchor_get_credits newanchor + 1)

-- try_free up to its compare-and-set: the anchors before and after.
unfoldable pub try_free : (d ptr : ℕ) → Window Mallocs → Mallocs → Option (ℕ × ℕ) × Mallocs
unfolding freed_anchor
try_free d ptr w s0 =
    let s = w.before s0 in
    let oldanchor = (s.desc d).des_anchor in
    let offset = (ptr - (s.desc d).des_slice.s_ptr) / (s.desc d).des_size in
    let newanchor = freed_anchor oldanchor offset (s.desc d).des_maxcount in
    let s' = store ptr (anchor_get_avail oldanchor) s in
    let (out, s'') = cas_anchor d oldanchor newanchor (w.between s') in
    (if out then some (oldanchor, newanchor) else none, s'')

-- The rest of try_free. `heap` is des_heap only where the superblock became empty.
unfoldable pub freed_block : (d oldanchor newanchor : ℕ) → Prog Mallocs (Unit {0})
freed_block d oldanchor newanchor =
    if anchor_get_state newanchor == anc_empty
    then (do
      e ← gets (λ s. s.desc d)
      modify (slice_free e.des_slice.slice)
      remove_empty_desc e.des_heap d)
    else if anchor_get_state oldanchor == anc_full
    then heap_put_partial d
    else pure tt

-- The word in front of a block is a descriptor of malloc, or for a large block an address with its
-- lowest bit set, which slice_free is given as the address of a slice.
unfoldable pub free_lf : (ptr : ℕ) → Prog Mallocs (Unit {0})
unfolding try_free freed_block
free_lf ptr ws s =
    if ptr == null
    then some (tt, ws, s)
    else let prefix = ptr - cache_line_size in
      let tag_val = s.word prefix in
      let tag_ptr = tag_val - tag_val % 2 in
      if tag_val % 2 == 0
      then (do
        (oldanchor, newanchor) ← retry (try_free tag_ptr prefix)
        freed_block tag_ptr oldanchor newanchor)
          ws s
      else some (tt, ws, slice_free tag_ptr s)
