-- ===== src/Malloc/Partial.antt =====
-- src/mm/malloc/lf_malloc.c: allocation from a partial superblock of a heap.
use masters_thesis.Base.{
  ℕ, zero, suc, ◌+◌, min, Option, none, some, ◌==◌, ltb, if◌then◌else◌, length,
}
use masters_thesis.Base.Word.{sub32}
use masters_thesis.Base.Interleave.{Window, Prog, pure, retry, modify, ◌>>=◌, ◌>>◌}
use masters_thesis.Malloc.Anchor.{
  anchor_get_avail, anchor_get_credits, anchor_get_state, anchor_get_tag, anchor_set_avail,
  anchor_set_credits, anchor_set_state, anchor_set_tag,
}
use masters_thesis.Malloc.SizeClass.{cache_line_size}
use masters_thesis.Malloc.State.{Mallocs, null, store, dequeue, cas_anchor, cas_partial}
use masters_thesis.Malloc.Superblock.{
  anc_active, anc_full, anc_empty, max_credits, block_addr, update_active,
}

-- A round of the loop of heap_get_partial.
unfoldable pub get_partial_round : (h : ℕ) → Window Mallocs → Mallocs → Option ℕ × Mallocs
get_partial_round h w s0 =
    let s = w.before s0 in
    let out = (s.heap h).ph_partial in
    if out == null
    then (let (d, s') = dequeue (s.heap h).ph_sizeclass s in (some d, s'))
    else (let (swapped, s') = cas_partial h out null (w.between s) in
        (if swapped then some out else none, s'))

unfoldable pub heap_get_partial : (h : ℕ) → Prog Mallocs ℕ
heap_get_partial h = retry (get_partial_round h)

unfoldable pub pop_from_partial : (d : ℕ) → Window Mallocs → Mallocs → Option ℕ × Mallocs
pop_from_partial d w s0 =
    let s = w.before s0 in
    let oldanchor = (s.desc d).des_anchor in
    let addr = block_addr (s.desc d) (anchor_get_avail oldanchor) in
    let avail = anchor_set_avail oldanchor (s.word addr) in
    let newanchor = anchor_set_tag avail (anchor_get_tag oldanchor + 1) in
    let (out, s') = cas_anchor d oldanchor newanchor (w.between s) in
    (if out then some addr else none, s')

-- The credits that malloc_from_partial takes besides the one for its own block.
abbrev pub claimed_credits : (anchor : ℕ) → ℕ
claimed_credits anchor = min (sub32 (anchor_get_credits anchor) 1) max_credits

unfoldable pub claimed_anchor : (anchor : ℕ) → ℕ
claimed_anchor anchor =
    let credits = claimed_credits anchor in
    let active = anchor_set_state anchor (if ltb 0 credits then anc_active else anc_full) in
    anchor_set_credits active (sub32 (anchor_get_credits anchor) (credits + 1))

-- A round of the inner loop of malloc_from_partial: `some none` where the superblock is empty, and
-- `some (some credits)` where it is claimed.
unfoldable pub claim_round : (d : ℕ) → Window Mallocs → Mallocs → Option (Option ℕ) × Mallocs
unfolding claimed_anchor
claim_round d w s0 =
    let s = w.before s0 in
    let oldanchor = (s.desc d).des_anchor in
    if anchor_get_state oldanchor == anc_empty
    then (some none, s)
    else (let (out, s') = cas_anchor d oldanchor (claimed_anchor oldanchor) (w.between s) in
        (if out then some (some (claimed_credits oldanchor)) else none, s'))

-- The outer loop, up to a claimed descriptor with its credits, or NULL. Each round uses up a
-- window, so the schedule's own length is fuel enough.
unfoldable pub claim_partial : (fuel h : ℕ) → Prog Mallocs (ℕ × ℕ)
claim_partial zero h ws s = none
claim_partial (suc fuel) h ws s =
    let again = claim_partial fuel h in
    (do
      d ← heap_get_partial h
      if d == null then pure (null, 0) else (do
        claimed ← retry (claim_round d)
        elim claimed [ none ↦ again | some credits ↦ pure (d, credits) ]))
      ws s

unfoldable pub partial_block : (h d morecredits : ℕ) → Prog Mallocs ℕ
partial_block h d morecredits = do
  addr ← retry (pop_from_partial d)
  if ltb 0 morecredits then update_active h d morecredits else pure tt
  modify (store addr d)
  pure (addr + cache_line_size)

unfoldable pub malloc_from_partial : (h : ℕ) → Prog Mallocs ℕ
unfolding claim_partial partial_block
malloc_from_partial h ws s =
    (do
      (d, morecredits) ← claim_partial (suc (length ws)) h
      if d == null then pure null else partial_block h d morecredits)
      ws s
