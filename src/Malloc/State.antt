-- ===== src/Malloc/State.antt =====
-- The state of src/mm/malloc/lf_malloc.c: descriptors of superblocks, processor heaps, the queues of
-- partial superblocks, and the memory of the blocks.
use masters_thesis.Base.{
  ℕ, Bool, true, false, List, [], ◌∷◌, ◌++◌, Option, none, some, ◌==◌, if◌then◌else◌,
}

-- A `slice_t*` with the fields that malloc reads; they do not change while malloc has the slice.
pub record Region : Type 0 where
  pub slice : ℕ
  pub s_ptr : ℕ
  pub s_size : ℕ

pub record Descriptor : Type 0 where
  pub des_anchor : ℕ
  pub des_next : ℕ
  pub des_slice : Region
  pub des_heap : ℕ
  pub des_size : ℕ
  pub des_maxcount : ℕ

-- ph_sizeclass is the place in malloc_sizeclasses.
pub record Procheap : Type 0 where
  pub ph_partial : ℕ
  pub ph_active : ℕ
  pub ph_sizeclass : ℕ

-- Descriptors stand at addresses, 0 being NULL; heaps at places in malloc_procheaps. The queue of a
-- size class holds descriptors. `word` is the memory by addresses of `unsigned int` and pointers.
-- `slices` is what the coming calls of slice_alloc return, NULL once it is empty, and `freed` what
-- slice_free was given, the last one first.
pub record Mallocs : Type 0 where
  pub desc : ℕ → Descriptor
  pub malloc_desc_avail : ℕ
  pub heap : ℕ → Procheap
  pub sc_partial : ℕ → List ℕ
  pub word : ℕ → ℕ
  pub slices : List Region
  pub freed : List ℕ

abbrev pub null : ℕ
null = 0

abbrev pub set_desc : ℕ → (Descriptor → Descriptor) → Mallocs → Mallocs
set_desc d f s = record s { desc = λ e. if e == d then f (s.desc e) else s.desc e }

abbrev pub set_heap : ℕ → (Procheap → Procheap) → Mallocs → Mallocs
set_heap h f s = record s { heap = λ g. if g == h then f (s.heap g) else s.heap g }

abbrev pub put : (addr value : ℕ) → (ℕ → ℕ) → ℕ → ℕ
put a v word b = if b == a then v else word b

abbrev pub store : (addr value : ℕ) → Mallocs → Mallocs
store a v s = record s { word = put a v s.word }

-- lf_block_queue_enqueue and lf_block_queue_dequeue, as steps on the queue that they implement.
abbrev pub enqueue : (class d : ℕ) → Mallocs → Mallocs
enqueue c d s = record s {
  sc_partial = λ j. if j == c then s.sc_partial j ++ d ∷ [] else s.sc_partial j;
}

abbrev pub first_of_queue : List ℕ → ℕ
first_of_queue [] = null
first_of_queue (d ∷ ds) = d

abbrev pub rest_of_queue : List ℕ → List ℕ
rest_of_queue [] = []
rest_of_queue (d ∷ ds) = ds

abbrev pub dequeue : (class : ℕ) → Mallocs → ℕ × Mallocs
dequeue c s = (
  first_of_queue (s.sc_partial c),
  record s { sc_partial = λ j. if j == c then rest_of_queue (s.sc_partial j) else s.sc_partial j },
)

-- slice_alloc of 0x10000 bytes for malloc.
abbrev pub first_slice : List Region → Option Region
first_slice [] = none
first_slice (r ∷ rs) = some r

abbrev pub later_slices : List Region → List Region
later_slices [] = []
later_slices (r ∷ rs) = rs

abbrev pub take_slice : Mallocs → Option Region × Mallocs
take_slice s = (first_slice s.slices, record s { slices = later_slices s.slices })

abbrev pub slice_free : (slice : ℕ) → Mallocs → Mallocs
slice_free slice s = record s { freed = slice ∷ s.freed }

-- The compare-and-set of each shared word.
abbrev pub cas_anchor : (d expect value : ℕ) → Mallocs → Bool × Mallocs
cas_anchor d expect value s =
    if (s.desc d).des_anchor == expect
    then (true, set_desc d (λ e. record e { des_anchor = value }) s)
    else (false, s)

abbrev pub cas_active : (h expect value : ℕ) → Mallocs → Bool × Mallocs
cas_active h expect value s =
    if (s.heap h).ph_active == expect
    then (true, set_heap h (λ g. record g { ph_active = value }) s)
    else (false, s)

abbrev pub cas_partial : (h expect value : ℕ) → Mallocs → Bool × Mallocs
cas_partial h expect value s =
    if (s.heap h).ph_partial == expect
    then (true, set_heap h (λ g. record g { ph_partial = value }) s)
    else (false, s)

abbrev pub cas_avail : (expect value : ℕ) → Mallocs → Bool × Mallocs
cas_avail expect value s =
    if s.malloc_desc_avail == expect
    then (true, record s { malloc_desc_avail = value })
    else (false, s)
