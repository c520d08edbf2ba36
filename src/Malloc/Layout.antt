-- ===== src/Malloc/Layout.antt =====
-- src/mm/malloc/lf_malloc.c: the static memory of malloc.
use masters_thesis.Base.{
  ℕ, zero, suc, ◌+◌, ◌*◌, ◌≤◌, ◌<◌, ◌^◌, ◌%◌, ◌≡◌, bit_and, [], ◌==◌, if◌then◌else◌, arith,
}
use masters_thesis.Base.Bits.{bit_and_field}
use masters_thesis.Base.Word.{add32, sub32}
use masters_thesis.Malloc.SizeClass.{num_size_classes, cache_line_size}
use masters_thesis.Malloc.State.{Mallocs, null}

-- `((size - 1) & ~(CACHE_LINE_SIZE - 1)) + CACHE_LINE_SIZE`
unfoldable pub aligned : (size : ℕ) → ℕ
aligned size = add32 (bit_and (sub32 size 1) 0xffffffe0) cache_line_size

-- The sizes of procheap_t, of lf_block_queue_t and of lf_block_queue_hazard_ptrs_t are arguments.
module _ (size_of_procheap size_of_queue size_of_hazard_ptrs execs : ℕ) where
  abbrev pub procheap_size : ℕ
  procheap_size = size_of_procheap * execs * num_size_classes % 2 ^ 32

  abbrev pub one_blockqueue_size : ℕ
  one_blockqueue_size = add32 size_of_queue (execs * size_of_hazard_ptrs % 2 ^ 32)

  unfoldable pub mm_malloc_request : ℕ
  mm_malloc_request =
      add32 (aligned procheap_size) (aligned one_blockqueue_size * num_size_classes % 2 ^ 32)

  -- The address of the queue of a size class.
  unfoldable pub queue_address : (mem class : ℕ) → ℕ
  queue_address mem class = mem + aligned procheap_size + class * aligned one_blockqueue_size

  -- What mm_malloc_init returns.
  unfoldable pub end_address : (mem : ℕ) → ℕ
  end_address mem = mem + aligned procheap_size + aligned one_blockqueue_size * num_size_classes

-- The loop over the size classes from j on, for the executor i.
unfoldable pub init_row : (rounds j i : ℕ) → Mallocs → Mallocs
init_row zero j i s = s
init_row (suc n) j i s = init_row n (j + 1) i (record s {
  heap = λ h.
      if h == i * num_size_classes + j
      then record { ph_partial = null; ph_active = 0; ph_sizeclass = j }
      else s.heap h;
})

unfoldable pub init_heaps : (rounds i : ℕ) → Mallocs → Mallocs
init_heaps zero i s = s
init_heaps (suc n) i s = init_heaps n (i + 1) (init_row num_size_classes 0 i s)

-- lf_block_queue_init makes an empty queue.
unfoldable pub init_queues : (rounds i : ℕ) → Mallocs → Mallocs
init_queues zero i s = s
init_queues (suc n) i s =
    init_queues n (i + 1) (record s { sc_partial = λ c. if c == i then [] else s.sc_partial c })

unfoldable pub mm_malloc_init :
    (size_of_procheap size_of_queue size_of_hazard_ptrs execs mem : ℕ) → Mallocs → ℕ × Mallocs
mm_malloc_init size_of_procheap size_of_queue size_of_hazard_ptrs execs mem s = (
  end_address size_of_procheap size_of_queue size_of_hazard_ptrs execs mem,
  init_queues num_size_classes 0 (init_heaps execs 0 s),
)

pub aligned_lem : (n : ℕ) → 0 < n → n + 31 < 2 ^ 32 → (n ≤ aligned n) × (aligned n ≤ n + 31)
unfolding aligned
aligned_lem n pos fits =
    (ground (arith, bit_and_field 5 27 (sub32 n 1)), ground (arith, bit_and_field 5 27 (sub32 n 1)))

-- Where the sizes are above 0 and the static memory with its padding is below 4 GiB:
-- mm_malloc_init returns the end of the memory that mm_malloc_request counts, the processor heaps
-- end in front of the first queue, and each queue in front of the next one or of the end.
pub request_lem :
    (size_of_procheap size_of_queue size_of_hazard_ptrs execs mem class : ℕ) (s : Mallocs)
    → 0 < procheap_size size_of_procheap size_of_queue size_of_hazard_ptrs execs
    → 0 < one_blockqueue_size size_of_procheap size_of_queue size_of_hazard_ptrs execs
    → procheap_size size_of_procheap size_of_queue size_of_hazard_ptrs execs
        + 31
        + (one_blockqueue_size size_of_procheap size_of_queue size_of_hazard_ptrs execs + 31)
          * num_size_classes
      < 2 ^ 32
    → let out = (mm_malloc_init size_of_procheap size_of_queue size_of_hazard_ptrs execs mem s).0 in
      let queue = queue_address size_of_procheap size_of_queue size_of_hazard_ptrs execs mem in
      let queue_size =
        one_blockqueue_size size_of_procheap size_of_queue size_of_hazard_ptrs execs in
      (out ≡ mem + mm_malloc_request size_of_procheap size_of_queue size_of_hazard_ptrs execs)
      × (mem + procheap_size size_of_procheap size_of_queue size_of_hazard_ptrs execs ≤ queue 0)
      × (queue class + queue_size ≤ queue (class + 1))
      × (queue num_size_classes ≡ out)
unfolding mm_malloc_init mm_malloc_request queue_address end_address
request_lem size_of_procheap size_of_queue size_of_hazard_ptrs execs mem class s heaps queues fits =
    let h =
      aligned_lem (procheap_size size_of_procheap size_of_queue size_of_hazard_ptrs execs) heaps
        (omega (arith, fits)) in
    let q =
      aligned_lem (one_blockqueue_size size_of_procheap size_of_queue size_of_hazard_ptrs execs)
        queues (omega (arith, fits)) in
    (omega (arith, h, q, fits), omega (arith, h), omega (arith, q), omega arith)
