-- ===== src/Malloc/Examples.antt =====
-- The theorems on malloc's data at concrete inputs.
use masters_thesis.Malloc.Layout.{mm_malloc_request, mm_malloc_init, queue_address, request_lem}
use masters_thesis.Malloc.State.{Mallocs}
use masters_thesis.Base.{[], ℕ, ◌+◌, ◌*◌, ◌/◌, ◌%◌, ◌^◌, ◌≤◌, ◌<◌, ◌≡◌, arith}
use masters_thesis.Malloc.Anchor.{
  anchor_create, anchor_set_avail, anchor_set_credits, anchor_set_state, anchor_set_tag,
}
use masters_thesis.Malloc.Anchor.Laws.{fields, setters-fields}
use masters_thesis.Malloc.SizeClass.{malloc_size_class, sc_size, sc_block_size, num_size_classes}
use masters_thesis.Malloc.SizeClass.Bounds.{class_fits}

-- An anchor with block 5 next, 3 credits, partial, tag 9.
abbrev some_anchor : ℕ
some_anchor = 5 * 2 ^ 54 + 3 * 2 ^ 44 + 2 * 2 ^ 42 + 9

setters-fields_example :
    (fields (anchor_set_avail some_anchor 1030)
      ≡ record (fields some_anchor) { avail = 1030 % 2 ^ 10 })
    × (fields (anchor_set_credits some_anchor 1030)
        ≡ record (fields some_anchor) { credits = 1030 % 2 ^ 10 })
    × (fields (anchor_set_state some_anchor 1030)
        ≡ record (fields some_anchor) { state = 1030 % 2 ^ 2 })
    × (fields (anchor_set_tag some_anchor 1030)
        ≡ record (fields some_anchor) { tag = 1030 % 2 ^ 42 })
setters-fields_example = setters-fields some_anchor 1030

created_fits : anchor_create 5 3 2 < 2 ^ 64
unfolding anchor_create
created_fits = omega arith

class_fits_example :
    (malloc_size_class 100 < num_size_classes)
    × (100 < sc_size (malloc_size_class 100))
    × (sc_size (malloc_size_class 100) ≤ 0x4000)
    × (sc_block_size / sc_size (malloc_size_class 100) ≤ 1024)
class_fits_example = class_fits 100 (omega arith) (omega arith)

-- Memory before mm_malloc_init.
abbrev no_heaps : Mallocs
no_heaps = record {
  desc = λ _. record {
    des_anchor = 0;
    des_next = 0;
    des_slice = record { slice = 0; s_ptr = 0; s_size = 0 };
    des_heap = 0;
    des_size = 0;
    des_maxcount = 0;
  };
  malloc_desc_avail = 0;
  heap = λ _. record { ph_partial = 7; ph_active = 7; ph_sizeclass = 7 };
  sc_partial = λ _. [];
  word = λ _. 7;
  slices = [];
  freed = [];
}

-- Two executors, with heaps of 12 bytes and queues of 96 bytes and 64 more for each executor.
request_lem_example :
    ((mm_malloc_init 12 96 64 2 0x1000 no_heaps).0 ≡ 0x1000 + mm_malloc_request 12 96 64 2)
    × (0x1300 ≤ queue_address 12 96 64 2 0x1000 0)
    × (queue_address 12 96 64 2 0x1000 3 + 224 ≤ queue_address 12 96 64 2 0x1000 4)
    × (queue_address 12 96 64 2 0x1000 num_size_classes
        ≡ (mm_malloc_init 12 96 64 2 0x1000 no_heaps).0)
request_lem_example =
    request_lem 12 96 64 2 0x1000 3 no_heaps (omega arith) (omega arith) (omega arith)
