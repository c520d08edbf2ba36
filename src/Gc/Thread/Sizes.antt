-- ===== src/Gc/Thread/Sizes.antt =====
-- src/mm/gc/gc_thread.c: sizes, and the next generation of an object.
pub mod Promotion
use masters_thesis.Base.{
  ℕ, ◌+◌, ◌-◌, ◌*◌, ◌/◌, ◌%◌, ◌^◌, Bool, true, false, ◌==◌, ◌&&◌, ◌||◌, not, ltb, bit_and,
  if◌then◌else◌,
}
use masters_thesis.Base.Word.{add32, sub32}
use masters_thesis.Base.Exit.{Exit, returned, crashed}
use masters_thesis.Malloc.SizeClass.{cache_line_size}
use masters_thesis.Malloc.Layout.{aligned}
use masters_thesis.ThreadQueue.Init.{Sizes, mul32}
use masters_thesis.ThreadQueue.Nodes.{NodeQueue}
use masters_thesis.ObjectQueue.{ObjectQueue, lf_object_queue_request, lf_object_queue_init}

-- The bits of a cache line are 256.
abbrev pub global_bitmap_size : (gc_global_ptr_count : ℕ) → ℕ
global_bitmap_size count = add32 (bit_and (sub32 count 1) 0xffffff00) (cache_line_size * 8) / 8

unfoldable pub gc_thread_request : Sizes → (gc_global_ptr_count execs : ℕ) → ℕ
gc_thread_request z count execs =
    add32 (lf_object_queue_request z (mul32 64 execs) execs) (global_bitmap_size count)

-- The queue at `mem`, then the bitmap. The result is the address behind the bitmap.
unfoldable pub gc_thread_init :
    Sizes → (gc_global_ptr_count execs mem : ℕ) → ObjectQueue → Exit ℕ × ObjectQueue
gc_thread_init z count execs mem q =
    let (made, q') = lf_object_queue_init z mem (mul32 execs 64) execs q in
    (
      elim made [
        | returned bitmap ↦ returned (bitmap + global_bitmap_size count)
        | crashed ↦ crashed
      ],
      q',
    )

-- GC_ARRAY_MIN_COUNT and GC_ARRAY_MIN_SIZE
abbrev pub gc_array_min_count : ℕ
gc_array_min_count = 64

abbrev pub gc_array_min_size : ℕ
gc_array_min_size = 4096

unfoldable pub gc_thread_array_shared : (num size : ℕ) → Bool
gc_thread_array_shared num size =
    ltb gc_array_min_size (mul32 num size) && ltb gc_array_min_count num

-- A gc_double_ptr_t has 8 bytes.
unfoldable pub gc_thread_obj_size : (nonptr_size normptrs weakptrs : ℕ) → ℕ
gc_thread_obj_size nonptr_size normptrs weakptrs =
    add32 nonptr_size (mul32 (add32 normptrs weakptrs) 8)

unfoldable pub gc_thread_aligned_normal_size : (size : ℕ) → ℕ
gc_thread_aligned_normal_size size = aligned (add32 size cache_line_size)

-- GC_CLUSTER_SIZE
abbrev pub gc_cluster_size : ℕ
gc_cluster_size = 16

unfoldable pub gc_thread_array_bitmap_bits : (num : ℕ) → ℕ
gc_thread_array_bitmap_bits num = add32 (sub32 num 1 / gc_cluster_size) 1

unfoldable pub gc_thread_array_bitmap_size : (num : ℕ) → ℕ
gc_thread_array_bitmap_size num =
    let bits = add32 32 (gc_thread_array_bitmap_bits num) in
    add32 (bit_and (sub32 bits 1) 0xffffff00) (cache_line_size * 8) / 8

unfoldable pub gc_thread_aligned_array_size : (num size : ℕ) → ℕ
gc_thread_aligned_array_size num size =
    let header_size = add32 (mul32 size num) cache_line_size in
    let bitmap_size =
      if gc_thread_array_shared num size
      then add32 header_size (gc_thread_array_bitmap_size num)
      else add32 header_size cache_line_size in
    aligned bitmap_size

-- The bytes in front of the object in the memory of an array.
unfoldable pub gc_thread_array_header : (obj num size : ℕ) → ℕ
gc_thread_array_header obj num size =
    obj
    + aligned (
        if gc_thread_array_shared num size
        then gc_thread_array_bitmap_size num
        else cache_line_size)

abbrev pub gc_gen_promote : ℕ
gc_gen_promote = 2

-- The generation and the count of an object behind a collection, both of 8 bits.
unfoldable pub gc_thread_new_gen_count : (gc_num_generations oldgen gen count : ℕ) → ℕ × ℕ
gc_thread_new_gen_count gc_num_generations oldgen gen count =
    if ((gen == oldgen) && not (gen == 0xff)) || not (gen == sub32 gc_num_generations 1)
    then (if ltb count gc_gen_promote then (gen, (count + 1) % 2 ^ 8) else ((gen + 1) % 2 ^ 8, 0))
    else (gen, 0)
