-- ===== src/Gc/Thread/Local.antt =====
-- src/mm/gc/gc_thread.c: the local queue of a thread of the collector, and the stack of shared
-- arrays.
pub mod Contents
use masters_thesis.Base.{ℕ, ◌+◌, Bool, true, false, Option, none, some, ◌==◌, if◌then◌else◌}
use masters_thesis.Base.Word.{add32, sub32}
use masters_thesis.Base.Interleave.{Window, Prog, retry, modify, gets, ◌>>=◌}
use masters_thesis.Gc.Desc.{
  Words, gc_header_list_ptr, gc_header_list_ptr_set, gc_header_array_len, gc_typedesc_class,
  gc_typedesc_nonptr_size, gc_typedesc_normal_ptrs, gc_typedesc_weak_ptrs,
}
use masters_thesis.Gc.Thread.{Collector, null, on_words}
use masters_thesis.Gc.Thread.Sizes.{gc_thread_array_shared, gc_thread_obj_size}

unfoldable pub gc_thread_enqueue : (obj : ℕ) → Collector → Collector
gc_thread_enqueue obj s0 =
    let s = record s0 { gth_queue_size = add32 s0.gth_queue_size 1 } in
    if s.gth_head == null
    then record (on_words (gc_header_list_ptr_set null obj) s) { gth_head = obj; gth_tail = obj }
    else record (on_words (gc_header_list_ptr_set null obj)
        (on_words (gc_header_list_ptr_set obj s.gth_tail) s)) { gth_tail = obj }

unfoldable pub gc_thread_dequeue : Collector → ℕ × Collector
gc_thread_dequeue s0 =
    let out = s0.gth_head in
    let s = record s0 { gth_queue_size = sub32 s0.gth_queue_size 1 } in
    let next = gc_header_list_ptr out s.words in
    (
      out,
      if s.gth_tail == out
          then record s { gth_tail = null; gth_head = null }
          else record s { gth_head = next },
    )

unfoldable pub gc_thread_try_push_array :
    (array : ℕ) → Window Collector → Collector → Option (Unit {0}) × Collector
gc_thread_try_push_array array w s0 =
    let s = w.before s0 in
    let top = s.gc_thread_array_list in
    let s1 = w.between (on_words (gc_header_list_ptr_set top array) s) in
    if s1.gc_thread_array_list == top
    then (some tt, record s1 { gc_thread_array_list = array })
    else (none, s1)

unfoldable pub gc_thread_push_array : (array : ℕ) → Prog Collector (Unit {0})
gc_thread_push_array array = retry (gc_thread_try_push_array array)

-- GC_TYPEDESC_NORMAL
abbrev pub gc_typedesc_normal : ℕ
gc_typedesc_normal = 0

-- The size of an object of this type, or of an element of the array.
abbrev pub size_of_type : (type : ℕ) → Words → ℕ
size_of_type type mem =
    gc_thread_obj_size (gc_typedesc_nonptr_size type mem) (gc_typedesc_normal_ptrs type mem)
      (gc_typedesc_weak_ptrs type mem)

-- Whether threads share the work on the object.
abbrev pub is_shared : (type obj : ℕ) → Words → Bool
is_shared type obj mem =
    if gc_typedesc_class type mem == gc_typedesc_normal
    then false
    else gc_thread_array_shared (gc_header_array_len obj mem) (size_of_type type mem)

unfoldable pub gc_thread_add_obj : (type obj : ℕ) → Prog Collector (Unit {0})
gc_thread_add_obj type obj = do
  shared ← gets (λ s. is_shared type obj s.words)
  if shared then gc_thread_push_array obj else modify (gc_thread_enqueue obj)
