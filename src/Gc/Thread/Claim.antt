-- ===== src/Gc/Thread/Claim.antt =====
-- src/mm/gc/gc_thread.c: how objects are claimed, and their pointers copied.
pub mod Skipped
pub mod Agreed
pub mod Never
use masters_thesis.Base.{
  ℕ, zero, suc, ◌+◌, ◌-◌, ◌*◌, ◌/◌, Bool, true, false, none, List, length, ◌==◌, leb, if◌then◌else◌,
}
use masters_thesis.Base.Word.{sub32}
use masters_thesis.Base.Interleave.{Window, Prog, pure, once, modify, gets, ◌>>=◌, ◌>>◌}
use masters_thesis.Gc.Desc.{
  Words, put_word, gc_header_init_normal, gc_header_init_array, gc_header_fwd_ptr,
  gc_header_compare_and_set_fwd_ptr, gc_header_type, gc_header_flags, gc_header_curr_gen,
  gc_header_next_gen, gc_header_count, gc_header_array_len, gc_typedesc_class,
}
use masters_thesis.ThreadQueue.Init.{mul32}
use masters_thesis.Gc.Thread.{Collector, null, on_words, flipflop, claimed, unclaimed}
use masters_thesis.Gc.Thread.Sizes.{
  gc_thread_array_shared, gc_thread_aligned_normal_size, gc_thread_aligned_array_size,
  gc_thread_array_header, gc_thread_array_bitmap_size, gc_thread_new_gen_count,
}
use masters_thesis.Gc.Thread.Local.{gc_typedesc_normal, size_of_type, gc_thread_add_obj}

-- The allocator of the thread's closure: gc_allocator_gc_prealloc, which gives an address, and
-- gc_allocator_gc_postalloc.
pub record Allocation : Type 0 where
  pub prealloc : (size gen : ℕ) → Collector → ℕ × Collector
  pub postalloc : (size gen : ℕ) → Collector → Collector

-- What gc_thread_claim reads at its start, `next_gen` being the generation that the header of the
-- object asks for, and `claimed_ptr` and `odd_count` its locals `claimed` and `flipflop`.
pub record ObjectInfo : Type 0 where
  pub type : ℕ
  pub is_array : Bool
  pub len : ℕ
  pub flags : ℕ
  pub obj_size : ℕ
  pub aligned_size : ℕ
  pub next_gen : ℕ
  pub new_gen : ℕ
  pub new_count : ℕ
  pub claimed_ptr : ℕ
  pub odd_count : Bool

unfoldable pub info_of : (obj : ℕ) → Collector → ObjectInfo
info_of obj s =
    let mem = s.words in
    let type = gc_header_type obj mem in
    let is_array = if gc_typedesc_class type mem == gc_typedesc_normal then false else true in
    let len = if is_array then gc_header_array_len obj mem else 1 in
    let obj_size = size_of_type type mem in
    let raw_size = mul32 obj_size len in
    let (new_gen, new_count) =
      gc_thread_new_gen_count s.gc_num_generations (gc_header_curr_gen obj mem)
        (gc_header_next_gen obj mem) (gc_header_count obj mem) in
    record {
      type = type;
      is_array = is_array;
      len = len;
      flags = gc_header_flags obj mem;
      obj_size = obj_size;
      aligned_size =
          if is_array
          then gc_thread_aligned_array_size raw_size len
          else gc_thread_aligned_normal_size raw_size;
      next_gen = gc_header_next_gen obj mem;
      new_gen = new_gen;
      new_count = new_count;
      claimed_ptr = claimed s;
      odd_count = flipflop s;
    }

-- `memset(addr, value, words * 4)` for a value that all words have.
abbrev pub fill : (addr words value : ℕ) → Words → Words
fill addr zero value mem = mem
fill addr (suc n) value mem = fill (addr + 1) n value (put_word addr value mem)

-- The header of the new object, and the bitmap in front of an array that threads share.
unfoldable pub init_copy : (i : ObjectInfo) (alloc newobj : ℕ) → Collector → Collector
init_copy i alloc newobj s =
    let normal =
      on_words
        (gc_header_init_normal i.claimed_ptr i.type i.flags i.new_gen i.next_gen i.new_count newobj)
        s in
    let array =
      on_words
        (gc_header_init_array i.claimed_ptr i.type i.flags i.new_gen i.next_gen i.new_count i.len
          newobj)
        s in
    let bitmap =
      on_words
        (fill alloc (sub32 (gc_thread_array_bitmap_size i.len) 4 / 4)
          (if i.odd_count then 0xffffffff else 0))
        array in
    if i.is_array
    then (if gc_thread_array_shared i.len i.obj_size then bitmap else array)
    else normal

-- `(void*)((unsigned int)ptr ^ 1)` for 0 and ~0.
abbrev pub tag_claimed : (ptr : ℕ) → ℕ
tag_claimed ptr = if ptr == 0 then 1 else ptr - 1

-- The compare-and-set of an object that is collected, and what follows it. The result is what
-- gc_thread_claim returns, and whether the object was claimed.
unfoldable pub install_copy :
    Allocation → (i : ObjectInfo) (expect alloc newobj obj : ℕ) → Collector → (ℕ × Bool) × Collector
install_copy a i expect alloc newobj obj s =
    let (won, words) = gc_header_compare_and_set_fwd_ptr expect newobj obj s.words in
    let s' = record s { words = words } in
    if won
    then ((newobj, true), init_copy i alloc newobj (a.postalloc i.aligned_size i.new_gen s'))
    else ((gc_header_fwd_ptr obj s'.words, false), s')

unfoldable pub claim_copy :
    Allocation → (obj : ℕ) → Window Collector → Collector → (ℕ × Bool) × Collector
claim_copy a obj w s =
    let i = info_of obj s in
    let (alloc, s') = a.prealloc i.aligned_size i.new_gen s in
    let newobj =
      if i.is_array then gc_thread_array_header (alloc * 4) i.len i.obj_size / 4 else alloc in
    install_copy a i (unclaimed s) alloc newobj obj (w.between s')

-- The compare-and-set of an object that stays where it is.
unfoldable pub claim_in_place :
    (obj : ℕ) (copy : Bool) → Window Collector → Collector → (ℕ × Bool) × Collector
claim_in_place obj copy w s =
    let fwd_ptr = if copy then claimed s else tag_claimed (claimed s) in
    let s1 = w.between s in
    let (won, words) = gc_header_compare_and_set_fwd_ptr (unclaimed s) (claimed s) obj s1.words in
    if unclaimed s == fwd_ptr then ((obj, won), record s1 { words = words }) else ((obj, false), s)

unfoldable pub claim_word :
    Allocation
    → (obj max_gen : ℕ) (copy : Bool) → Window Collector
    → Collector
    → (ℕ × Bool) × Collector
claim_word a obj max_gen copy w s0 =
    let s = w.before s0 in
    let fwd_ptr = gc_header_fwd_ptr obj s.words in
    let curr_gen = gc_header_curr_gen obj s.words in
    if leb curr_gen max_gen
    then (if fwd_ptr == unclaimed s then claim_copy a obj w s else ((fwd_ptr, false), s))
    else claim_in_place obj copy w s

-- The object goes to the queues where it was claimed.
unfoldable pub gc_thread_claim : Allocation → (obj max_gen : ℕ) (copy : Bool) → Prog Collector ℕ
gc_thread_claim a obj max_gen copy = do
  (out, won, type) ← once (λ w s.
      let ((out, won), t) = claim_word a obj max_gen copy w s in
      ((out, won, gc_header_type obj (w.before s).words), t))
  if won then gc_thread_add_obj type obj else pure tt
  pure out

-- A double pointer is two words, of which a collection reads one and sets the other one.
abbrev pub used_ptr : Collector → ℕ
used_ptr s = if flipflop s then 0 else 1

abbrev pub unused_ptr : Collector → ℕ
unused_ptr s = if flipflop s then 1 else 0

abbrev pub set_unused : (dstptr value : ℕ) → Collector → Collector
set_unused dstptr value s = on_words (put_word (dstptr + unused_ptr s) value) s

unfoldable pub gc_thread_process_ptr :
    Allocation → (srcptr dstptr max_gen : ℕ) (do_weak : Bool) → Prog Collector (Unit {0})
gc_thread_process_ptr a srcptr dstptr max_gen do_weak = do
  (src, dst) ← once (λ w s. (
    (
      (w.before s).words (srcptr + used_ptr (w.before s)),
      (w.before s).words (dstptr + unused_ptr (w.before s)),
    ),
    w.before s,
  ))
  if src == null
      then (if dst == null then pure tt else modify (set_unused dstptr null))
      else (gc_thread_claim a src max_gen do_weak >>= λ new. modify (set_unused dstptr new))

unfoldable pub gc_thread_process_weak_ptr :
    (srcptr dstptr : ℕ) (do_weak : Bool) → Collector → Collector
gc_thread_process_weak_ptr srcptr dstptr do_weak s =
    let src = s.words (srcptr + used_ptr s) in
    let dst = s.words (dstptr + unused_ptr s) in
    let fwd_ptr = gc_header_fwd_ptr src s.words in
    if do_weak
    then (if src == null
        then (if dst == null then s else set_unused dstptr null s)
        else if fwd_ptr == unclaimed s
        then (if dst == null then s else set_unused dstptr null s)
        else if dst == fwd_ptr
        then s
        else set_unused dstptr fwd_ptr s)
    else s

-- What a round of gc_thread_check_ptr reads: the source, the destination, and the forwarding
-- pointer of the source. The count of collections, which says which words of a double pointer
-- these are, does not change while a thread works.
abbrev pub look : (dstptr srcptr : ℕ) → Collector → ℕ × ℕ × ℕ
look dstptr srcptr s =
    let src = s.words (srcptr + used_ptr s) in
    (src, s.words (dstptr + unused_ptr s), gc_header_fwd_ptr src s.words)

-- The loop of gc_thread_check_ptr; `none` where the fuel ends first.
unfoldable pub check_rounds :
    (fuel : ℕ)
    → Allocation
    → (dstptr srcptr max_gen : ℕ) (do_weak : Bool) → Prog Collector (Unit {0})
check_rounds zero a dstptr srcptr max_gen do_weak ws s = none
check_rounds (suc fuel) a dstptr srcptr max_gen do_weak ws s =
    let again = check_rounds fuel a dstptr srcptr max_gen do_weak in
    (once (λ w u. (look dstptr srcptr (w.before u), w.before u)) >>= λ (src, dst, fwd_ptr).
    if src == null
    then (if dst == null then again else modify (set_unused dstptr null))
    else if dst == fwd_ptr
    then pure tt
    else (gc_thread_claim a src max_gen do_weak >>= λ new. modify (set_unused dstptr new) >> again))
      ws s

-- One more round than the windows of the schedule: each round uses up a window.
unfoldable pub gc_thread_check_ptr :
    Allocation → (dstptr srcptr max_gen : ℕ) (do_weak : Bool) → Prog Collector (Unit {0})
gc_thread_check_ptr a dstptr srcptr max_gen do_weak ws s =
    check_rounds (length ws + 1) a dstptr srcptr max_gen do_weak ws s
