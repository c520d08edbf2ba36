-- ===== src/Gc/Desc.antt =====
-- src/mm/gc/gc_desc.c: the header in front of an object of the collector, the type descriptor, and
-- the entries of a write log.
pub mod Fields
use masters_thesis.Base.{
  ℕ, ◌+◌, ◌-◌, ◌*◌, ◌/◌, ◌%◌, ◌^◌, Bool, true, false, ◌==◌, if◌then◌else◌, bit_and, bit_or,
}

-- Memory by addresses of 32-bit words: `header + 1` of a `void**` is the next word.
abbrev pub Words : Type 0
Words = ℕ → ℕ

abbrev pub put_word : (addr value : ℕ) → Words → Words
put_word a v mem b = if b == a then v else mem b

-- The first address of a header is not 0: `header - 1` is a word too.
unfoldable pub geninfo : (flags gen next_gen count : ℕ) → ℕ
geninfo flags gen next_gen count =
    bit_or (bit_or (bit_or gen (next_gen * 2 ^ 8 % 2 ^ 32)) (count * 2 ^ 16 % 2 ^ 32))
      (flags * 2 ^ 24 % 2 ^ 32)

unfoldable pub gc_header_init_normal :
    (fwd_ptr type flags gen next_gen count header : ℕ) → Words → Words
unfolding geninfo
gc_header_init_normal fwd_ptr type flags gen next_gen count header mem =
    put_word (header + 3) (geninfo flags gen next_gen count)
      (put_word (header + 2) type (put_word (header + 1) 0 (put_word header fwd_ptr mem)))

unfoldable pub gc_header_init_array :
    (fwd_ptr type flags gen next_gen count len header : ℕ) → Words → Words
unfolding geninfo
gc_header_init_array fwd_ptr type flags gen next_gen count len header mem =
    put_word (header + 3) (geninfo flags gen next_gen count) (
      put_word (header + 2) type
        (put_word (header + 1) 0 (put_word header fwd_ptr (put_word (header + 2) len mem))))

unfoldable pub gc_header_fwd_ptr : (header : ℕ) → Words → ℕ
gc_header_fwd_ptr header mem = mem header

unfoldable pub gc_header_fwd_ptr_set : (ptr header : ℕ) → Words → Words
gc_header_fwd_ptr_set ptr header = put_word header ptr

unfoldable pub gc_header_compare_and_set_fwd_ptr : (expect value header : ℕ) → Words → Bool × Words
gc_header_compare_and_set_fwd_ptr expect value header mem =
    if mem header == expect then (true, put_word header value mem) else (false, mem)

unfoldable pub gc_header_list_ptr : (header : ℕ) → Words → ℕ
gc_header_list_ptr header mem = mem (header + 1)

unfoldable pub gc_header_list_ptr_set : (ptr header : ℕ) → Words → Words
gc_header_list_ptr_set ptr header = put_word (header + 1) ptr

-- `& ~0xf`
unfoldable pub gc_header_type : (header : ℕ) → Words → ℕ
gc_header_type header mem = bit_and (mem (header + 2)) 0xfffffff0

unfoldable pub gc_header_flags : (header : ℕ) → Words → ℕ
gc_header_flags header mem = bit_and (mem (header + 3) / 2 ^ 24) 0xff

unfoldable pub gc_header_flags_set : (header flags : ℕ) → Words → Words
gc_header_flags_set header flags mem =
    let misc_info = bit_and (mem (header + 3)) 0xffffff in
    put_word (header + 3) (bit_or misc_info (flags * 2 ^ 24 % 2 ^ 32)) mem

unfoldable pub gc_header_curr_gen : (header : ℕ) → Words → ℕ
gc_header_curr_gen header mem = bit_and (mem (header + 3)) 0xff

unfoldable pub gc_header_next_gen : (header : ℕ) → Words → ℕ
gc_header_next_gen header mem = bit_and (mem (header + 3)) 0xff / 2 ^ 8

unfoldable pub gc_header_count : (header : ℕ) → Words → ℕ
gc_header_count header mem = bit_and (mem (header + 3)) 0xff / 2 ^ 16

unfoldable pub gc_header_array_len : (header : ℕ) → Words → ℕ
gc_header_array_len header mem = mem (header - 1)

-- GC_TYPEDESC_CLASS
abbrev pub gc_typedesc_class_mask : ℕ
gc_typedesc_class_mask = 3

unfoldable pub gc_typedesc_class : (desc : ℕ) → Words → ℕ
gc_typedesc_class desc mem = bit_and (mem desc) gc_typedesc_class_mask

-- `& ~GC_TYPEDESC_CLASS`
unfoldable pub gc_typedesc_flags : (desc : ℕ) → Words → ℕ
gc_typedesc_flags desc mem = bit_and (mem desc) 0xfffffffc

unfoldable pub gc_typedesc_nonptr_size : (desc : ℕ) → Words → ℕ
gc_typedesc_nonptr_size desc mem = mem (desc + 1)

unfoldable pub gc_typedesc_normal_ptrs : (desc : ℕ) → Words → ℕ
gc_typedesc_normal_ptrs desc mem = mem (desc + 2)

unfoldable pub gc_typedesc_weak_ptrs : (desc : ℕ) → Words → ℕ
gc_typedesc_weak_ptrs desc mem = mem (desc + 3)

unfoldable pub gc_log_entry_objptr : (entry : ℕ) → Words → ℕ
gc_log_entry_objptr entry mem = mem entry

unfoldable pub gc_log_entry_offset : (entry : ℕ) → Words → ℕ
gc_log_entry_offset entry mem = mem (entry + 1)
