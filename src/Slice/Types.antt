-- ===== src/Slice/Types.antt =====
-- The types of include/mm/slice.h and the state of src/mm/slice.c.
use masters_thesis.Base.{
  ℕ, ◌+◌, ◌-◌, Bool, true, false, Option, none, some, List, ◌==◌, if◌then◌else◌, ltb,
}
use masters_thesis.Os.Mem.{SliceProt, OsCall}

pub data SliceType : Type 0 where
  gc malloc custom static : SliceType

pub data SliceUsage : Type 0 where
  used unused blank : SliceUsage

-- A `slice_t*` into slice_tab: the place in the table, or NULL.
abbrev pub Ptr : Type 0
Ptr = Option ℕ

-- `slice_t`; an s_ptr of 0 is NULL.
pub record Slice : Type 0 where
  pub s_size : ℕ
  pub s_ptr : ℕ
  pub s_type : SliceType
  pub s_usage : SliceUsage
  pub s_prot : SliceProt
  pub s_next : Ptr

-- The static variables of slice.c, and the calls made of the system, the last one first.
pub record Slices : Type 0 where
  pub slice_tab : ℕ → Slice
  pub slice_free_list : Ptr
  pub total_size : ℕ
  pub malloc_size : ℕ
  pub gc_size : ℕ
  pub slice_size : ℕ
  pub total_limit : ℕ
  pub malloc_limit : ℕ
  pub gc_limit : ℕ
  pub os : List OsCall

-- SLICE_TAB_SIZE, SLICE_MIN_SIZE and SLICE_MAX_SIZE of arch.h
abbrev pub slice_tab_size : ℕ
slice_tab_size = 0x100

abbrev pub slice_min_size : ℕ
slice_min_size = 0x1000

abbrev pub slice_max_size : ℕ
slice_max_size = 0x40000

abbrev pub ptr_eq : Ptr → Ptr → Bool
ptr_eq none none = true
ptr_eq none (some b) = false
ptr_eq (some a) none = false
ptr_eq (some a) (some b) = a == b

-- A write to one descriptor.
abbrev pub set_entry : ℕ → (Slice → Slice) → Slices → Slices
set_entry i f s = record s { slice_tab = λ j. if j == i then f (s.slice_tab j) else s.slice_tab j }

-- `for(i = 0; i < SLICE_TAB_SIZE - 1; i++) slice_tab[i].s_next = slice_tab + i + 1;`
abbrev pub link_entries : (ℕ → Slice) → ℕ → Slice
link_entries tab j =
    let e = tab j in
    if ltb j (slice_tab_size - 1)
    then record e { s_next = some (j + 1) }
    else if j == slice_tab_size - 1
    then record e { s_next = none }
    else e

-- malloc_size and gc_size are not written: they keep the 0 of static memory.
unfoldable pub slice_init : (max defaultsize malloc_max gc_max : ℕ) → Slices → Slices
slice_init max defaultsize malloc_max gc_max s = record s {
  slice_size = defaultsize;
  total_limit = max;
  malloc_limit = malloc_max;
  gc_limit = gc_max;
  total_size = 0;
  slice_tab = link_entries s.slice_tab;
  slice_free_list = some 0;
}
