-- ===== src/Malloc/Desc/Avail.antt =====
-- The list of available descriptors as a sequence.
use masters_thesis.Base.{ℕ}
use masters_thesis.Malloc.State.{Mallocs, set_desc}

abbrev retired : ℕ → Mallocs → Mallocs
retired d s = record (set_desc d (λ e. record e { des_next = s.malloc_desc_avail }) s) {
  malloc_desc_avail = d;
}
