-- ===== src/Gc/Alloc/Refresh/Starved.antt =====
-- src/mm/gc/gc_alloc.c: gc_allocator_update_sizes for the program.
use masters_thesis.Base.{ℕ, ◌≡◌, ◌≢◌, refl, ◌∙◌, Bool, false, none, List, [], ◌∷◌, arith}
use masters_thesis.Base.Word.{sub32}
use masters_thesis.Base.Interleave.{Window, Each, Keeps, retry, retry_again}
use masters_thesis.Gc.Alloc.{GcHeap, try_add_used, gc_allocator_update_sizes}

-- The counter of a generation, and the address that gc_used_space holds.
abbrev pub used_counter : (gen : ℕ) → GcHeap → ℕ
used_counter gen s = s.space s.gc_used_space (sub32 gen 1)

abbrev pub array_address : GcHeap → ℕ
array_address s = s.gc_used_space

-- One try leaves the counter and the address.
add_used_fails :
    (req_size gen : ℕ) (w : Window GcHeap) (s : GcHeap)
    → Keeps (used_counter gen) w
    → Keeps array_address w
    → used_counter gen s ≢ array_address s
    → try_add_used req_size gen w s ≡ (none, w.between (w.before s))
unfolding try_add_used
add_used_fails req_size gen w s counter address differ =
    ground (arith, counter.before s, address.before s, address.between (w.before s), differ)

add_used_starved :
    (req_size gen : ℕ) (ws : List (Window GcHeap)) (s : GcHeap)
    → Each (Keeps (used_counter gen)) ws
    → Each (Keeps array_address) ws
    → used_counter gen s ≢ array_address s
    → retry (try_add_used req_size gen) ws s ≡ none
unfolding retry
add_used_starved req_size gen [] s counter address differ = refl
add_used_starved req_size gen (w ∷ ws) s counter address differ =
    retry_again (try_add_used req_size gen) w ws s (w.between (w.before s))
      (add_used_fails req_size gen w s counter.0 address.0 differ)
    ∙ add_used_starved req_size gen ws (w.between (w.before s)) counter.1 address.1 still
  where
    still : used_counter gen (w.between (w.before s)) ≢ array_address (w.between (w.before s))
    still = ground (
      arith,
      counter.0.before s,
      counter.0.between (w.before s),
      address.0.before s,
      address.0.between (w.before s),
      differ,
    )

-- The compare-and-set of gc_allocator_update_sizes is on the variable gc_used_space: where the
-- used space of the generation is not the address that the variable holds, and the others leave
-- both alone, the size of a slice for the program is never counted, however long the schedule.
pub update_sizes_starved :
    (req_size gen : ℕ) (is_new : Bool) (ws : List (Window GcHeap)) (s : GcHeap)
    → Each (Keeps (used_counter gen)) ws
    → Each (Keeps array_address) ws
    → used_counter gen s ≢ array_address s
    → gc_allocator_update_sizes req_size gen is_new false ws s ≡ none
unfolding gc_allocator_update_sizes
update_sizes_starved req_size gen is_new ws s counter address differ =
    ground (arith, add_used_starved req_size gen ws s counter address differ)
