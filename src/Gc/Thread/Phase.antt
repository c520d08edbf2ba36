-- ===== src/Gc/Thread/Phase.antt =====
-- src/mm/gc/gc_thread.c: the phases of a collection, and its generation.
pub mod Stuck
use masters_thesis.Base.{
  ℕ, ◌+◌, ◌-◌, ◌%◌, ◌^◌, Bool, true, false, Option, none, some, ◌==◌, ltb, bit_and, bit_or,
  if◌then◌else◌,
}
use masters_thesis.Base.Word.{add32}
use masters_thesis.Base.Interleave.{Window, Prog, retry, ◌>>◌}
use masters_thesis.Gc.Thread.{Collector}

-- `~mask`
abbrev pub complement : ℕ → ℕ
complement mask = 0xffffffff - mask

-- `state & GC_STATE_PHASE`, as an unsigned char.
abbrev pub phase_of : Collector → ℕ
phase_of s = bit_and s.gc_state s.gc_state_phase % 2 ^ 8

unfoldable pub gc_thread_try_activate : Window Collector → Collector → Bool × Collector
gc_thread_try_activate w s0 =
    let s = w.before s0 in
    let old_phase = phase_of s in
    let new_phase =
      if old_phase == s.gc_state_inactive then s.gc_state_initial % 2 ^ 8 else old_phase in
    if new_phase == old_phase
    then (true, s)
    else let new_state = bit_or (bit_and s.gc_state (complement s.gc_state_phase)) new_phase in
      let s1 = w.between s in
      if s1.gc_state == s.gc_state then (true, record s1 { gc_state = new_state }) else (false, s1)

unfoldable pub gc_thread_try_set_gen : (gen : ℕ) → Window Collector → Collector → Bool × Collector
gc_thread_try_set_gen gen w s0 =
    let s = w.before s0 in
    let old_gen = s.gc_thread_next_gen % 2 ^ 8 in
    let new_gen = (if ltb gen old_gen then old_gen else gen) % 2 ^ 8 in
    let s1 = w.between s in
    if old_gen == new_gen
    then (true, s)
    else if s1.gc_thread_next_gen == old_gen
    then (true, record s1 { gc_thread_next_gen = new_gen })
    else (false, s1)

-- `for(i = 1; try(); i++)`: it goes on while the try succeeds.
abbrev pub while_true :
    (Window Collector → Collector → Bool × Collector) → Prog Collector (Unit {0})
while_true try = retry (λ w s. let (b, s') = try w s in (if b then none else some tt, s'))

unfoldable pub gc_thread_activate : (gen : ℕ) → Prog Collector (Unit {0})
gc_thread_activate gen = while_true gc_thread_try_activate >> while_true (gc_thread_try_set_gen gen)

-- The generation for the collection, and the next one.
unfoldable pub gc_thread_get_gen : Collector → ℕ × Collector
gc_thread_get_gen s =
    let current_gen = s.gc_thread_next_gen in
    (
      current_gen,
      if ltb current_gen s.gc_thread_peak_gen
          then record s { gc_thread_next_gen = add32 current_gen 1 }
          else if current_gen == s.gc_thread_peak_gen
          then record s {
            gc_thread_peak_gen =
                if ltb current_gen s.gc_num_generations
                then (s.gc_thread_peak_gen + 1) % 2 ^ 8
                else 1;
            gc_thread_next_gen = 1;
          }
          else record s {
            gc_thread_peak_gen =
                if ltb current_gen s.gc_num_generations then (current_gen + 1) % 2 ^ 8 else 1;
          },
    )

-- What the last thread to enter does, while the others wait: the start, the middle and the end of
-- a collection.
unfoldable pub gc_thread_initial_barrier : Collector → Collector
gc_thread_initial_barrier s =
    let old_state = s.gc_state in
    let (gen, s') = gc_thread_get_gen s in
    record s' {
      gc_state =
          bit_or
            (bit_or (bit_and old_state (complement (bit_or s.gc_state_phase s.gc_state_gen)))
              s.gc_state_normal)
            gen;
    }

unfoldable pub gc_thread_middle_barrier : Collector → Collector
gc_thread_middle_barrier s = record s {
  gc_state = bit_or (bit_and s.gc_state (complement s.gc_state_phase)) s.gc_state_weak;
}

-- gc_allocator_release_slices is in Gc/Alloc/Release. The result is the generation that it is
-- called with.
unfoldable pub gc_thread_final_barrier : Collector → ℕ × Collector
gc_thread_final_barrier s =
    let gen = bit_and s.gc_state s.gc_state_gen in
    (
      gen,
      record s {
        gc_thread_peak_gen = gen % 2 ^ 8;
        gc_collection_count = s.gc_collection_count + 1;
        gc_state =
            bit_or (bit_and s.gc_state (complement (bit_or s.gc_state_phase s.gc_state_gen)))
              s.gc_state_inactive;
      },
    )
