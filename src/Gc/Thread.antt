-- ===== src/Gc/Thread.antt =====
-- src/mm/gc/gc_thread.c: the state of the collector as one of its threads sees it.
pub mod Sizes
pub mod Local
pub mod Phase
pub mod Claim
pub mod Weak
mod Examples
use masters_thesis.Base.{ℕ, ◌%◌, Bool, true, false, ◌==◌, if◌then◌else◌}
use masters_thesis.Gc.Desc.{Words}

-- The local queue of the thread's closure, the stack of shared arrays, and the phase. The codes of
-- the phases and the mask GC_STATE_GEN are defined outside of the repository. Objects stand at
-- addresses of words, 0 being NULL.
pub record Collector : Type 0 where
  pub words : Words
  pub gth_queue_size : ℕ
  pub gth_head : ℕ
  pub gth_tail : ℕ
  pub gc_thread_array_list : ℕ
  pub gc_collection_count : ℕ
  pub gc_thread_next_gen : ℕ
  pub gc_thread_peak_gen : ℕ
  pub gc_num_generations : ℕ
  pub gc_state : ℕ
  pub gc_state_phase : ℕ
  pub gc_state_gen : ℕ
  pub gc_state_inactive : ℕ
  pub gc_state_initial : ℕ
  pub gc_state_normal : ℕ
  pub gc_state_weak : ℕ

abbrev pub null : ℕ
null = 0

abbrev pub on_words : (Words → Words) → Collector → Collector
on_words f s = record s { words = f s.words }

abbrev pub flipflop : Collector → Bool
flipflop s = s.gc_collection_count % 2 == 1

-- The forwarding pointers of objects that were claimed in this collection, and of those that were
-- not.
abbrev pub claimed : Collector → ℕ
claimed s = if flipflop s then 0xffffffff else 0

abbrev pub unclaimed : Collector → ℕ
unclaimed s = if flipflop s then 0 else 0xffffffff
