-- ===== src/Gc/Thread/Examples.antt =====
-- The theorems on the threads of the collector at concrete states.
use masters_thesis.Base.{
  ◌≡◌, refl, true, false, some, none, [], ◌∷◌, ◌==◌, if◌then◌else◌, ltb, arith,
}
use masters_thesis.Base.Interleave.{Window, Keeps, quiet}
use masters_thesis.Gc.Desc.{Words, put_word, gc_header_curr_gen}
use masters_thesis.Gc.Thread.{Collector, on_words}
use masters_thesis.Gc.Thread.Sizes.{gc_thread_new_gen_count}
use masters_thesis.Gc.Thread.Sizes.Promotion.{promotion_bound}
use masters_thesis.Gc.Thread.Local.{gc_thread_enqueue, gc_thread_dequeue}
use masters_thesis.Gc.Thread.Local.Contents.{IsObjects, IsEmpty, queue-IsObjects}
use masters_thesis.Gc.Thread.Claim.{Allocation, look, gc_thread_claim, gc_thread_check_ptr}
use masters_thesis.Gc.Thread.Claim.Skipped.{claim_skips}
use masters_thesis.Gc.Thread.Claim.Never.{check_ptr_never}

-- An object of generation 2 at 100, unclaimed, of the type at 16, which has 8 bytes. All else is 0.
abbrev memory : Words
memory n =
    if n == 100
    then 0xffffffff
    else if n == 102
    then 16
    else if n == 103
    then 2
    else if n == 17
    then 8
    else 0

abbrev collector : Collector
collector = record {
  words = memory;
  gth_queue_size = 0;
  gth_head = 0;
  gth_tail = 0;
  gc_thread_array_list = 0;
  gc_collection_count = 0;
  gc_thread_next_gen = 2;
  gc_thread_peak_gen = 3;
  gc_num_generations = 4;
  gc_state = 0x200;
  gc_state_phase = 0xff;
  gc_state_gen = 0xff00;
  gc_state_inactive = 0;
  gc_state_initial = 1;
  gc_state_normal = 2;
  gc_state_weak = 3;
}

-- New objects are at 500.
abbrev at_500 : Allocation
at_500 = record { prealloc = λ _ _ t. (500, t); postalloc = λ _ _ t. t }

-- Another thread claims the object first, with a copy at 400.
abbrev other_first : Window Collector
other_first = record {
  before = λ t. t;
  between = λ t. on_words (put_word 100 400) t;
  later = λ _ t. t;
}

generation_two : gc_header_curr_gen 100 memory ≡ 2
unfolding gc_header_curr_gen
generation_two = refl

claim_skips_example :
    gc_thread_claim at_500 100 1 true (quiet ∷ []) collector ≡ some (100, [], collector)
claim_skips_example =
    claim_skips at_500 100 1 true quiet [] collector (omega (arith, generation_two))

-- Two objects, at 100 and 200.
abbrev two_objects : Collector
two_objects = record collector {
  words = put_word 101 200 memory;
  gth_queue_size = 2;
  gth_head = 100;
  gth_tail = 200;
}

abbrev one_object : Collector
one_object = record collector { gth_queue_size = 1; gth_head = 200; gth_tail = 200 }

two_objects-IsObjects : IsObjects (100 ∷ []) two_objects
two_objects-IsObjects = record {
  links = (refl, refl);
  ended = refl;
  positive = refl;
  some_tail = omega arith;
  apart = refl;
  count = refl;
}

one_object-IsObjects : IsObjects [] one_object
one_object-IsObjects = record {
  links = refl;
  ended = refl;
  positive = refl;
  some_tail = omega arith;
  apart = refl;
  count = refl;
}

-- The object at 300 goes behind the others.
queue-IsObjects_example :
    IsObjects (100 ∷ 200 ∷ []) (gc_thread_enqueue 300 two_objects)
    × ((gc_thread_enqueue 300 two_objects).gth_tail ≡ 300)
    × IsObjects [] (gc_thread_enqueue 300 collector)
    × ((gc_thread_enqueue 300 collector).gth_tail ≡ 300)
    × ((gc_thread_dequeue two_objects).0 ≡ 100)
    × IsObjects [] (gc_thread_dequeue two_objects).1
    × ((gc_thread_dequeue one_object).0 ≡ 200)
    × IsEmpty (gc_thread_dequeue one_object).1
queue-IsObjects_example =
    queue-IsObjects 300 100 (100 ∷ []) [] two_objects collector two_objects one_object
      two_objects-IsObjects refl (omega arith) (omega arith) (omega arith)
      (record { no_head = refl; no_size = refl }) two_objects-IsObjects (omega arith)
      one_object-IsObjects

quiet-Keeps : Keeps (look 300 310) quiet
quiet-Keeps = record { before = λ _. refl; between = λ _. refl }

check_ptr_never_example :
    gc_thread_check_ptr at_500 300 310 2 false (quiet ∷ quiet ∷ []) collector ≡ none
check_ptr_never_example =
    check_ptr_never at_500 300 310 2 false (quiet ∷ quiet ∷ []) collector refl refl
      (quiet-Keeps, (quiet-Keeps, tt))

-- Of four generations, an object of the last one goes on to a fifth.
promotion_bound_example : ltb (gc_thread_new_gen_count 4 3 3 2).0 4 ≡ false
promotion_bound_example = promotion_bound 4 3 3 2 (omega arith) (omega arith)
