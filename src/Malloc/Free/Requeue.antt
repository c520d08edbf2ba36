-- ===== src/Malloc/Free/Requeue.antt =====
-- What remove_empty_desc does to a queue of partial superblocks.
use masters_thesis.Base.{
  ℕ, zero, suc, ◌+◌, ◌<◌, ◌≡◌, ◌≢◌, refl, ◌∙◌, true, false, some, List, [], ◌∷◌, ◌++◌, ◌⊎◌, length,
  ne→==, arith,
}
use masters_thesis.Base.Interleave.{Window, quiet}
use masters_thesis.Malloc.State.{Mallocs, null, dequeue, enqueue}
use masters_thesis.Malloc.Free.{
  in_use, empty, desc_empty, dequeue_round, requeue_rounds, requeue_empty, remove_empty_desc,
}

-- The others do nothing in n windows.
abbrev pub quiets_then : (n : ℕ) → List (Window Mallocs) → List (Window Mallocs)
quiets_then zero ws = ws
quiets_then (suc n) ws = quiet ∷ quiets_then n ws

-- The descriptors of a list are not NULL, and none is empty.
abbrev pub NoneEmpty : (s : Mallocs) → List ℕ → Type 0
NoneEmpty s [] = Unit {0}
NoneEmpty s (d ∷ ds) = (d ≢ null) × (desc_empty s d ≡ false) × NoneEmpty s ds

-- The queue of a size class is `rest`, and nothing else but it has changed.
pub record HasQueue (c : ℕ) (rest : List ℕ) (s u : Mallocs) : Type 0 where
  pub queue : u.sc_partial c ≡ rest
  pub others : (j : ℕ) → (j ≡ c) ⊎ (u.sc_partial j ≡ s.sc_partial j)
  pub desc : u.desc ≡ s.desc
  pub heap : u.heap ≡ s.heap
  pub avail : u.malloc_desc_avail ≡ s.malloc_desc_avail
  pub freed : u.freed ≡ s.freed

abbrev taken : (c : ℕ) → Mallocs → Mallocs
taken c s = (dequeue c s).1

module _ (c : ℕ) (s : Mallocs) (d : ℕ) (ds : List ℕ) (queue : s.sc_partial c ≡ d ∷ ds)
    (some_d : d ≢ null) where
  meets_used : desc_empty s d ≡ false → dequeue_round c quiet s ≡ (in_use, taken c s)
  unfolding dequeue_round
  meets_used used = ground (arith, queue, some_d, used)

  meets_empty : desc_empty s d ≡ true → dequeue_round c quiet s ≡ (empty d, taken c s)
  unfolding dequeue_round
  meets_empty is_empty = ground (arith, queue, some_d, is_empty)

  taken_queue : (taken c s).sc_partial c ≡ ds
  taken_queue = ground (arith, queue)

put_back :
    (c e : ℕ) (es : List ℕ) (s : Mallocs)
    → s.sc_partial c ≡ e ∷ es
    → HasQueue c (es ++ e ∷ []) s (enqueue c e (taken c s))
put_back c e es s queue = record {
  queue = ground (arith, queue);
  others = λ j. ground arith;
  desc = refl;
  heap = refl;
  avail = refl;
  freed = refl;
}

taken_first :
    (c : ℕ) (rest : List ℕ) (s u : Mallocs) → HasQueue c rest (taken c s) u → HasQueue c rest s u
taken_first c rest s u q = record {
  queue = q.queue;
  others = λ j. ground (arith, q.others j);
  desc = q.desc;
  heap = q.heap;
  avail = q.avail;
  freed = q.freed;
}

round_goes_on :
    (fuel c : ℕ) (ws : List (Window Mallocs)) (s t : Mallocs)
    → dequeue_round c quiet s ≡ (in_use, t)
    → requeue_rounds (suc fuel) c (quiet ∷ ws) s ≡ requeue_rounds fuel c ws t
unfolding requeue_rounds
round_goes_on fuel c ws s t met = ground (arith, met)

rounds_lem :
    (fuel c : ℕ) (ds es : List ℕ) (e : ℕ) (ws : List (Window Mallocs)) (s : Mallocs)
    → length ds < fuel
    → s.sc_partial c ≡ ds ++ e ∷ es
    → NoneEmpty s ds
    → e ≢ null
    → desc_empty s e ≡ true
    → (u : Mallocs) × (requeue_rounds fuel c (quiets_then (suc (suc (length ds))) ws) s
        ≡ some (tt, ws, u))
      × HasQueue c (es ++ e ∷ []) s u
unfolding requeue_rounds
rounds_lem zero c ds es e ws s enough queue used some_e is_empty = absurd (omega (arith, enough))
rounds_lem (suc fuel) c [] es e ws s enough queue used some_e is_empty = (
  enqueue c e (taken c s),
  ground (arith, meets_empty c s e es queue some_e is_empty),
  put_back c e es s queue,
)
rounds_lem (suc fuel) c (d ∷ ds) es e ws s enough queue used some_e is_empty =
    let (u, run, shape) =
      rounds_lem fuel c ds es e ws (taken c s) (omega (arith, enough))
        (taken_queue c s d (ds ++ e ∷ es) queue used.0) used.2 some_e is_empty in
    (
      u,
      round_goes_on fuel c (quiets_then (suc (suc (length ds))) ws) s (taken c s)
            (meets_used c s d (ds ++ e ∷ es) queue used.0 used.1)
          ∙ run,
      taken_first c (es ++ e ∷ []) s u shape,
    )

length-quiets_then :
    (n : ℕ) (ws : List (Window Mallocs)) → length (quiets_then n ws) ≡ n + length ws
length-quiets_then zero ws = omega arith
length-quiets_then (suc n) ws = omega (arith, length-quiets_then n ws)

-- Where no other executor interferes, the descriptor is not in the slot of its heap, and the queue
-- of the heap's size class holds the descriptors `ds`, none of which is empty, then the empty e, then
-- `es`, where e and those of `ds` are not NULL: remove_empty_desc returns, and the queue then holds
-- `es` and then e. So the superblocks of `ds` are in the queue no more, and the empty one still is.
-- The other queues, the descriptors, the heaps, the list of unused descriptors and the slices that
-- were freed are as before.
pub requeue_empty_drops :
    (h d : ℕ) (s : Mallocs) (ds es : List ℕ) (e : ℕ) (ws : List (Window Mallocs))
    → (s.heap h).ph_partial ≢ d
    → s.sc_partial (s.heap h).ph_sizeclass ≡ ds ++ e ∷ es
    → NoneEmpty s ds
    → e ≢ null
    → desc_empty s e ≡ true
    → (u : Mallocs) × (remove_empty_desc h d (quiets_then (suc (suc (suc (length ds)))) ws) s
        ≡ some (tt, ws, u))
      × HasQueue (s.heap h).ph_sizeclass (es ++ e ∷ []) s u
unfolding remove_empty_desc requeue_empty
requeue_empty_drops h d s ds es e ws elsewhere queue used some_e is_empty =
    let rest = quiets_then (suc (suc (length ds))) ws in
    let (u, run, shape) =
      rounds_lem (suc (length rest)) (s.heap h).ph_sizeclass ds es e ws s
        (omega (arith, length-quiets_then (suc (suc (length ds))) ws)) queue used some_e is_empty in
    (u, rw (ne→== (s.heap h).ph_partial d elsewhere) run, shape)
