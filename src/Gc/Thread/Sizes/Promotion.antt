-- ===== src/Gc/Thread/Sizes/Promotion.antt =====
-- The generation of an object behind a collection.
use masters_thesis.Base.{ℕ, ◌-◌, ◌≤◌, ◌<◌, ◌≡◌, ◌==◌, ◌&&◌, not, ltb, leb, arith}
use masters_thesis.Gc.Thread.Sizes.{gc_gen_promote, gc_thread_new_gen_count}

-- For at most 254 generations, and an object that is asked to go to one of them: its next
-- generation exists unless that one is the last, the object is in it already, and it has survived
-- there often enough.
pub promotion_bound :
    (n oldgen gen count : ℕ)
    → n ≤ 254
    → gen < n
    → ltb (gc_thread_new_gen_count n oldgen gen count).0 n
      ≡ not ((gen == n - 1) && ((gen == oldgen) && leb gc_gen_promote count))
unfolding gc_thread_new_gen_count
promotion_bound n oldgen gen count few valid = ground (arith, few, valid)
