-- ===== src/Gc/Thread/Claim/Skipped.antt =====
-- Objects outside of the generations that are collected.
use masters_thesis.Base.{ℕ, ◌<◌, ◌≡◌, Bool, false, some, List, ◌∷◌, ◌==◌, if◌then◌else◌, arith}
use masters_thesis.Base.Interleave.{Window}
use masters_thesis.Gc.Desc.{gc_header_curr_gen}
use masters_thesis.Gc.Thread.{Collector, claimed, unclaimed}
use masters_thesis.Gc.Thread.Claim.{
  Allocation, tag_claimed, claim_in_place, claim_word, gc_thread_claim,
}

-- What the code compares with is never the value of an unclaimed object.
unclaimed-tag_claimed :
    (copy : Bool) (s : Collector)
    → (unclaimed s == (if copy then claimed s else tag_claimed (claimed s))) ≡ false
unclaimed-tag_claimed copy s = ground arith

-- Whatever the others do: gc_thread_claim on an object whose generation is above the ones that are
-- collected returns the object, but does not claim it, and adds it to no queue.
pub claim_skips :
    (a : Allocation) (obj max_gen : ℕ) (copy : Bool) (w : Window Collector)
    (ws : List (Window Collector)) (s : Collector)
    → max_gen < gc_header_curr_gen obj (w.before s).words
    → gc_thread_claim a obj max_gen copy (w ∷ ws) s ≡ some (obj, ws, w.before s)
unfolding gc_thread_claim claim_word claim_in_place
claim_skips a obj max_gen copy w ws s old =
    ground (arith, old, unclaimed-tag_claimed copy (w.before s))
