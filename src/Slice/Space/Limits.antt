-- ===== src/Slice/Space/Limits.antt =====
-- When a reservation succeeds, and what reservations and releases do to the counters.
use masters_thesis.Base.{
  ℕ, ◌≤◌, ◌<◌, ◌^◌, ◌≡◌, true, false, some, ◌∷◌, List, leb, if◌then◌else◌, arith,
}
use masters_thesis.Base.Interleave.{Window, quiet, retry}
use masters_thesis.Base.Word.{add32, sub32}
use masters_thesis.Slice.Types.{Slices, SliceType, gc, malloc, custom, static}
use masters_thesis.Slice.Space.{
  slice_reserve_total_space, slice_reserve_gc_space, slice_reserve_malloc_space,
  slice_reserve_space, slice_release_total_space, slice_release_gc_space,
  slice_release_malloc_space, slice_release_space, reserve_round, slice_try_release,
}

-- An executor that reserves or releases alone, `ws` being the windows that follow.
module _ (size : ℕ) (ws : List (Window Slices)) (s : Slices) where
  total_refused :
      add32 s.total_size size < s.total_limit
      → slice_reserve_total_space 0 size (quiet ∷ quiet ∷ quiet ∷ ws) s ≡ some (false, ws, s)
  unfolding slice_reserve_total_space
  total_refused h = ground arith

  total_granted :
      (failures : ℕ)
      → s.total_limit ≤ add32 s.total_size size
      → slice_reserve_total_space failures size (quiet ∷ ws) s
        ≡ some (true, ws, record s { total_size = add32 s.total_size size })
  unfolding slice_reserve_total_space
  total_granted f h = ground arith

  gc_refused :
      add32 s.gc_size size < s.gc_limit
      → slice_reserve_gc_space size (quiet ∷ ws) s ≡ some (false, ws, s)
  unfolding slice_reserve_gc_space reserve_round retry
  gc_refused h = ground arith

  gc_granted :
      s.gc_limit ≤ add32 s.gc_size size
      → slice_reserve_gc_space size (quiet ∷ ws) s
        ≡ some (true, ws, record s { gc_size = add32 s.gc_size size })
  unfolding slice_reserve_gc_space reserve_round retry
  gc_granted h = ground arith

  malloc_refused :
      add32 s.malloc_size size < s.malloc_limit
      → slice_reserve_malloc_space size (quiet ∷ ws) s ≡ some (false, ws, s)
  unfolding slice_reserve_malloc_space reserve_round retry
  malloc_refused h = ground arith

  malloc_granted :
      s.malloc_limit ≤ add32 s.malloc_size size
      → slice_reserve_malloc_space size (quiet ∷ ws) s
        ≡ some (true, ws, record s { malloc_size = add32 s.malloc_size size })
  unfolding slice_reserve_malloc_space reserve_round retry
  malloc_granted h = ground arith

  total_released :
      slice_release_total_space size (quiet ∷ ws) s
      ≡ some (tt, ws, record s { total_size = sub32 s.total_size size })
  unfolding slice_release_total_space slice_try_release retry
  total_released = ground arith

  gc_released :
      slice_release_gc_space size (quiet ∷ ws) s
      ≡ some (tt, ws, record s { total_size = sub32 s.total_size size })
  unfolding slice_release_gc_space slice_try_release retry
  gc_released = ground arith

  malloc_released :
      slice_release_malloc_space size (quiet ∷ ws) s
      ≡ some (tt, ws, record s { total_size = sub32 s.total_size size })
  unfolding slice_release_malloc_space slice_try_release retry
  malloc_released = ground arith

module _ (failures size : ℕ) (ws : List (Window Slices)) (s : Slices) where
  -- An executor that reserves alone while the total with the size stays below its limit is refused
  -- after three rounds, for every type, and no counter changes; `failures` starts at 0 here.
  pub reserve_below_limit :
      (type : SliceType)
      → add32 s.total_size size < s.total_limit
      → slice_reserve_space 0 size type (quiet ∷ quiet ∷ quiet ∷ ws) s ≡ some (false, ws, s)
  unfolding slice_reserve_space
  reserve_below_limit type h = ground (arith, total_refused size ws s h)

  -- The other outcomes, for an executor that is alone and a total that with the size reaches its
  -- limit: where the type's own counter with the size reaches its limit too, both counters grow by
  -- the size (modulo 2 ^ 32); where it stays below, the reservation is refused and the total is
  -- given back. The types with no counter of their own are granted.
  pub reserve_at_limit :
      s.total_size < 2 ^ 32
      → size < 2 ^ 32
      → s.total_limit ≤ add32 s.total_size size
      → (slice_reserve_space failures size gc (quiet ∷ quiet ∷ quiet ∷ ws) s ≡ (
          if leb s.gc_limit (add32 s.gc_size size)
          then some (
            true,
            quiet ∷ ws,
            record s { total_size = add32 s.total_size size; gc_size = add32 s.gc_size size },
          )
          else some (false, ws, s)))
        × (slice_reserve_space failures size malloc (quiet ∷ quiet ∷ quiet ∷ ws) s ≡ (
            if leb s.malloc_limit (add32 s.malloc_size size)
            then some (
              true,
              quiet ∷ ws,
              record s {
                total_size = add32 s.total_size size;
                malloc_size = add32 s.malloc_size size;
              },
            )
            else some (false, ws, s)))
        × (slice_reserve_space failures size custom (quiet ∷ ws) s
            ≡ some (true, ws, record s { total_size = add32 s.total_size size }))
        × (slice_reserve_space failures size static (quiet ∷ ws) s
            ≡ some (true, ws, record s { total_size = add32 s.total_size size }))
  unfolding slice_reserve_space
  reserve_at_limit total_fits size_fits h =
      let t : Slices = record s { total_size = add32 s.total_size size } in
      (
        ground (
          arith,
          total_granted size (quiet ∷ quiet ∷ ws) s failures h,
          gc_granted size (quiet ∷ ws) t,
          gc_refused size (quiet ∷ ws) t,
          total_released size ws t,
        ),
        ground (
          arith,
          total_granted size (quiet ∷ quiet ∷ ws) s failures h,
          malloc_granted size (quiet ∷ ws) t,
          malloc_refused size (quiet ∷ ws) t,
          total_released size ws t,
        ),
        ground (arith, total_granted size ws s failures h),
        ground (arith, total_granted size ws s failures h),
      )

  -- Alone, `slice_release_space` takes the size from the total once for a type with no counter of
  -- its own, and twice for a slice of the collector or of malloc, whose own counters it leaves
  -- alone.
  pub release_lem :
      (slice_release_space size gc (quiet ∷ quiet ∷ ws) s
        ≡ some (tt, ws, record s { total_size = sub32 (sub32 s.total_size size) size }))
      × (slice_release_space size malloc (quiet ∷ quiet ∷ ws) s
          ≡ some (tt, ws, record s { total_size = sub32 (sub32 s.total_size size) size }))
      × (slice_release_space size custom (quiet ∷ ws) s
          ≡ some (tt, ws, record s { total_size = sub32 s.total_size size }))
      × (slice_release_space size static (quiet ∷ ws) s
          ≡ some (tt, ws, record s { total_size = sub32 s.total_size size }))
  unfolding slice_release_space
  release_lem = (
    ground (
      arith,
      total_released size (quiet ∷ ws) s,
      gc_released size ws (record s { total_size = sub32 s.total_size size }),
    ),
    ground (
      arith,
      total_released size (quiet ∷ ws) s,
      malloc_released size ws (record s { total_size = sub32 s.total_size size }),
    ),
    ground (arith, total_released size ws s),
    ground (arith, total_released size ws s),
  )
