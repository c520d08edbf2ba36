-- ===== src/Base/Exit.antt =====
-- How a routine that may stop the program ends.
pub data Exit (A : Type 0) : Type 0 where
  returned : A → Exit A
  -- `panic`, a failed check, a write through NULL, a division by 0, or a loop that leaves the
  -- arrays.
  crashed : Exit A
