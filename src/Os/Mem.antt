-- ===== src/Os/Mem.antt =====
-- src/os/posix/os_mem.c: protections and the calls that it makes of the system.
pub mod Prot
use masters_thesis.Base.{ℕ, Bool, true, false, List, [], ◌∷◌, get_or, ◌==◌, if◌then◌else◌}

-- `slice_prot_t` of include/mm/slice.h, in its order.
pub data SliceProt : Type 0 where
  none r w rw x rx wx rwx : SliceProt

-- The number that the enum gives a protection.
abbrev pub prot_index : SliceProt → ℕ
prot_index none = 0
prot_index r = 1
prot_index w = 2
prot_index rw = 3
prot_index x = 4
prot_index rx = 5
prot_index wx = 6
prot_index rwx = 7

-- PROT_READ, PROT_WRITE and PROT_EXEC.
pub record ProtBits : Type 0 where
  pub read : Bool
  pub write : Bool
  pub exec : Bool

abbrev pub bits : Bool → Bool → Bool → ProtBits
bits can_read can_write can_exec = record { read = can_read; write = can_write; exec = can_exec }

abbrev pub prot_map : List ProtBits
prot_map =
    bits false false false
    ∷ bits false false true
    ∷ bits false true false
    ∷ bits false true true
    ∷ bits true false false
    ∷ bits true false true
    ∷ bits true true false
    ∷ bits true true true
    ∷ []

unfoldable pub prot_bits : SliceProt → ProtBits
prot_bits p = get_or prot_map (prot_index p) (bits false false false)

pub data Advice : Type 0 where
  will_need dont_need free : Advice

-- A call of the system.
pub data OsCall : Type 0 where
  mmap : (size : ℕ) → ProtBits → OsCall
  munmap : (ptr size : ℕ) → OsCall
  mprotect : (ptr size : ℕ) → ProtBits → OsCall
  madvise : (ptr size : ℕ) → Advice → OsCall

-- The call that each function makes. `os_mem_map` makes of the -1 that `mmap` returns a NULL.
abbrev pub os_mem_map : (size : ℕ) → SliceProt → OsCall
os_mem_map size prot = mmap size (prot_bits prot)

unfoldable pub os_mem_map_result : ℕ → ℕ
os_mem_map_result out = if out == 0xffffffff then 0 else out

abbrev pub os_mem_unmap : (ptr size : ℕ) → OsCall
os_mem_unmap = munmap

abbrev pub os_mem_remap : (ptr size : ℕ) → SliceProt → OsCall
os_mem_remap ptr size prot = mprotect ptr size (prot_bits prot)

abbrev pub os_mem_willneed : (ptr size : ℕ) → OsCall
os_mem_willneed ptr size = madvise ptr size will_need

abbrev pub os_mem_dontneed : (ptr size : ℕ) → OsCall
os_mem_dontneed ptr size = madvise ptr size dont_need

abbrev pub os_mem_release : (ptr size : ℕ) → OsCall
os_mem_release ptr size = madvise ptr size free
