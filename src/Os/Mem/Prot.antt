-- ===== src/Os/Mem/Prot.antt =====
-- Which protections the system is asked for.
use mathlib.Core.Bool.{Bool, true, false}
use masters_thesis.Base.{◌≡◌, ◌↔◌, arith}
use masters_thesis.Os.Mem.{SliceProt, none, r, w, rw, x, rx, wx, rwx, ProtBits, bits, prot_bits}

-- The accesses that the name of a protection says.
abbrev pub named_bits : SliceProt → ProtBits
named_bits none = bits false false false
named_bits r = bits true false false
named_bits w = bits false true false
named_bits rw = bits true true false
named_bits x = bits false false true
named_bits rx = bits true false true
named_bits wx = bits false true true
named_bits rwx = bits true true true

-- The protections whose place in the enum is their place in `prot_map`.
abbrev pub in_place : SliceProt → Bool
in_place none = true
in_place w = true
in_place rx = true
in_place rwx = true
in_place _ = false

-- The system is asked for the accesses that a protection names exactly at NONE, W, RX and RWX. At
-- R, RW, X and WX it is asked for others.
pub prot_bits-named : (p : SliceProt) → (prot_bits p ≡ named_bits p) ↔ (in_place p ≡ true)
unfolding prot_bits
prot_bits-named none = ground arith
prot_bits-named r = ground arith
prot_bits-named w = ground arith
prot_bits-named rw = ground arith
prot_bits-named x = ground arith
prot_bits-named rx = ground arith
prot_bits-named wx = ground arith
prot_bits-named rwx = ground arith
