-- ===== src/Malloc/Anchor/Active.antt =====
-- The active word of a processor heap: a descriptor's address, a multiple of 64, and credits in the
-- six low bits.
use masters_thesis.Base.{
  ℕ, ◌+◌, ◌-◌, ◌*◌, ◌/◌, ◌%◌, ◌^◌, ◌<◌, ◌≡◌, ap₂, ◌∙◌, arith, bit_and, bit_or,
}
use masters_thesis.Base.Bits.{bit_and_field, bit_and-ones, bit_or_disjoint}
use masters_thesis.Malloc.Anchor.{
  active_ptr_mask, active_credits_mask, active_create, active_get_ptr, active_get_credits,
  active_set_ptr, active_set_credits,
}

ptr_masked : (x : ℕ) → bit_and x active_ptr_mask ≡ x / 2 ^ 6 % 2 ^ 26 * 2 ^ 6
ptr_masked x = bit_and_field 6 26 x

credits_masked : (x : ℕ) → bit_and x active_credits_mask ≡ x % 2 ^ 6
credits_masked x = bit_and-ones 6 x

joined :
    (p c : ℕ)
    → bit_or (bit_and p active_ptr_mask) (bit_and c active_credits_mask)
      ≡ p / 2 ^ 6 % 2 ^ 26 * 2 ^ 6 + c % 2 ^ 6
joined p c =
    ap₂ bit_or (ptr_masked p) (credits_masked c)
    ∙ bit_or_disjoint 6 (p / 2 ^ 6 % 2 ^ 26) (c % 2 ^ 6) (omega arith)

module _ (p c : ℕ) where
  pub create_lem : active_create p c ≡ p / 2 ^ 6 % 2 ^ 26 * 2 ^ 6 + c % 2 ^ 6
  unfolding active_create
  create_lem = joined p c

  pub set_credits_lem : active_set_credits p c ≡ p / 2 ^ 6 % 2 ^ 26 * 2 ^ 6 + c % 2 ^ 6
  unfolding active_set_credits
  set_credits_lem = joined p c

  pub set_ptr_lem : active_set_ptr c p ≡ p / 2 ^ 6 % 2 ^ 26 * 2 ^ 6 + c % 2 ^ 6
  unfolding active_set_ptr
  set_ptr_lem = joined p c

pub get_ptr_lem : (x : ℕ) → active_get_ptr x ≡ x / 2 ^ 6 % 2 ^ 26 * 2 ^ 6
unfolding active_get_ptr
get_ptr_lem x = ptr_masked x

pub get_credits_lem : (x : ℕ) → active_get_credits x ≡ x % 2 ^ 6
unfolding active_get_credits
get_credits_lem x = credits_masked x

-- A 64-byte aligned 32-bit address and credits below 64 come back from the active word that
-- `active_create` makes of them, and the word fits 32 bits.
pub active_roundtrip :
    (p c : ℕ)
    → p < 2 ^ 32
    → p % 64 ≡ 0
    → c < 64
    → (active_get_ptr (active_create p c) ≡ p)
      × (active_get_credits (active_create p c) ≡ c)
      × (active_create p c < 2 ^ 32)
active_roundtrip p c fits aligned small = (
  omega (arith, get_ptr_lem (active_create p c), create_lem p c),
  omega (arith, get_credits_lem (active_create p c), create_lem p c),
  omega (arith, create_lem p c),
)

-- Each setter of an active word replaces its own part, cut to its width, and keeps the other part:
-- the address loses its six low bits, the credits all but their six low bits.
pub active_setters :
    (x p c : ℕ)
    → p < 2 ^ 32
    → (active_get_ptr (active_set_ptr x p) ≡ p - p % 64)
      × (active_get_credits (active_set_ptr x p) ≡ active_get_credits x)
      × (active_get_credits (active_set_credits x c) ≡ c % 64)
      × (active_get_ptr (active_set_credits x c) ≡ active_get_ptr x)
active_setters x p c fits = (
  omega (arith, get_ptr_lem (active_set_ptr x p), set_ptr_lem p x),
  omega (arith, get_credits_lem (active_set_ptr x p), get_credits_lem x, set_ptr_lem p x),
  omega (arith, get_credits_lem (active_set_credits x c), set_credits_lem x c),
  omega (arith, get_ptr_lem (active_set_credits x c), get_ptr_lem x, set_credits_lem x c),
)
