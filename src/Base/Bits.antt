-- ===== src/Base/Bits.antt =====
-- Masks and disjoint unions of bit fields, at variables: `&` with a contiguous mask is a remainder
-- of a quotient, and `|` of numbers that share no bit is their sum.
use Prim.Native.Nat.{
  ℕ, zero, suc, ◌+◌, ◌*◌, ◌/◌, ◌%◌, ◌^◌, ◌≤◌, ◌<◌, min, max, bit_and, bit_or, digits,
  bit_and-bitwise, bit_or-bitwise,
}
use mathlib.Core.Path.{◌≡◌, refl, sym, ap, ◌∙◌}
use native.Mathlib.Omega.{arith}
use native.Mathlib.Nat.{pow-suc, one-le-pow}

-- A digit operation of the library by its function `rest`, for the digits above the first number,
-- and its function `join` of two digits. Any count of digits that covers the first number gives
-- one result.
module _ (rest : ℕ → ℕ) (join : ℕ → ℕ → ℕ) where
  count_irrelevant :
      (x y : ℕ) (count count' : ℕ)
      → x ≤ count
      → x ≤ count'
      → digits rest join count x y ≡ digits rest join count' x y
  count_irrelevant zero y zero zero enough enough' = refl
  count_irrelevant zero y zero (suc c') enough enough' = refl
  count_irrelevant zero y (suc c) zero enough enough' = refl
  count_irrelevant zero y (suc c) (suc c') enough enough' = refl
  count_irrelevant (suc x) y zero c' enough enough' = absurd (omega arith)
  count_irrelevant (suc x) y (suc c) zero enough enough' = absurd (omega arith)
  count_irrelevant (suc x) y (suc c) (suc c') enough enough' =
      ap (λ (t : ℕ). t * 2 + join (suc x % 2) (y % 2))
        (count_irrelevant (suc x / 2) (y / 2) c c' (omega arith) (omega arith))

  abbrev SplitsLowest : ℕ → ℕ → Type 0
  SplitsLowest x y =
      digits rest join x x y ≡ digits rest join (x / 2) (x / 2) (y / 2) * 2 + join (x % 2) (y % 2)

  -- Where the operation splits at 0, it splits off the lowest digit everywhere.
  split_lowest : ((y : ℕ) → SplitsLowest 0 y) → (x y : ℕ) → SplitsLowest x y
  split_lowest at_zero zero y = at_zero y
  split_lowest at_zero (suc x) y =
      ap (λ (t : ℕ). t * 2 + join (suc x % 2) (y % 2))
        (count_irrelevant (suc x / 2) (y / 2) x (suc x / 2) (omega arith) (omega arith))

pub zero-bit_or : (y : ℕ) → bit_or 0 y ≡ y
zero-bit_or y = bit_or-bitwise 0 y

and_lowest : (x y : ℕ) → bit_and x y ≡ bit_and (x / 2) (y / 2) * 2 + min (x % 2) (y % 2)
and_lowest x y = omega (
  arith,
  split_lowest (λ _. 0) min (λ t. omega arith) x y,
  bit_and-bitwise x y,
  bit_and-bitwise (x / 2) (y / 2),
)

or_lowest : (x y : ℕ) → bit_or x y ≡ bit_or (x / 2) (y / 2) * 2 + max (x % 2) (y % 2)
or_lowest x y = omega (
  arith,
  split_lowest (λ t. t) max (λ t. omega arith) x y,
  bit_or-bitwise x y,
  bit_or-bitwise (x / 2) (y / 2),
)

-- Both laws at a 0 on the right, for all numbers below a bound.
right_zero : (bound x : ℕ) → x < bound → (bit_and x 0 ≡ 0) × (bit_or x 0 ≡ x)
right_zero zero x below = absurd (omega arith)
right_zero (suc bound) zero below = (refl, refl)
right_zero (suc bound) (suc x) below =
    let (none_left, all_left) = right_zero bound (suc x / 2) (omega arith) in
    (omega (arith, and_lowest (suc x) 0), omega (arith, or_lowest (suc x) 0))

bit_and-zero : (x : ℕ) → bit_and x 0 ≡ 0
bit_and-zero x = (right_zero (suc x) x (omega arith)).0

pub bit_or-zero : (x : ℕ) → bit_or x 0 ≡ x
bit_or-zero x = (right_zero (suc x) x (omega arith)).1

-- A mask of `k` ones.
abbrev pub ones : ℕ → ℕ
ones zero = 0
ones (suc k) = ones k * 2 + 1

mul-pow_twice : (q k : ℕ) → q * 2 ^ suc k ≡ q * 2 ^ k * 2
mul-pow_twice q k = omega (arith, ap (λ (t : ℕ). q * t) (pow-suc 2 k))

ones_fields : (k q r : ℕ) → r < 2 ^ k → bit_and (q * 2 ^ k + r) (ones k) ≡ r
ones_fields zero q r h = omega (arith, bit_and-zero (q * 2 ^ 0 + r))
ones_fields (suc k) q r h = omega (
  arith,
  and_lowest (q * 2 ^ suc k + r) (ones k * 2 + 1),
  mul-pow_twice q k,
  pow-suc 2 k,
  ap (λ (t : ℕ). bit_and t (ones k)) half_sum,
  ap (λ (t : ℕ). bit_and ((q * 2 ^ suc k + r) / 2) t) half_ones,
  ones_fields k q (r / 2) (omega (arith, pow-suc 2 k)),
)
  where
    half_sum : (q * 2 ^ suc k + r) / 2 ≡ q * 2 ^ k + r / 2
    half_sum = omega (arith, mul-pow_twice q k)

    half_ones : (ones k * 2 + 1) / 2 ≡ ones k
    half_ones = omega arith

-- A mask that starts at bit `s` keeps what stands above that bit.
shifted_fields :
    (s q r m : ℕ) → r < 2 ^ s → bit_and (q * 2 ^ s + r) (m * 2 ^ s) ≡ bit_and q m * 2 ^ s
shifted_fields zero q r m h =
    omega (arith, ap (λ (t : ℕ). bit_and t (m * 2 ^ 0)) whole, ap (λ (t : ℕ). bit_and q t) one_time)
  where
    whole : q * 2 ^ 0 + r ≡ q
    whole = omega arith

    one_time : m * 2 ^ 0 ≡ m
    one_time = omega arith
shifted_fields (suc s) q r m h = omega (
  arith,
  and_lowest (q * 2 ^ suc s + r) (m * 2 ^ suc s),
  mul-pow_twice q s,
  mul-pow_twice m s,
  mul-pow_twice (bit_and q m) s,
  ap (λ (t : ℕ). bit_and t (m * 2 ^ s)) half_sum,
  ap (λ (t : ℕ). bit_and ((q * 2 ^ suc s + r) / 2) t) half_mask,
  shifted_fields s q (r / 2) m (omega (arith, pow-suc 2 s)),
)
  where
    half_sum : (q * 2 ^ suc s + r) / 2 ≡ q * 2 ^ s + r / 2
    half_sum = omega (arith, mul-pow_twice q s)

    half_mask : m * 2 ^ suc s / 2 ≡ m * 2 ^ s
    half_mask = omega (arith, mul-pow_twice m s)

-- A field above bit `k` and a number below it.
pub bit_or_disjoint : (k q r : ℕ) → r < 2 ^ k → bit_or (q * 2 ^ k) r ≡ q * 2 ^ k + r
bit_or_disjoint zero q r h = omega (arith, ap (bit_or (q * 2 ^ 0)) small, bit_or-zero (q * 2 ^ 0))
  where
    small : r ≡ 0
    small = omega arith
bit_or_disjoint (suc k) q r h = omega (
  arith,
  or_lowest (q * 2 ^ suc k) r,
  mul-pow_twice q k,
  ap (λ (t : ℕ). bit_or t (r / 2)) half_field,
  bit_or_disjoint k q (r / 2) (omega (arith, pow-suc 2 k)),
)
  where
    half_field : q * 2 ^ suc k / 2 ≡ q * 2 ^ k
    half_field = omega (arith, mul-pow_twice q k)

-- The same with the low field first.
pub disjoint_bit_or : (k q r : ℕ) → r < 2 ^ k → bit_or r (q * 2 ^ k) ≡ q * 2 ^ k + r
disjoint_bit_or zero q r h =
    omega (arith, ap (λ (t : ℕ). bit_or t (q * 2 ^ 0)) small, zero-bit_or (q * 2 ^ 0))
  where
    small : r ≡ 0
    small = omega arith
disjoint_bit_or (suc k) q r h = omega (
  arith,
  or_lowest r (q * 2 ^ suc k),
  mul-pow_twice q k,
  ap (λ (t : ℕ). bit_or (r / 2) t) half_field,
  disjoint_bit_or k q (r / 2) (omega (arith, pow-suc 2 k)),
)
  where
    half_field : q * 2 ^ suc k / 2 ≡ q * 2 ^ k
    half_field = omega (arith, mul-pow_twice q k)

split_at : (k x : ℕ) → x / 2 ^ k * 2 ^ k + x % 2 ^ k ≡ x
split_at k x = ground (arith, one-le-pow k 2)

rest_at : (k x : ℕ) → x % 2 ^ k < 2 ^ k
rest_at k x = ground (arith, one-le-pow k 2)

-- The mask of `k` ones keeps the remainder by `2 ^ k`.
pub bit_and-ones : (k x : ℕ) → bit_and x (ones k) ≡ x % 2 ^ k
bit_and-ones k x =
    ap (λ (t : ℕ). bit_and t (ones k)) (sym (split_at k x))
    ∙ ones_fields k (x / 2 ^ k) (x % 2 ^ k) (rest_at k x)

-- The field of `w` bits from bit `s` on, left in place by its mask.
pub bit_and_field : (s w x : ℕ) → bit_and x (ones w * 2 ^ s) ≡ x / 2 ^ s % 2 ^ w * 2 ^ s
bit_and_field s w x =
    ap (λ (t : ℕ). bit_and t (ones w * 2 ^ s)) (sym (split_at s x))
    ∙ shifted_fields s (x / 2 ^ s) (x % 2 ^ s) (ones w) (rest_at s x)
    ∙ ap (λ (t : ℕ). t * 2 ^ s) (bit_and-ones w (x / 2 ^ s))
