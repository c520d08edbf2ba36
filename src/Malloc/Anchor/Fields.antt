-- ===== src/Malloc/Anchor/Fields.antt =====
-- What the accessors of lf_malloc_data.c compute, as arithmetic on the fields.
use masters_thesis.Base.{
  ℕ, ◌+◌, ◌*◌, ◌/◌, ◌%◌, ◌^◌, ◌<◌, ◌≡◌, bit_and, bit_or, arith, refl, ap, ◌∙◌,
}
use masters_thesis.Base.Bits.{bit_and_field, bit_and-ones, bit_or_disjoint}
use masters_thesis.Malloc.Anchor.{
  anchor_avail_mask, anchor_credits_mask, anchor_state_mask, anchor_tag_mask, shl64, anchor_create,
  anchor_get_avail, anchor_get_credits, anchor_get_state, anchor_get_tag, anchor_set_avail,
  anchor_set_credits, anchor_set_state, anchor_set_tag,
}

avail_masked : (x : ℕ) → bit_and x anchor_avail_mask ≡ x / 2 ^ 54 % 2 ^ 10 * 2 ^ 54
avail_masked x = bit_and_field 54 10 x

credits_masked : (x : ℕ) → bit_and x anchor_credits_mask ≡ x / 2 ^ 44 % 2 ^ 10 * 2 ^ 44
credits_masked x = bit_and_field 44 10 x

state_masked : (x : ℕ) → bit_and x anchor_state_mask ≡ x / 2 ^ 42 % 2 ^ 2 * 2 ^ 42
state_masked x = bit_and_field 42 2 x

tag_masked : (x : ℕ) → bit_and x anchor_tag_mask ≡ x % 2 ^ 42
tag_masked x = bit_and-ones 42 x

-- The `|` of four values that stand in their fields is their sum.
fields_or :
    (a c s t : ℕ)
    → c < 2 ^ 10
    → s < 2 ^ 2
    → t < 2 ^ 42
    → bit_or (bit_or (bit_or (a * 2 ^ 54) (c * 2 ^ 44)) (s * 2 ^ 42)) t
      ≡ a * 2 ^ 54 + c * 2 ^ 44 + s * 2 ^ 42 + t
fields_or a c s t hc hs ht =
    ap (λ (x : ℕ). bit_or (bit_or x (s * 2 ^ 42)) t) upper
    ∙ ap (λ (x : ℕ). bit_or x t) middle
    ∙ ap (λ (x : ℕ). bit_or x t) (omega arith)
    ∙ bit_or_disjoint 42 ((a * 2 ^ 12 + c * 2 ^ 2) + s) t ht
    ∙ omega arith
  where
    upper : bit_or (a * 2 ^ 54) (c * 2 ^ 44) ≡ (a * 2 ^ 10 + c) * 2 ^ 44
    upper = bit_or_disjoint 54 a (c * 2 ^ 44) (omega arith) ∙ omega arith

    middle :
        bit_or ((a * 2 ^ 10 + c) * 2 ^ 44) (s * 2 ^ 42) ≡ (a * 2 ^ 10 + c) * 2 ^ 44 + s * 2 ^ 42
    middle = bit_or_disjoint 44 (a * 2 ^ 10 + c) (s * 2 ^ 42) (omega arith)

-- The word with four given fields.
abbrev pub pack : (avail credits state tag : ℕ) → ℕ
pack a c s t = a % 2 ^ 10 * 2 ^ 54 + c % 2 ^ 10 * 2 ^ 44 + s % 2 ^ 2 * 2 ^ 42 + t % 2 ^ 42

abbrev pub avail_of : ℕ → ℕ
avail_of x = x / 2 ^ 54 % 2 ^ 10

abbrev pub credits_of : ℕ → ℕ
credits_of x = x / 2 ^ 44 % 2 ^ 10

abbrev pub state_of : ℕ → ℕ
state_of x = x / 2 ^ 42 % 2 ^ 2

abbrev pub tag_of : ℕ → ℕ
tag_of x = x % 2 ^ 42

masked_or :
    (a c s t x y z w : ℕ)
    → x ≡ a % 2 ^ 10 * 2 ^ 54
    → y ≡ c % 2 ^ 10 * 2 ^ 44
    → z ≡ s % 2 ^ 2 * 2 ^ 42
    → w ≡ t % 2 ^ 42
    → bit_or (bit_or (bit_or x y) z) w ≡ pack a c s t
masked_or a c s t x y z w hx hy hz hw =
    rw (hx, hy, hz, hw)
      (fields_or (a % 2 ^ 10) (c % 2 ^ 10) (s % 2 ^ 2) (t % 2 ^ 42) (omega arith) (omega arith)
        (omega arith))

pub get_avail_lem : (x : ℕ) → anchor_get_avail x ≡ avail_of x
unfolding anchor_get_avail
get_avail_lem x = omega (arith, avail_masked x)

pub get_credits_lem : (x : ℕ) → anchor_get_credits x ≡ credits_of x
unfolding anchor_get_credits
get_credits_lem x = omega (arith, credits_masked x)

pub get_state_lem : (x : ℕ) → anchor_get_state x ≡ state_of x
unfolding anchor_get_state
get_state_lem x = omega (arith, state_masked x)

pub get_tag_lem : (x : ℕ) → anchor_get_tag x ≡ tag_of x
unfolding anchor_get_tag
get_tag_lem x = tag_masked x

avail_shifted : (v : ℕ) → bit_and (shl64 v 54) anchor_avail_mask ≡ v % 2 ^ 10 * 2 ^ 54
avail_shifted v = omega (arith, avail_masked (shl64 v 54))

credits_shifted : (v : ℕ) → bit_and (shl64 v 44) anchor_credits_mask ≡ v % 2 ^ 10 * 2 ^ 44
credits_shifted v = omega (arith, credits_masked (shl64 v 44))

state_shifted : (v : ℕ) → bit_and (shl64 v 42) anchor_state_mask ≡ v % 2 ^ 2 * 2 ^ 42
state_shifted v = omega (arith, state_masked (shl64 v 42))

pub create_lem : (a c s : ℕ) → anchor_create a c s ≡ pack a c s 0
unfolding anchor_create
create_lem a c s =
    masked_or a c s 0 _ _ _ _ (avail_shifted a) (credits_shifted c) (state_shifted s) refl

pub set_avail_lem : (x v : ℕ) → anchor_set_avail x v ≡ pack v (credits_of x) (state_of x) (tag_of x)
unfolding anchor_set_avail
set_avail_lem x v =
    masked_or v (credits_of x) (state_of x) (tag_of x) _ _ _ _ (avail_shifted v)
      (omega (arith, credits_masked x)) (omega (arith, state_masked x))
      (omega (arith, tag_masked x))

pub set_credits_lem :
    (x v : ℕ) → anchor_set_credits x v ≡ pack (avail_of x) v (state_of x) (tag_of x)
unfolding anchor_set_credits
set_credits_lem x v =
    masked_or (avail_of x) v (state_of x) (tag_of x) _ _ _ _ (omega (arith, avail_masked x))
      (credits_shifted v) (omega (arith, state_masked x)) (omega (arith, tag_masked x))

pub set_state_lem : (x v : ℕ) → anchor_set_state x v ≡ pack (avail_of x) (credits_of x) v (tag_of x)
unfolding anchor_set_state
set_state_lem x v =
    masked_or (avail_of x) (credits_of x) v (tag_of x) _ _ _ _ (omega (arith, avail_masked x))
      (omega (arith, credits_masked x)) (state_shifted v) (omega (arith, tag_masked x))

pub set_tag_lem : (x v : ℕ) → anchor_set_tag x v ≡ pack (avail_of x) (credits_of x) (state_of x) v
unfolding anchor_set_tag
set_tag_lem x v =
    masked_or (avail_of x) (credits_of x) (state_of x) v _ _ _ _ (omega (arith, avail_masked x))
      (omega (arith, credits_masked x)) (omega (arith, state_masked x)) (tag_masked v)

pub ruleset getters = (arith, get_avail_lem, get_credits_lem, get_state_lem, get_tag_lem)

pub avail_lt : (x : ℕ) → anchor_get_avail x < 2 ^ 10
avail_lt x = omega getters

pub credits_lt : (x : ℕ) → anchor_get_credits x < 2 ^ 10
credits_lt x = omega getters
