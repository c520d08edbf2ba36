-- ===== src/Malloc/Anchor.antt =====
-- src/mm/arch/ia32/lf_malloc_data.c: the anchor of a superblock, four fields in 64 bits, and the
-- active word of a processor heap, a descriptor's address and credits in 32 bits.
pub mod Active
pub mod Fields
pub mod Laws
pub mod Rules
use masters_thesis.Base.{ℕ, ◌+◌, ◌*◌, ◌/◌, ◌%◌, ◌^◌, bit_and, bit_or}

abbrev pub anchor_avail_mask : ℕ
anchor_avail_mask = 0xffc0000000000000

abbrev pub anchor_credits_mask : ℕ
anchor_credits_mask = 0x003ff00000000000

abbrev pub anchor_state_mask : ℕ
anchor_state_mask = 0x00000c0000000000

abbrev pub anchor_tag_mask : ℕ
anchor_tag_mask = 0x000003ffffffffff

abbrev pub anchor_avail_shift : ℕ
anchor_avail_shift = 54

abbrev pub anchor_credits_shift : ℕ
anchor_credits_shift = 44

abbrev pub anchor_state_shift : ℕ
anchor_state_shift = 42

abbrev pub active_credits_mask : ℕ
active_credits_mask = 0x0000003f

abbrev pub active_ptr_mask : ℕ
active_ptr_mask = 0xffffffc0

-- `<<` and `>>` on a uint64_t.
abbrev pub shl64 : ℕ → ℕ → ℕ
shl64 x k = x * 2 ^ k % 2 ^ 64

abbrev pub shr64 : ℕ → ℕ → ℕ
shr64 x k = x / 2 ^ k

-- An `unsigned int` has 32 bits: a conversion to it drops the others.
abbrev pub to_uint : ℕ → ℕ
to_uint x = x % 2 ^ 32

unfoldable pub anchor_create : (avail credits state : ℕ) → ℕ
anchor_create avail credits state =
    let avail_val = bit_and (shl64 avail anchor_avail_shift) anchor_avail_mask in
    let credits_val = bit_and (shl64 credits anchor_credits_shift) anchor_credits_mask in
    let state_val = bit_and (shl64 state anchor_state_shift) anchor_state_mask in
    let tag_val : ℕ = 0 in bit_or (bit_or (bit_or avail_val credits_val) state_val) tag_val

unfoldable pub anchor_get_avail : ℕ → ℕ
anchor_get_avail anchor = to_uint (shr64 (bit_and anchor anchor_avail_mask) anchor_avail_shift)

unfoldable pub anchor_set_avail : ℕ → ℕ → ℕ
anchor_set_avail anchor avail =
    let avail_val = bit_and (shl64 avail anchor_avail_shift) anchor_avail_mask in
    let credits_val = bit_and anchor anchor_credits_mask in
    let state_val = bit_and anchor anchor_state_mask in
    let tag_val = bit_and anchor anchor_tag_mask in
    bit_or (bit_or (bit_or avail_val credits_val) state_val) tag_val

unfoldable pub anchor_get_credits : ℕ → ℕ
anchor_get_credits anchor =
    to_uint (shr64 (bit_and anchor anchor_credits_mask) anchor_credits_shift)

unfoldable pub anchor_set_credits : ℕ → ℕ → ℕ
anchor_set_credits anchor credits =
    let avail_val = bit_and anchor anchor_avail_mask in
    let credits_val = bit_and (shl64 credits anchor_credits_shift) anchor_credits_mask in
    let state_val = bit_and anchor anchor_state_mask in
    let tag_val = bit_and anchor anchor_tag_mask in
    bit_or (bit_or (bit_or avail_val credits_val) state_val) tag_val

unfoldable pub anchor_get_state : ℕ → ℕ
anchor_get_state anchor = to_uint (shr64 (bit_and anchor anchor_state_mask) anchor_state_shift)

unfoldable pub anchor_set_state : ℕ → ℕ → ℕ
anchor_set_state anchor state =
    let avail_val = bit_and anchor anchor_avail_mask in
    let credits_val = bit_and anchor anchor_credits_mask in
    let state_val = bit_and (shl64 state anchor_state_shift) anchor_state_mask in
    let tag_val = bit_and anchor anchor_tag_mask in
    bit_or (bit_or (bit_or avail_val credits_val) state_val) tag_val

unfoldable pub anchor_get_tag : ℕ → ℕ
anchor_get_tag anchor = bit_and anchor anchor_tag_mask

unfoldable pub anchor_set_tag : ℕ → ℕ → ℕ
anchor_set_tag anchor tag =
    let avail_val = bit_and anchor anchor_avail_mask in
    let credits_val = bit_and anchor anchor_credits_mask in
    let state_val = bit_and anchor anchor_state_mask in
    let tag_val = bit_and tag anchor_tag_mask in
    bit_or (bit_or (bit_or avail_val credits_val) state_val) tag_val

-- An address is an `unsigned int` of 32 bits.
unfoldable pub active_create : (ptr credits : ℕ) → ℕ
active_create ptr credits =
    let ptr_val = bit_and ptr active_ptr_mask in
    let credits_val = bit_and credits active_credits_mask in bit_or ptr_val credits_val

unfoldable pub active_get_credits : ℕ → ℕ
active_get_credits active = bit_and active active_credits_mask

unfoldable pub active_set_credits : ℕ → ℕ → ℕ
active_set_credits active credits =
    let ptr_val = bit_and active active_ptr_mask in
    let credits_val = bit_and credits active_credits_mask in bit_or ptr_val credits_val

unfoldable pub active_get_ptr : ℕ → ℕ
active_get_ptr active = bit_and active active_ptr_mask

unfoldable pub active_set_ptr : ℕ → ℕ → ℕ
active_set_ptr active ptr =
    let ptr_val = bit_and ptr active_ptr_mask in
    let credits_val = bit_and active active_credits_mask in bit_or ptr_val credits_val
