-- ===== src/Gc/Desc/Fields.antt =====
-- What the getters read of a header that was just made.
use masters_thesis.Base.{
  ℕ, ◌+◌, ◌-◌, ◌*◌, ◌/◌, ◌%◌, ◌^◌, ◌<◌, ◌≡◌, ◌∙◌, ap, ap₂, bit_and, bit_or, arith,
}
use masters_thesis.Base.Bits.{bit_and_field, bit_and-ones, disjoint_bit_or}
use masters_thesis.Gc.Desc.{
  Words, geninfo, gc_header_init_normal, gc_header_init_array, gc_header_fwd_ptr,
  gc_header_list_ptr, gc_header_type, gc_header_flags, gc_header_flags_set, gc_header_curr_gen,
  gc_header_next_gen, gc_header_count, gc_header_array_len,
}

geninfo_sum :
    (flags gen next_gen count : ℕ)
    → flags < 256
    → gen < 256
    → next_gen < 256
    → count < 256
    → geninfo flags gen next_gen count ≡ flags * 2 ^ 24 + count * 2 ^ 16 + next_gen * 2 ^ 8 + gen
unfolding geninfo
geninfo_sum flags gen next_gen count f g n c =
    let low : bit_or gen (next_gen * 2 ^ 8 % 2 ^ 32) ≡ next_gen * 2 ^ 8 + gen =
      ap (bit_or gen) (omega arith) ∙ disjoint_bit_or 8 next_gen gen (omega arith) in
    let mid : bit_or (next_gen * 2 ^ 8 + gen) (count * 2 ^ 16 % 2 ^ 32)
        ≡ count * 2 ^ 16 + (next_gen * 2 ^ 8 + gen) =
      ap (bit_or (next_gen * 2 ^ 8 + gen)) (omega arith)
      ∙ disjoint_bit_or 16 count (next_gen * 2 ^ 8 + gen) (omega arith) in
    let low3 = count * 2 ^ 16 + (next_gen * 2 ^ 8 + gen) in
    let high : bit_or (count * 2 ^ 16 + (next_gen * 2 ^ 8 + gen)) (flags * 2 ^ 24 % 2 ^ 32)
        ≡ flags * 2 ^ 24 + (count * 2 ^ 16 + (next_gen * 2 ^ 8 + gen)) =
      ap (bit_or low3) (omega arith) ∙ disjoint_bit_or 24 flags low3 (omega arith) in
    ap (λ (t : ℕ). bit_or (bit_or t (count * 2 ^ 16 % 2 ^ 32)) (flags * 2 ^ 24 % 2 ^ 32)) low
    ∙ ap (λ (t : ℕ). bit_or t (flags * 2 ^ 24 % 2 ^ 32)) mid
    ∙ high
    ∙ omega arith

-- What the getters of a header read: the generation, the flags and the type come back, the next
-- generation and the count do not.
pub record Reads (fwd list type flags gen next_gen count header : ℕ) (mem : Words) : Type 0 where
  pub fwd_read : gc_header_fwd_ptr header mem ≡ fwd
  pub list_read : gc_header_list_ptr header mem ≡ list
  pub type_read : gc_header_type header mem ≡ type
  pub flags_read : gc_header_flags header mem ≡ flags
  pub gen_read : gc_header_curr_gen header mem ≡ gen
  pub next_gen_read : gc_header_next_gen header mem ≡ next_gen
  pub count_read : gc_header_count header mem ≡ count

type_field : (t : ℕ) → t < 2 ^ 32 → bit_and t 0xfffffff0 ≡ t - t % 16
type_field t fits = bit_and_field 4 28 t ∙ omega arith

-- A header of which the four words are known.
reads_lem :
    (fwd type flags gen next_gen count header : ℕ) (mem : Words)
    → type < 2 ^ 32
    → flags < 256
    → gen < 256
    → next_gen < 256
    → count < 256
    → mem header ≡ fwd
    → mem (header + 1) ≡ 0
    → mem (header + 2) ≡ type
    → mem (header + 3) ≡ flags * 2 ^ 24 + count * 2 ^ 16 + next_gen * 2 ^ 8 + gen
    → Reads fwd 0 (type - type % 16) flags gen 0 0 header mem
unfolding gc_header_fwd_ptr gc_header_list_ptr gc_header_type gc_header_flags gc_header_curr_gen
    gc_header_next_gen gc_header_count
reads_lem fwd type flags gen next_gen count header mem t f g n c w0 w1 w2 w3 = record {
  fwd_read = w0;
  list_read = w1;
  type_read = rw w2 (type_field type t);
  flags_read = rw w3 (bit_and-ones 8 _ ∙ omega arith);
  gen_read = rw w3 (bit_and-ones 8 _ ∙ omega arith);
  next_gen_read = omega (arith, bit_and-ones 8 (mem (header + 3)));
  count_read = omega (arith, bit_and-ones 8 (mem (header + 3)));
}

-- For a 32-bit type, and flags, generations and a count of a byte, and a header that is not at
-- address 0: both initialisations make a header that reads back the forwarding pointer, no list
-- pointer, the type without its four low bits, the flags and the generation. The next generation
-- and the count read as 0 whatever they were set to, and the length of an array reads as the word
-- in front of the header, which the initialisation leaves alone.
pub init-Reads :
    (fwd type flags gen next_gen count len header : ℕ) (mem : Words)
    → type < 2 ^ 32
    → flags < 256
    → gen < 256
    → next_gen < 256
    → count < 256
    → 0 < header
    → Reads fwd 0
        (type - type % 16)
        flags
        gen
        0
        0
        header
        (gc_header_init_normal fwd type flags gen next_gen count header mem)
      × Reads fwd 0
          (type - type % 16)
          flags
          gen
          0
          0
          header
          (gc_header_init_array fwd type flags gen next_gen count len header mem)
      × (gc_header_array_len header
            (gc_header_init_array fwd type flags gen next_gen count len header mem)
          ≡ mem (header - 1))
unfolding gc_header_init_normal gc_header_init_array gc_header_array_len
init-Reads fwd type flags gen next_gen count len header mem t f g n c pos =
    let info = geninfo_sum flags gen next_gen count f g n c in
    (
      reads_lem fwd type flags gen next_gen count header _ t f g n c (ground arith) (ground arith)
          (ground arith) (ground (arith, info)),
      reads_lem fwd type flags gen next_gen count header _ t f g n c (ground arith) (ground arith)
          (ground arith) (ground (arith, info)),
      ground arith,
    )

flags_split :
    (w flags : ℕ)
    → flags < 256
    → bit_or (bit_and w 0xffffff) (flags * 2 ^ 24 % 2 ^ 32) ≡ flags * 2 ^ 24 + w % 2 ^ 24
flags_split w flags f =
    ap₂ bit_or (bit_and-ones 24 w) (omega arith)
    ∙ disjoint_bit_or 24 flags (w % 2 ^ 24) (omega arith)

-- gc_header_flags_set sets flags of a byte, and every other getter of the header reads what it did.
pub flags_set_lem :
    (flags header : ℕ) (mem : Words)
    → flags < 256
    → (gc_header_flags header (gc_header_flags_set header flags mem) ≡ flags)
      × (gc_header_curr_gen header (gc_header_flags_set header flags mem)
          ≡ gc_header_curr_gen header mem)
      × (gc_header_type header (gc_header_flags_set header flags mem) ≡ gc_header_type header mem)
      × (gc_header_fwd_ptr header (gc_header_flags_set header flags mem)
          ≡ gc_header_fwd_ptr header mem)
      × (gc_header_list_ptr header (gc_header_flags_set header flags mem)
          ≡ gc_header_list_ptr header mem)
unfolding gc_header_flags gc_header_flags_set gc_header_curr_gen gc_header_type gc_header_fwd_ptr
    gc_header_list_ptr
flags_set_lem flags header mem f =
    let w = mem (header + 3) in
    (
      ground
          (arith, flags_split w flags f, bit_and-ones 8 ((flags * 2 ^ 24 + w % 2 ^ 24) / 2 ^ 24)),
      ground (
        arith,
        flags_split w flags f,
        bit_and-ones 8 (flags * 2 ^ 24 + w % 2 ^ 24),
        bit_and-ones 8 w,
      ),
      ground arith,
      ground arith,
      ground arith,
    )
