-- ===== src/Malloc/Anchor/Laws.antt =====
-- The anchor accessors of lf_malloc_data.c as reads and updates of an abstract record of fields.
use masters_thesis.Base.{ℕ, ◌%◌, ◌^◌, ◌<◌, ◌≡◌, refl, ap, ◌∙◌, arith}
use masters_thesis.Malloc.Anchor.{
  anchor_create, anchor_get_avail, anchor_get_credits, anchor_get_state, anchor_get_tag,
  anchor_set_avail, anchor_set_credits, anchor_set_state, anchor_set_tag,
}
use masters_thesis.Malloc.Anchor.Fields.{
  pack, getters, get_avail_lem, get_credits_lem, get_state_lem, get_tag_lem, avail_of, credits_of,
  state_of, tag_of, create_lem, set_avail_lem, set_credits_lem, set_state_lem, set_tag_lem,
}

-- What an anchor stands for.
pub record AnchorFields : Type 0 where
  pub avail : ℕ
  pub credits : ℕ
  pub state : ℕ
  pub tag : ℕ

abbrev pub fields : ℕ → AnchorFields
fields x = record {
  avail = anchor_get_avail x;
  credits = anchor_get_credits x;
  state = anchor_get_state x;
  tag = anchor_get_tag x;
}

abbrev as_record : (avail credits state tag : ℕ) → AnchorFields
as_record a c s t = record { avail = a; credits = c; state = s; tag = t }

record_eq :
    {a a' c c' s s' t t' : ℕ}
    → a ≡ a'
    → c ≡ c'
    → s ≡ s'
    → t ≡ t'
    → as_record a c s t ≡ as_record a' c' s' t'
record_eq ha hc hs ht = cc

fields-pack :
    (a c s t : ℕ)
    → fields (pack a c s t) ≡ as_record (a % 2 ^ 10) (c % 2 ^ 10) (s % 2 ^ 2) (t % 2 ^ 42)
fields-pack a c s t =
    record_eq (omega (arith, get_avail_lem (pack a c s t)))
      (omega (arith, get_credits_lem (pack a c s t))) (omega (arith, get_state_lem (pack a c s t)))
      (omega (arith, get_tag_lem (pack a c s t)))

module _ (x v : ℕ) where
  fields-set_avail : fields (anchor_set_avail x v) ≡ record (fields x) { avail = v % 2 ^ 10 }
  fields-set_avail =
      ap fields (set_avail_lem x v)
      ∙ fields-pack v (credits_of x) (state_of x) (tag_of x)
      ∙ record_eq refl (omega getters) (omega getters) (omega getters)

  fields-set_credits : fields (anchor_set_credits x v) ≡ record (fields x) { credits = v % 2 ^ 10 }
  fields-set_credits =
      ap fields (set_credits_lem x v)
      ∙ fields-pack (avail_of x) v (state_of x) (tag_of x)
      ∙ record_eq (omega getters) refl (omega getters) (omega getters)

  fields-set_state : fields (anchor_set_state x v) ≡ record (fields x) { state = v % 2 ^ 2 }
  fields-set_state =
      ap fields (set_state_lem x v)
      ∙ fields-pack (avail_of x) (credits_of x) v (tag_of x)
      ∙ record_eq (omega getters) (omega getters) refl (omega getters)

  fields-set_tag : fields (anchor_set_tag x v) ≡ record (fields x) { tag = v % 2 ^ 42 }
  fields-set_tag =
      ap fields (set_tag_lem x v)
      ∙ fields-pack (avail_of x) (credits_of x) (state_of x) v
      ∙ record_eq (omega getters) (omega getters) (omega getters) refl

  -- For every anchor word and value, each of the four setters changes its own field to the value's
  -- low 10 bits (avail and credits), 2 bits (state) or 42 bits (tag), and leaves the other three
  -- fields as they are.
  pub setters-fields :
      (fields (anchor_set_avail x v) ≡ record (fields x) { avail = v % 2 ^ 10 })
      × (fields (anchor_set_credits x v) ≡ record (fields x) { credits = v % 2 ^ 10 })
      × (fields (anchor_set_state x v) ≡ record (fields x) { state = v % 2 ^ 2 })
      × (fields (anchor_set_tag x v) ≡ record (fields x) { tag = v % 2 ^ 42 })
  setters-fields = (fields-set_avail, fields-set_credits, fields-set_state, fields-set_tag)

  -- No setter leaves the 64 bits of an anchor.
  pub setters_fit :
      (anchor_set_avail x v < 2 ^ 64)
      × (anchor_set_credits x v < 2 ^ 64)
      × (anchor_set_state x v < 2 ^ 64)
      × (anchor_set_tag x v < 2 ^ 64)
  setters_fit = (
    omega (arith, set_avail_lem x v),
    omega (arith, set_credits_lem x v),
    omega (arith, set_state_lem x v),
    omega (arith, set_tag_lem x v),
  )

-- `anchor_create` makes an anchor with the given fields, cut to their widths, and tag 0.
pub create-fields :
    (avail credits state : ℕ)
    → fields (anchor_create avail credits state) ≡ record {
      avail = avail % 2 ^ 10;
      credits = credits % 2 ^ 10;
      state = state % 2 ^ 2;
      tag = 0;
    }
create-fields a c s = ap fields (create_lem a c s) ∙ fields-pack a c s 0

rebuild : (x : ℕ) → x < 2 ^ 64 → x ≡ pack (avail_of x) (credits_of x) (state_of x) (tag_of x)
rebuild x h = omega arith

-- A 64-bit anchor is determined by its four fields: an anchor that differs differs in one of them.
pub eq_of_fields : (x y : ℕ) → x < 2 ^ 64 → y < 2 ^ 64 → fields x ≡ fields y → x ≡ y
eq_of_fields x y hx hy e = omega (
  arith,
  ap (λ (f : AnchorFields). f.avail) e,
  ap (λ (f : AnchorFields). f.credits) e,
  ap (λ (f : AnchorFields). f.state) e,
  ap (λ (f : AnchorFields). f.tag) e,
  get_avail_lem x,
  get_avail_lem y,
  get_credits_lem x,
  get_credits_lem y,
  get_state_lem x,
  get_state_lem y,
  get_tag_lem x,
  get_tag_lem y,
)
