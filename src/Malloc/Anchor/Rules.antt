-- ===== src/Malloc/Anchor/Rules.antt =====
-- The getters of an anchor after its setters, one equation for each pair, for rewriting.
use masters_thesis.Base.{ℕ, ◌%◌, ◌^◌, ◌≡◌, ap}
use masters_thesis.Malloc.Anchor.{
  anchor_create, anchor_get_avail, anchor_get_credits, anchor_get_state, anchor_get_tag,
  anchor_set_avail, anchor_set_credits, anchor_set_state, anchor_set_tag,
}
use masters_thesis.Malloc.Anchor.Laws.{AnchorFields, setters-fields, create-fields}

module _ (x v : ℕ) where
  pub avail-set_avail : anchor_get_avail (anchor_set_avail x v) ≡ v % 2 ^ 10
  avail-set_avail = ap (λ (f : AnchorFields). f.avail) (setters-fields x v).0

  pub credits-set_avail : anchor_get_credits (anchor_set_avail x v) ≡ anchor_get_credits x
  credits-set_avail = ap (λ (f : AnchorFields). f.credits) (setters-fields x v).0

  pub state-set_avail : anchor_get_state (anchor_set_avail x v) ≡ anchor_get_state x
  state-set_avail = ap (λ (f : AnchorFields). f.state) (setters-fields x v).0

  pub tag-set_avail : anchor_get_tag (anchor_set_avail x v) ≡ anchor_get_tag x
  tag-set_avail = ap (λ (f : AnchorFields). f.tag) (setters-fields x v).0

  pub avail-set_credits : anchor_get_avail (anchor_set_credits x v) ≡ anchor_get_avail x
  avail-set_credits = ap (λ (f : AnchorFields). f.avail) (setters-fields x v).1

  pub credits-set_credits : anchor_get_credits (anchor_set_credits x v) ≡ v % 2 ^ 10
  credits-set_credits = ap (λ (f : AnchorFields). f.credits) (setters-fields x v).1

  pub state-set_credits : anchor_get_state (anchor_set_credits x v) ≡ anchor_get_state x
  state-set_credits = ap (λ (f : AnchorFields). f.state) (setters-fields x v).1

  pub tag-set_credits : anchor_get_tag (anchor_set_credits x v) ≡ anchor_get_tag x
  tag-set_credits = ap (λ (f : AnchorFields). f.tag) (setters-fields x v).1

  pub avail-set_state : anchor_get_avail (anchor_set_state x v) ≡ anchor_get_avail x
  avail-set_state = ap (λ (f : AnchorFields). f.avail) (setters-fields x v).2

  pub credits-set_state : anchor_get_credits (anchor_set_state x v) ≡ anchor_get_credits x
  credits-set_state = ap (λ (f : AnchorFields). f.credits) (setters-fields x v).2

  pub state-set_state : anchor_get_state (anchor_set_state x v) ≡ v % 2 ^ 2
  state-set_state = ap (λ (f : AnchorFields). f.state) (setters-fields x v).2

  pub tag-set_state : anchor_get_tag (anchor_set_state x v) ≡ anchor_get_tag x
  tag-set_state = ap (λ (f : AnchorFields). f.tag) (setters-fields x v).2

  pub avail-set_tag : anchor_get_avail (anchor_set_tag x v) ≡ anchor_get_avail x
  avail-set_tag = ap (λ (f : AnchorFields). f.avail) (setters-fields x v).3

  pub credits-set_tag : anchor_get_credits (anchor_set_tag x v) ≡ anchor_get_credits x
  credits-set_tag = ap (λ (f : AnchorFields). f.credits) (setters-fields x v).3

  pub state-set_tag : anchor_get_state (anchor_set_tag x v) ≡ anchor_get_state x
  state-set_tag = ap (λ (f : AnchorFields). f.state) (setters-fields x v).3

  pub tag-set_tag : anchor_get_tag (anchor_set_tag x v) ≡ v % 2 ^ 42
  tag-set_tag = ap (λ (f : AnchorFields). f.tag) (setters-fields x v).3

module _ (a c s : ℕ) where
  pub avail-create : anchor_get_avail (anchor_create a c s) ≡ a % 2 ^ 10
  avail-create = ap (λ (f : AnchorFields). f.avail) (create-fields a c s)

  pub credits-create : anchor_get_credits (anchor_create a c s) ≡ c % 2 ^ 10
  credits-create = ap (λ (f : AnchorFields). f.credits) (create-fields a c s)

  pub state-create : anchor_get_state (anchor_create a c s) ≡ s % 2 ^ 2
  state-create = ap (λ (f : AnchorFields). f.state) (create-fields a c s)

pub ruleset anchor_rules = (
  avail-set_avail, credits-set_avail, state-set_avail, tag-set_avail, avail-set_credits,
  credits-set_credits, state-set_credits, tag-set_credits, avail-set_state, credits-set_state,
  state-set_state, tag-set_state, avail-set_tag, credits-set_tag, state-set_tag, tag-set_tag,
  avail-create, credits-create, state-create,
)
