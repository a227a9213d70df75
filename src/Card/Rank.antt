-- ===== src/Card/Rank.antt =====
-- The order of cards against their strength, and `Card::get` against suit and strength.
use neof5client.Base.{
  ◌≤◌, ◌<◌, ◌≡◌, true, false, Bool, ◌||◌, ◌==◌, ◌↔◌, ◌⊎◌, inl, inr, Bool-cases, arith,
}
use neof5client.Card.{
  Card, get_num, is_joker, get_strength, lt_card, gt_card, le_card, ge_card, eq_card,
}
use neof5client.Card.Table.{IsCard, get_strength_lem, get_num_lem, is_joker_lem}

-- The six operators are the order of the indices.
pub lt_card_iff : (a b : Card) → (lt_card a b ≡ true) ↔ (a.idx < b.idx)
unfolding lt_card
lt_card_iff a b = ground arith

pub gt_card_iff : (a b : Card) → (gt_card a b ≡ true) ↔ (b.idx < a.idx)
unfolding gt_card
gt_card_iff a b = ground arith

pub eq_card_iff : (a b : Card) → (eq_card a b ≡ true) ↔ (a ≡ b)
unfolding eq_card
eq_card_iff a b = ground arith

-- Two cards of the table have one number exactly when they have one strength.
pub num-eq-strength :
    (a b : Card)
    → IsCard a
    → IsCard b
    → (get_num a == get_num b) ≡ (get_strength a == get_strength b)
num-eq-strength a b ha hb =
    ground (arith, get_num_lem a ha, get_num_lem b hb, get_strength_lem a ha, get_strength_lem b hb)

-- Exactly one of three tests is true.
abbrev pub OneOf : Bool → Bool → Bool → Type 0
OneOf p q r =
    ((p ≡ true) × (q ≡ false) × (r ≡ false))
    ⊎ (((p ≡ false) × (q ≡ true) × (r ≡ false)) ⊎ ((p ≡ false) × (q ≡ false) × (r ≡ true)))

one_of : (a b : Card) → OneOf (lt_card a b) (eq_card a b) (gt_card a b)
unfolding lt_card gt_card eq_card
one_of a b = elim (Bool-cases (lt_card a b)) [
  | inl below ↦ inl (below, ground (arith, below), ground (arith, below))
  | inr not_below ↦ elim (Bool-cases (gt_card a b)) [
    | inl above ↦ inr (inr (not_below, ground (arith, above), above))
    | inr not_above ↦ inr (inl (not_below, ground (arith, not_below, not_above), not_above))
  ]
]

-- For cards a, b and c of the table: exactly one of `a < b`, `a == b` and `a > b` holds, `==` is
-- equality, `a > b` is `b < a`, `<=` and `>=` are `<` and `>` or `==`, and `<` is transitive; a
-- weaker card is before a stronger one, and the joker is above all others.
pub order_by_strength :
    (a b c : Card)
    → IsCard a
    → IsCard b
    → IsCard c
    → OneOf (lt_card a b) (eq_card a b) (gt_card a b)
      × ((eq_card a b ≡ true) ↔ (a ≡ b))
      × (gt_card a b ≡ lt_card b a)
      × (le_card a b ≡ lt_card a b || eq_card a b)
      × (ge_card a b ≡ gt_card a b || eq_card a b)
      × (lt_card a b ≡ true → lt_card b c ≡ true → lt_card a c ≡ true)
      × (get_strength a < get_strength b → lt_card a b ≡ true)
      × (lt_card a b ≡ true → get_strength a ≤ get_strength b)
      × (is_joker b ≡ true → is_joker a ≡ false → lt_card a b ≡ true)
unfolding lt_card gt_card le_card ge_card eq_card
order_by_strength a b c ha hb hc = (
  one_of a b,
  eq_card_iff a b,
  ground arith,
  ground arith,
  ground arith,
  λ h k. ground (arith, h, k),
  λ h. ground (arith, get_strength_lem a ha, get_strength_lem b hb),
  λ h. ground (arith, get_strength_lem a ha, get_strength_lem b hb),
  λ h k. ground (arith, is_joker_lem a ha, is_joker_lem b hb),
)
