-- ===== src/DaifugoRule/Strength.antt =====
-- `compareCards` against the strength of cards and the revolution.
use neof5client.Base.{◌≡◌, Bool, true, false, ltb, arith, if◌then◌else◌}
use neof5client.Base.Int.{pos, negsuc}
use neof5client.Card.{Card, is_joker, get_strength}
use neof5client.Card.Table.{IsCard, get_strength_lem, is_joker_lem}
use neof5client.Card.Rank.{num-eq-strength, gt_card_iff}
use neof5client.DaifugoRule.{Rule, compare_cards}

-- `b` beats `a`: the joker beats all others, and otherwise the stronger card does, or the weaker
-- one during a revolution.
abbrev pub beats : Bool → Card → Card → Bool
beats kakumei a b =
    if is_joker a
    then false
    else if is_joker b
    then true
    else if kakumei
    then ltb (get_strength b) (get_strength a)
    else ltb (get_strength a) (get_strength b)

-- For two cards of the table, `compareCards(a, b)` is 1 where b beats a, -1 where a beats b, and 0
-- where they have one strength.
pub compare_cards_lem :
    (r : Rule) (a b : Card)
    → IsCard a
    → IsCard b
    → compare_cards r a b ≡ (
        if beats r.is_kakumei a b
        then pos 1
        else if beats r.is_kakumei b a
        then negsuc 0
        else pos 0)
unfolding compare_cards
compare_cards_lem r a b ha hb = ground (
  arith,
  num-eq-strength a b ha hb,
  get_strength_lem a ha,
  get_strength_lem b hb,
  is_joker_lem a ha,
  is_joker_lem b hb,
  gt_card_iff a b,
)
