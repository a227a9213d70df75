-- ===== src/Card/Tests.antt =====
-- Runs of `Card` at concrete cards.
use neof5client.Base.{◌||◌, ◌↔◌, ℕ, ◌≤◌, ◌<◌, ◌≡◌, refl, true, false, arith, [], ◌∷◌, ok}
use neof5client.Card.{
  Card, to_string, from_string, get_strength, lt_card, gt_card, le_card, ge_card, eq_card, is_joker,
}
use neof5client.Card.Rank.{OneOf, order_by_strength}
use neof5client.Card.Text.{from_string-to_string}

abbrev heart_ten : Card
heart_ten = record { idx = 30 }

abbrev three : Card
three = record { idx = 0 }

abbrev joker : Card
joker = record { idx = 52 }

ten_of_hearts : to_string heart_ten ≡ b'H' ∷ b'0' ∷ []
unfolding to_string
ten_of_hearts = refl

-- `fromString` of a text of the letter C alone is the joker: the negative id wraps to 52.
lone_letter : from_string b'C' 0 ≡ ok joker
unfolding from_string
lone_letter = refl

from_string-to_string_example :
    (c0 : ℕ) × (c1 : ℕ) × (to_string heart_ten ≡ c0 ∷ c1 ∷ []) × (from_string c0 c1 ≡ ok heart_ten)
from_string-to_string_example = from_string-to_string heart_ten (omega arith)

order_by_strength_example :
    OneOf (lt_card three heart_ten) (eq_card three heart_ten) (gt_card three heart_ten)
    × ((eq_card three heart_ten ≡ true) ↔ (three ≡ heart_ten))
    × (gt_card three heart_ten ≡ lt_card heart_ten three)
    × (le_card three heart_ten ≡ lt_card three heart_ten || eq_card three heart_ten)
    × (ge_card three heart_ten ≡ gt_card three heart_ten || eq_card three heart_ten)
    × (lt_card three heart_ten ≡ true → lt_card heart_ten joker ≡ true → lt_card three joker ≡ true)
    × (get_strength three < get_strength heart_ten → lt_card three heart_ten ≡ true)
    × (lt_card three heart_ten ≡ true → get_strength three ≤ get_strength heart_ten)
    × (is_joker heart_ten ≡ true → is_joker three ≡ false → lt_card three heart_ten ≡ true)
order_by_strength_example =
    order_by_strength three heart_ten joker (omega arith) (omega arith) (omega arith)
