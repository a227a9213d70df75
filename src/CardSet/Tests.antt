-- ===== src/CardSet/Tests.antt =====
-- Runs of `CardSet` at concrete sets.
use neof5client.Base.{
  ℕ, ◌+◌, ◌^◌, ◌≡◌, refl, arith, List, [], ◌∷◌, ok, ◌↔◌, true, not, ◌&&◌, ◌||◌, length,
}
use neof5client.Card.{Card, get_num, card_strength_max, calc_card_id_from_string, eq_card}
use neof5client.Card.Table.{IsCard}
use neof5client.CardSet.{
  CardSet, to_string, from_text, size, at, has, has_num_of, add_card, remove_card, add_set,
  remove_set, conv2_vector, from_vector,
}
use neof5client.CardSet.Members.{IsValid, member}
use neof5client.CardSet.Numbers.{has_num_of_printed, has_num_of_strength_max}
use neof5client.CardSet.Contract.{set_operations}
use neof5client.CardSet.Elements.{at_or_throw}
use neof5client.CardSet.Vector.{Ascending, AllCards, in_cards, conv2_vector_contract}
use neof5client.CardSet.Reading.{from_text-IsValid}
use neof5client.CardSet.Text.{from_text-to_string}

-- The 3 of clubs, the 4 of diamonds and the joker.
abbrev three_cards : CardSet
three_cards = record { bits = 2 ^ 52 + 2 ^ 5 + 1 }

abbrev two_aces : CardSet
two_aces = record { bits = 2 ^ 45 + 2 ^ 44 }

abbrev ace : Card
ace = record { idx = 44 }

abbrev three_text : List ℕ
three_text = b'C' ∷ b'3' ∷ b' ' ∷ b'D' ∷ b'4' ∷ b' ' ∷ b'J' ∷ b'K' ∷ []

reads_three_cards : from_text three_text ≡ ok three_cards
unfolding from_text calc_card_id_from_string
reads_three_cards = refl

from_text-to_string_example :
    (text : List ℕ) × (to_string three_cards ≡ ok text) × (from_text text ≡ ok three_cards)
from_text-to_string_example = from_text-to_string three_cards (omega arith)

from_text-IsValid_example : IsValid three_cards
from_text-IsValid_example = from_text-IsValid three_text three_cards reads_three_cards

set_operations_example :
    (IsValid (add_card three_cards ace)
      × (has (add_card three_cards ace) ace ≡ (has three_cards ace || eq_card ace ace)))
    × (IsValid (remove_card three_cards ace)
        × (has (remove_card three_cards ace) ace ≡ (has three_cards ace && not (eq_card ace ace))))
    × (IsValid (add_set three_cards two_aces)
        × (has (add_set three_cards two_aces) ace ≡ (has three_cards ace || has two_aces ace)))
    × (IsValid (remove_set three_cards two_aces)
        × (has (remove_set three_cards two_aces) ace
            ≡ (has three_cards ace && not (has two_aces ace))))
set_operations_example =
    set_operations three_cards two_aces ace ace (omega arith) (omega arith) (omega arith)
      (omega arith)

conv2_vector_contract_example :
    (cs : List Card) × (conv2_vector three_cards ≡ ok cs)
    × Ascending 0 cs
    × AllCards cs
    × ((i : ℕ) → in_cards cs i ≡ member three_cards i)
    × (size three_cards ≡ length cs)
    × ((k : ℕ) → at three_cards k ≡ at_or_throw cs k)
    × (from_vector cs ≡ three_cards)
conv2_vector_contract_example = conv2_vector_contract three_cards (omega arith)

has_num_of_printed_example :
    (has_num_of three_cards 4 ≡ true)
    ↔ ((c : Card) × IsCard c × (member three_cards c.idx ≡ true) × (get_num c ≡ 4))
has_num_of_printed_example =
    has_num_of_printed three_cards 4 (omega arith) (omega arith) (omega arith)

has_num_of_strength_max_example :
    (has_num_of two_aces card_strength_max ≡ true)
    ↔ ((c : Card) × IsCard c × (member two_aces c.idx ≡ true) × (get_num c ≡ 1))
has_num_of_strength_max_example = has_num_of_strength_max two_aces (omega arith)
