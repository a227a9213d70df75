-- ===== src/Card/Table.antt =====
-- Facts about the table `_cards`, read off it row by row.
use neof5client.Base.{
  ℕ, ◌+◌, ◌-◌, ◌/◌, ◌%◌, ◌<◌, ◌≡◌, refl, bit_and, true, not, ◌&&◌, ◌||◌, ◌==◌, ltb, if◌then◌else◌,
  arith, holds_below, row_of, ==_iff,
}
use neof5client.Card.{
  Card, Suit, suit_value, card_count, get_value, get_suit, get_num, is_joker, get_strength, spd,
  hrt, dia, clv, jkr,
}

-- The cards that the constructor admits.
abbrev pub IsCard : Card → Type 0
IsCard c = c.idx < card_count

abbrev pub row_card : ℕ → Card
row_card i = record { idx = i }

-- The number printed on the cards of a rank: 3 to 13, A, 2; the joker's is 0.
abbrev pub num_of_rank : ℕ → ℕ
num_of_rank r = if r == 13 then 0 else if ltb r 11 then r + 3 else r - 10

joker_table :
    holds_below
      (λ i. is_joker (row_card i) && i == 52 || not (is_joker (row_card i)) && ltb i 52)
      53
    ≡ true
unfolding holds_below is_joker
joker_table = refl

num_table : holds_below (λ i. get_num (row_card i) == num_of_rank (i / 4)) 53 ≡ true
unfolding holds_below get_num
num_table = refl

strength_table : holds_below (λ i. get_strength (row_card i) == i / 4 + 1) 53 ≡ true
unfolding holds_below get_strength
strength_table = refl

-- Only the last card is a joker.
pub is_joker_lem : (c : Card) → IsCard c → is_joker c ≡ (c.idx == 52)
is_joker_lem c h = ground (arith, row_of _ 53 c.idx joker_table h)

pub get_num_lem : (c : Card) → IsCard c → get_num c ≡ num_of_rank (c.idx / 4)
get_num_lem c h = (==_iff _ _).0 (row_of _ 53 c.idx num_table h)

pub get_strength_lem : (c : Card) → IsCard c → get_strength c ≡ c.idx / 4 + 1
get_strength_lem c h = (==_iff _ _).0 (row_of _ 53 c.idx strength_table h)

-- The suits come round in the order of the enumeration.
pub suit_number : Suit → ℕ
suit_number clv = 0
suit_number dia = 1
suit_number hrt = 2
suit_number spd = 3
suit_number jkr = 4

suit_table : holds_below (λ i. suit_number (get_suit (row_card i)) == i % 4) 52 ≡ true
unfolding holds_below get_suit suit_number
suit_table = refl

pub get_suit_lem : (c : Card) → c.idx < 52 → suit_number (get_suit c) ≡ c.idx % 4
get_suit_lem c h = (==_iff _ _).0 (row_of _ 52 c.idx suit_table h)

-- The cast to `Suit` loses nothing: the high bits of each entry are a value of the enumeration.
suit_value_table :
    holds_below
      (λ i. suit_value (get_suit (row_card i)) == bit_and (get_value (row_card i)) 0xf0)
      53
    ≡ true
unfolding holds_below get_suit
suit_value_table = refl

pub suit_value-get_suit :
    (c : Card) → IsCard c → suit_value (get_suit c) ≡ bit_and (get_value c) 0xf0
suit_value-get_suit c h = (==_iff _ _).0 (row_of _ 53 c.idx suit_value_table h)
