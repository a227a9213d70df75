-- ===== src/Card/Text.antt =====
-- The two letters of a card: `toString`, and `_calcCardIdFromString` on them.
use neof5client.Base.{
  ℕ, ◌≡◌, refl, Bool, true, false, ◌&&◌, ◌||◌, not, ◌==◌, arith, Outcome, ok, thrown, undefined,
  out_of_fuel, holds_below, row_of, [], ◌∷◌,
}
use neof5client.Base.Int.{ℤ, pos, negsuc}
use neof5client.Card.{
  Card, to_string, suit_to_string, num_char, get_suit, get_num, calc_card_id_from_string,
  from_string,
}
use neof5client.Card.Table.{IsCard, row_card}

pub suit_byte : Card → ℕ
unfolding get_suit suit_to_string
suit_byte c = elim (suit_to_string (get_suit c)) [ [] ↦ 0 | b ∷ _ ↦ b ]

pub num_byte : Card → ℕ
unfolding num_char get_num
num_byte c = num_char (get_num c)

-- `toString` gives the letter of the suit and the letter of the number.
pub two_bytes : (c : Card) → to_string c ≡ suit_byte c ∷ num_byte c ∷ []
unfolding to_string suit_byte num_byte
two_bytes c = ground arith

abbrev is_id : Outcome ℤ → ℕ → Bool
is_id (ok (pos n)) i = n == i
is_id (ok (negsuc n)) i = false
is_id (thrown e) i = false
is_id undefined i = false
is_id out_of_fuel i = false

is_id_lem : (r : Outcome ℤ) (i : ℕ) → is_id r i ≡ true → r ≡ ok (pos i)
is_id_lem (ok (pos n)) i h = ground arith
is_id_lem (ok (negsuc n)) i h = cc
is_id_lem (thrown e) i h = cc
is_id_lem undefined i h = cc
is_id_lem out_of_fuel i h = cc

letters_table :
    holds_below
      (λ i.
        is_id (calc_card_id_from_string (suit_byte (row_card i)) (num_byte (row_card i))) i
        && not (suit_byte (row_card i) == 0 || suit_byte (row_card i) == b' '))
      53
    ≡ true
unfolding holds_below calc_card_id_from_string suit_byte num_byte
letters_table = refl

-- The letters of a card give its index back, and the first of them neither ends a text nor is a
-- space.
pub letters :
    (c : Card)
    → IsCard c
    → (calc_card_id_from_string (suit_byte c) (num_byte c) ≡ ok (pos c.idx))
      × ((suit_byte c == 0) ≡ false)
      × ((suit_byte c == b' ') ≡ false)
letters c h =
    let both = row_of _ 53 c.idx letters_table h in
    (is_id_lem _ c.idx (ground arith), ground arith, ground arith)

-- Every card of the table is read back by `fromString` from the text of `toString`.
pub from_string-to_string :
    (c : Card)
    → IsCard c
    → (c0 : ℕ) × (c1 : ℕ) × (to_string c ≡ c0 ∷ c1 ∷ []) × (from_string c0 c1 ≡ ok c)
unfolding from_string
from_string-to_string c h = (suit_byte c, num_byte c, two_bytes c, ground (arith, letters c h))
