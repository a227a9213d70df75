-- ===== src/Card.antt =====
-- Neof5Client/jni/neof5/Cards.hpp and Cards.cpp, class `Card`: the table of the 53 cards, a card
-- as an index into it, its suit, number and strength, and the order of cards.
-- A byte of text is its code, from 0 to 255: `char` is unsigned on the armeabi target.
pub mod Table
pub mod Rank
pub mod Text
pub mod Class
pub mod Tests
use neof5client.Base.{
  ℕ, ◌+◌, ◌-◌, ◌*◌, ◌/◌, ◌%◌, bit_and, bit_or, Bool, true, false, not, List, [], ◌∷◌, get_or, ltb,
  leb, ◌==◌, if◌then◌else◌, Outcome, ok, thrown, ◌>>=◌, card_error, card_id_error, length, ◌++◌,
}
use neof5client.Base.Int.{ℤ, pos, negsuc, sub_ℕ, ◌+ℤ◌, ◌-ℤ◌, ◌*ℤ◌, ltb_ℤ, leb_ℤ, is_zero}

abbrev pub card_strength_max : ℕ
card_strength_max = 14

pub data Suit : Type 0 where
  spd hrt dia clv jkr : Suit

-- The values of the enumeration.
abbrev pub suit_value : Suit → ℕ
suit_value spd = 0x50
suit_value hrt = 0x40
suit_value dia = 0x30
suit_value clv = 0x20
suit_value jkr = 0x10

-- The cast `(Suit)v`. Other values than the five do not occur in the table.
abbrev pub suit_of : ℕ → Suit
suit_of v =
    if v == 0x50
    then spd
    else if v == 0x40
    then hrt
    else if v == 0x30
    then dia
    else if v == 0x20
    then clv
    else jkr

abbrev pub is_jkr : Suit → Bool
is_jkr jkr = true
is_jkr _ = false

abbrev card_of : Suit → ℕ → ℕ
card_of s n = bit_or (suit_value s) n

-- `CLV | n, DIA | n, HRT | n, SPD | n`.
abbrev four_of : ℕ → List ℕ
four_of n = card_of clv n ∷ card_of dia n ∷ card_of hrt n ∷ card_of spd n ∷ []

abbrev rows : List ℕ → List ℕ
rows [] = []
rows (n ∷ ns) = four_of n ++ rows ns

-- `_cards`: from the weakest to the strongest, 3 to 13, then A, then 2, then the joker.
unfoldable pub cards : List ℕ
cards = rows (3 ∷ 4 ∷ 5 ∷ 6 ∷ 7 ∷ 8 ∷ 9 ∷ 10 ∷ 11 ∷ 12 ∷ 13 ∷ 1 ∷ 2 ∷ []) ++ suit_value jkr ∷ []

-- `ARRAY_SIZEOF(_cards)`, which `getAllCount` returns.
abbrev pub card_count : ℕ
card_count = 53

pub record Card : Type 0 where
  pub idx : ℕ

-- The private constructor. The range is checked after the cast of the caller to `uint8_t`.
unfoldable pub make_card : ℕ → Outcome Card
make_card id = if leb card_count id then thrown card_id_error else ok (record { idx = id })

unfoldable pub get_value : Card → ℕ
unfolding cards
get_value c = get_or cards c.idx 0

abbrev pub get_id : Card → ℕ
get_id c = c.idx

unfoldable pub get_suit : Card → Suit
unfolding get_value
get_suit c = suit_of (bit_and (get_value c) 0xf0)

unfoldable pub get_num : Card → ℕ
unfolding get_value
get_num c = bit_and (get_value c) 0x0f

unfoldable pub is_joker : Card → Bool
unfolding get_value
is_joker c = bit_and (get_value c) 0xf0 == 0x10

unfoldable pub get_strength : Card → ℕ
unfolding is_joker get_num
get_strength c = if is_joker c then card_strength_max else 1 + (get_num c + 10) % 13

-- `compare(a, b)`, and the six operators that call it.
unfoldable pub compare_to : Card → Card → ℤ
unfolding ◌-ℤ◌
compare_to a b = pos a.idx -ℤ pos b.idx

unfoldable pub lt_card : Card → Card → Bool
unfolding compare_to
lt_card a b = ltb_ℤ (compare_to a b) (pos 0)

unfoldable pub gt_card : Card → Card → Bool
unfolding compare_to
gt_card a b = ltb_ℤ (pos 0) (compare_to a b)

unfoldable pub le_card : Card → Card → Bool
unfolding compare_to
le_card a b = leb_ℤ (compare_to a b) (pos 0)

unfoldable pub ge_card : Card → Card → Bool
unfolding compare_to
ge_card a b = leb_ℤ (pos 0) (compare_to a b)

unfoldable pub eq_card : Card → Card → Bool
unfolding compare_to
eq_card a b = is_zero (compare_to a b)

unfoldable pub ne_card : Card → Card → Bool
unfolding compare_to
ne_card a b = not (is_zero (compare_to a b))

-- The copy constructor.
abbrev pub copy_of : Card → Card
copy_of other = record { idx = other.idx }

-- `n*4 + (s-0x20)/0x10`, for a suit from `CLV` up.
unfoldable pub suited_id : ℤ → Suit → ℤ
unfolding ◌+ℤ◌ ◌*ℤ◌
suited_id n s = n *ℤ pos 4 +ℤ pos ((suit_value s - 0x20) / 0x10)

-- `_calcCardIdFromString` on the two bytes that it reads.
unfoldable pub suit_of_char : ℕ → Suit
suit_of_char c =
    if c == b'C'
    then clv
    else if c == b'D'
    then dia
    else if c == b'H'
    then hrt
    else if c == b'S'
    then spd
    else jkr

unfoldable pub rank_of_char : ℕ → ℤ
unfolding ◌-ℤ◌
rank_of_char c =
    if c == b'2'
    then pos 12
    else if c == b'A'
    then pos 11
    else if c == b'K'
    then pos 10
    else if c == b'Q'
    then pos 9
    else if c == b'J'
    then pos 8
    else if c == b'0'
    then pos 7
    else pos c -ℤ pos b'3'

-- The check at the end of `_calcCardIdFromString` and of `Card::get`: no test for a negative id.
abbrev pub checked_id : ℤ → Outcome ℤ
checked_id id = if leb_ℤ (pos card_count) id then thrown card_error else ok id

unfoldable pub calc_card_id_from_string : ℕ → ℕ → Outcome ℤ
unfolding suit_of_char rank_of_char suited_id
calc_card_id_from_string c0 c1 =
    let s = suit_of_char c0 in
    let n = rank_of_char c1 in checked_id (if is_jkr s then pos (card_count - 1) else suited_id n s)

-- The conversion of an `int` to `uint8_t`.
abbrev to_uint8 : ℤ → ℕ
to_uint8 (pos n) = n % 256
to_uint8 (negsuc n) = 255 - n % 256

unfoldable pub from_string : ℕ → ℕ → Outcome Card
unfolding calc_card_id_from_string make_card
from_string c0 c1 = do id ← calc_card_id_from_string c0 c1; make_card (to_uint8 id)

-- `Card::get(s, n)`: `n` counts ranks from the 3 upwards.
unfoldable pub get : Suit → ℤ → Outcome Card
unfolding suited_id make_card
get s n = do
  id ← checked_id (if is_jkr s then pos (card_count - 1) else suited_id n s)
  make_card (to_uint8 id)

unfoldable pub suit_to_string : Suit → List ℕ
suit_to_string spd = b'S' ∷ []
suit_to_string hrt = b'H' ∷ []
suit_to_string dia = b'D' ∷ []
suit_to_string clv = b'C' ∷ []
suit_to_string jkr = b'J' ∷ []

-- The byte that `toString` appends for a number.
unfoldable pub num_char : ℕ → ℕ
num_char n =
    if n == 0
    then b'K'
    else if n == 1
    then b'A'
    else if n == 10
    then b'0'
    else if n == 11
    then b'J'
    else if n == 12
    then b'Q'
    else if n == 13
    then b'K'
    else b'0' + n

unfoldable pub to_string : Card → List ℕ
unfolding suit_to_string num_char get_suit get_num
to_string c = suit_to_string (get_suit c) ++ num_char (get_num c) ∷ []
