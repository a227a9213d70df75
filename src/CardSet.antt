-- ===== src/CardSet.antt =====
-- Neof5Client/jni/neof5/Cards.hpp and Cards.cpp, class `CardSet`: a set of cards as the bits of a
-- uint64_t, bit `i` for the card with index `i`.
pub mod Members
pub mod Numbers
pub mod Contract
pub mod Joker
pub mod Elements
pub mod Vector
pub mod Text
pub mod Reading
pub mod Count
pub mod Fewer
pub mod Class
pub mod Unseen
pub mod Tests
use neof5client.Base.{
  ℕ, zero, suc, ◌+◌, ◌-◌, ◌*◌, ◌/◌, ◌%◌, ◌^◌, bit_and, bit_or, Bool, true, false, not, ◌&&◌, ◌||◌,
  List, [], ◌∷◌, ◌++◌, ltb, leb, ◌==◌, if◌then◌else◌, Outcome, ok, thrown, undefined, out_of_fuel,
  ◌>>=◌, index_out_of_range, length, map,
}
use neof5client.Base.Bits.{shl64, not64}
use neof5client.Base.Int.{ℤ, pos, negsuc}
use neof5client.Card.{Card, jkr, card_count, get_id, make_card, calc_card_id_from_string}
use neof5client.Card

pub record CardSet : Type 0 where
  pub bits : ℕ

abbrev pub empty_set : CardSet
empty_set = record { bits = 0 }

-- `uint64_t mask = 1l; mask <<= id`.
unfoldable pub mask_of : ℕ → ℕ
unfolding shl64
mask_of id = shl64 1 id

-- `CardSet(const std::vector<Card>&)`.
unfoldable pub from_vector_loop : ℕ → List Card → ℕ
unfolding mask_of
from_vector_loop bits [] = bits
from_vector_loop bits (c ∷ cs) = from_vector_loop (bit_or bits (mask_of (get_id c))) cs

unfoldable pub from_vector : List Card → CardSet
unfolding from_vector_loop
from_vector cs = record { bits = from_vector_loop 0 cs }

-- `mask <<= id` for an `int` id: a negative count is undefined.
unfoldable pub mask_of_int : ℤ → Outcome ℕ
unfolding mask_of
mask_of_int (pos id) = ok (mask_of id)
mask_of_int (negsuc n) = undefined

-- `CardSet(const char*)`: the text ends at its first 0 byte. After a card the pointer moves on by
-- two, so a lone last letter leads past the end of the text.
unfoldable pub from_text_loop : ℕ → List ℕ → Outcome CardSet
unfolding mask_of_int
from_text_loop bits [] = ok (record { bits = bits })
from_text_loop bits (c ∷ []) =
    if c == 0 || c == b' '
    then ok (record { bits = bits })
    else do id ← calc_card_id_from_string c 0; mask ← mask_of_int id; undefined
from_text_loop bits (c ∷ d ∷ cs) = elim (c == 0) [
  | true ↦ ok (record { bits = bits })
  | false ↦ elim (c == b' ') [
    | true ↦ from_text_loop bits (d ∷ cs)
    | false ↦ do
      id ← calc_card_id_from_string c d
      mask ← mask_of_int id
      from_text_loop (bit_or bits mask) cs
  ]
]

unfoldable pub from_text : List ℕ → Outcome CardSet
unfolding from_text_loop
from_text s = from_text_loop 0 s

-- `CardSet::allCards`.
unfoldable pub all_cards : CardSet
unfolding shl64
all_cards = record { bits = shl64 1 53 - 1 }

-- The loop of `size`, with the rounds left.
unfoldable pub size_loop : ℕ → ℕ → ℕ → ℕ
size_loop zero b count = count
size_loop (suc left) b count =
    size_loop left (b / 2) (if bit_and b 0x01 == 0 then count else count + 1)

unfoldable pub size : CardSet → ℕ
unfolding size_loop
size s = size_loop card_count s.bits 0

unfoldable pub is_empty : CardSet → Bool
is_empty s = s.bits == 0

unfoldable pub remove_set : CardSet → CardSet → CardSet
unfolding not64
remove_set s other = record { bits = bit_and s.bits (not64 other.bits) }

unfoldable pub add_set : CardSet → CardSet → CardSet
add_set s other = record { bits = bit_or s.bits other.bits }

unfoldable pub remove_card : CardSet → Card → CardSet
unfolding mask_of not64
remove_card s c = record { bits = bit_and s.bits (not64 (mask_of (get_id c))) }

unfoldable pub add_card : CardSet → Card → CardSet
unfolding mask_of
add_card s c = record { bits = bit_or s.bits (mask_of (get_id c)) }

unfoldable pub has : CardSet → Card → Bool
unfolding mask_of
has s c = not (bit_and s.bits (mask_of (get_id c)) == 0)

unfoldable pub has_set : CardSet → CardSet → Bool
has_set s other = bit_and s.bits other.bits == other.bits

unfoldable pub communion : CardSet → CardSet → Bool
communion s other = not (bit_and s.bits other.bits == 0)

unfoldable pub lt_set : CardSet → CardSet → Bool
lt_set s other = ltb s.bits other.bits

unfoldable pub gt_set : CardSet → CardSet → Bool
gt_set s other = ltb other.bits s.bits

unfoldable pub eq_set : CardSet → CardSet → Bool
eq_set s other = s.bits == other.bits

-- The cards of `s` that `hasNumOf(num, &output)` adds to its output: a group of four bits.
unfoldable pub num_of_bits : CardSet → ℕ → ℕ
unfolding shl64
num_of_bits s num = bit_and (bit_or 0 (shl64 0x0f (4 * ((num + 10) % 13)))) s.bits

unfoldable pub has_num_of : CardSet → ℕ → Bool
unfolding num_of_bits
has_num_of s num = not (num_of_bits s num == 0)

unfoldable pub has_num_of_into : CardSet → ℕ → CardSet → Bool × CardSet
unfolding has_num_of
has_num_of_into s num output =
    (has_num_of s num, record { bits = bit_or output.bits (num_of_bits s num) })

-- `extractJoker` returns the number of jokers taken out, and changes the set.
unfoldable pub extract_joker : CardSet → Outcome (ℕ × CardSet)
unfolding Card.get has remove_card
extract_joker s = do
  jk ← Card.get jkr (pos 0)
  ok (if not (has s jk) then (0, s) else (1, remove_card s jk))

-- `conv2Vector(v)`: the loop runs while a bit is left. A uint64_t has 64 bits, so 64 rounds and
-- the last test are enough.
unfoldable pub conv2_vector_loop : ℕ → ℕ → ℕ → List Card → Outcome (List Card)
unfolding make_card
conv2_vector_loop zero b idx v = if b == 0 then ok v else out_of_fuel
conv2_vector_loop (suc fuel) b idx v = elim (b == 0) [
  | true ↦ ok v
  | false ↦ elim (bit_and b 0x01 == 0) [
    | true ↦ conv2_vector_loop fuel (b / 2) (idx + 1) v
    | false ↦ do c ← make_card (idx % 256); conv2_vector_loop fuel (b / 2) (idx + 1) (v ++ c ∷ [])
  ]
]

unfoldable pub conv2_vector_into : CardSet → List Card → Outcome (List Card)
unfolding conv2_vector_loop
conv2_vector_into s v = conv2_vector_loop 64 s.bits 0 v

-- `conv2Vector()`: into an empty vector.
unfoldable pub conv2_vector : CardSet → Outcome (List Card)
unfolding conv2_vector_loop
conv2_vector s = conv2_vector_loop 64 s.bits 0 []

-- `at(index)`, with the rounds left. `hit++` happens only where the bit is set.
unfoldable pub at_loop : ℕ → ℕ → ℕ → ℕ → ℕ → Outcome Card
unfolding make_card
at_loop zero index b hit idx = thrown index_out_of_range
at_loop (suc left) index b hit idx = elim (bit_and b 0x01 == 0) [
  | true ↦ at_loop left index (b / 2) hit (idx + 1)
  | false ↦ elim (hit == index) [
    | true ↦ make_card (idx % 256)
    | false ↦ at_loop left index (b / 2) (hit + 1) (idx + 1)
  ]
]

unfoldable pub at : CardSet → ℕ → Outcome Card
unfolding at_loop
at s index = at_loop card_count index s.bits 0 0

-- `toString`, from the card number `i` on, with the rounds left.
unfoldable pub to_string_loop : CardSet → ℕ → ℕ → List ℕ → Outcome (List ℕ)
unfolding at Card.to_string
to_string_loop s zero i text = ok text
to_string_loop s (suc left) i text = do
  let spaced = if i == 0 then text else text ++ b' ' ∷ []
  c ← at s i
  to_string_loop s left (i + 1) (spaced ++ Card.to_string c)

unfoldable pub to_string : CardSet → Outcome (List ℕ)
unfolding to_string_loop size
to_string s = to_string_loop s (size s) 0 []
