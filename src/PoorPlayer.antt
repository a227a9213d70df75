-- ===== src/PoorPlayer.antt =====
-- Neof5Client/jni/neof5/PoorPlayer.hpp and PoorPlayer.cpp: the player that plays the first window
-- of its sorted hand that the rule admits.
pub mod Window
pub mod SortedHand
pub mod Think
pub mod Answer
pub mod Tests
use neof5client.Base.{
  ℕ, zero, suc, ◌+◌, ◌-◌, ◌%◌, ◌^◌, Bool, true, false, List, [], ◌∷◌, Outcome, ok, undefined, ◌>>=◌,
  if◌then◌else◌, Option, none, some, length,
}
use mathlib.Core.List.{reverse}
use neof5client.Card.{Card}
use neof5client.CardSet.{CardSet, empty_set, size, add_card, conv2_vector}
use neof5client.DaifugoRule.{Rule, set_kakumei, can_put, is_ok, sort_cards}
use neof5client.DaifugoContext.{DaifugoContext, ba_last}

-- `tefuda[j]`: a read past the end of the vector is undefined.
abbrev pub element : List Card → ℕ → Outcome Card
element [] j = undefined
element (c ∷ cs) zero = ok c
element (c ∷ cs) (suc j) = element cs j

-- The inner loop from `j` on, with the rounds left.
unfoldable pub collect : List Card → ℕ → ℕ → CardSet → Outcome CardSet
collect tefuda zero j cards = ok cards
collect tefuda (suc left) j cards = do
  c ← element tefuda j
  collect tefuda left (j + 1) (add_card cards c)

-- The outer loop from `i` on, with the rounds left: the play, and the rule object after it.
unfoldable pub think_loop : DaifugoContext → List Card → ℕ → ℕ → ℕ → Rule → Outcome (CardSet × Rule)
unfolding collect
think_loop ctx tefuda n zero i rule = ok (empty_set, rule)
think_loop ctx tefuda n (suc left) i rule = do
  cards ← collect tefuda n i empty_set
  let rule' = set_kakumei rule ctx.is_kakumei
  chk_result ← can_put rule' cards (ba_last ctx)
  elim (is_ok chk_result) [
    | true ↦ ok (cards, rule')
    | false ↦ think_loop ctx tefuda n left (i + 1) rule'
  ]

-- `tefuda.size() - (n - 1)` in a `size_t` of 32 bits, as on the armeabi target: it wraps for a
-- hand with fewer than `n - 1` cards. The rounds of the loop are all values of `i` below it.
abbrev pub rounds : ℕ → ℕ → ℕ
rounds hand n = (hand + 2 ^ 32 + 1 - n) % 2 ^ 32

-- `n`: 1 if no card was played, and the size of the last set on the table otherwise.
abbrev pub play_size : DaifugoContext → ℕ
play_size ctx = elim ctx.ba [ [] ↦ 1 | s ∷ ss ↦ size (ba_last ctx) ]

-- `std::sort`, and `std::reverse` during a revolution.
abbrev pub order_hand : Bool → List Card → List Card
order_hand is_kakumei cards = if is_kakumei then reverse (sort_cards cards) else sort_cards cards

unfoldable pub think : Rule → DaifugoContext → Outcome (CardSet × Rule)
unfolding think_loop
think rule ctx = do
  vector ← conv2_vector ctx.deck
  let tefuda = order_hand ctx.is_kakumei vector
  let n = play_size ctx
  think_loop ctx tefuda n (rounds (length tefuda) n) 0 rule
