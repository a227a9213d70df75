-- ===== src/SagePlayer.antt =====
-- Neof5Client/jni/neof5/SagePlayer.hpp and SagePlayer.cpp: the player that searches. Here is the
-- enumeration of the plays that a hand has.
pub mod Enumerate
pub mod Blind
pub mod Potential
pub mod Strengths
pub mod Estimates
pub mod Search
pub mod Level
pub mod Entry
pub mod Unseen
pub mod Saved
pub mod Sound
pub mod SortHand
pub mod Sorting
pub mod Born
pub mod Children
pub mod Roots
pub mod Levels
pub mod Node
pub mod Ends
pub mod Heir
pub mod Played
pub mod Answer
pub mod Class
pub mod Tests
use neof5client.Base.{
  if◌then◌else◌, ℕ, zero, suc, Bool, true, false, not, ◌&&◌, List, [], ◌∷◌, Outcome, ok,
  out_of_fuel, ◌>>=◌, leb,
}
use mathlib.Core.List.{reverse}
use neof5client.Card.{Card}
use neof5client.CardSet.{CardSet, empty_set, size, add_card, remove_card, conv2_vector, lt_set}
use neof5client.DaifugoRule.{Rule, set_kakumei, can_put, is_ok}

-- `std::set<CardSet>`: the sets in ascending order, where two of which none is less are one.
unfoldable pub set_has : List CardSet → CardSet → Bool
set_has [] s = false
set_has (t ∷ ts) s = if not (lt_set t s) && not (lt_set s t) then true else set_has ts s

unfoldable pub set_insert : List CardSet → CardSet → List CardSet
set_insert [] s = s ∷ []
set_insert (t ∷ ts) s =
    if lt_set s t then s ∷ t ∷ ts else if lt_set t s then t ∷ set_insert ts s else t ∷ ts

-- The loop of `_genAllCombination` over the cards that are left; `below` is the recursive call.
unfoldable pub combination_loop :
    (List CardSet → CardSet → CardSet → Outcome (List CardSet))
    → Rule
    → List CardSet
    → CardSet
    → CardSet
    → CardSet
    → List Card
    → Outcome (List CardSet)
combination_loop below rule buff base_hand deck ba_last [] = ok buff
combination_loop below rule buff base_hand deck ba_last (c ∷ cs) =
    let hand = add_card base_hand c in
    let deck2 = remove_card deck c in
    elim (set_has buff hand) [
      | true ↦ combination_loop below rule buff base_hand deck ba_last cs
      | false ↦ do
        chk ← can_put rule hand ba_last
        elim (is_ok chk) [
          | true ↦ do
            buff' ← below (set_insert buff hand) hand deck2
            combination_loop below rule buff' base_hand deck ba_last cs
          | false ↦ elim (leb 2 (size base_hand)) [
            | true ↦ combination_loop below rule buff base_hand deck ba_last cs
            | false ↦ do
              buff' ← below buff hand deck2
              combination_loop below rule buff' base_hand deck ba_last cs
          ]
        ]
    ]

-- `_genAllCombination`: each call below has one card less in the deck.
unfoldable pub gen_all_combination :
    ℕ → Rule → List CardSet → CardSet → CardSet → CardSet → Outcome (List CardSet)
unfolding combination_loop
gen_all_combination zero rule buff base_hand deck ba_last = out_of_fuel
gen_all_combination (suc fuel) rule buff base_hand deck ba_last = do
  tmp ← conv2_vector deck
  combination_loop (λ buff' hand deck2. gen_all_combination fuel rule buff' hand deck2 ba_last) rule
      buff base_hand deck ba_last (reverse tmp)

-- `_enumrateAvairableHands`: the plays, and the rule object. A deck has 53 cards at most.
unfoldable pub enumerate_available_hands :
    Rule → List CardSet → CardSet → CardSet → Bool → Outcome (List CardSet × Rule)
unfolding gen_all_combination
enumerate_available_hands rule buff tefda ba_last is_kakumei = do
  let rule' = set_kakumei rule is_kakumei
  hands ← gen_all_combination 54 rule' buff empty_set tefda ba_last
  ok (hands, rule')
