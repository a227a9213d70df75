-- ===== src/CardSet/Contract.antt =====
-- What class `CardSet` promises: finite sets of the 53 cards, with the operations of sets.
use neof5client.Base.{◌≡◌, not, ◌&&◌, ◌||◌, arith}
use neof5client.Card.{Card, eq_card}
use neof5client.Card.Table.{IsCard}
use neof5client.CardSet.{
  CardSet, empty_set, remove_set, add_set, remove_card, add_card, has, all_cards,
}
use neof5client.CardSet.Members.{
  IsValid, member_above, IsValid-of_members, member-add_set, member-remove_set, member-add_card,
  member-remove_card, has-member,
}
use neof5client.CardSet.Numbers.{joker}

pub empty-IsValid : IsValid empty_set
empty-IsValid = omega arith

pub all_cards-IsValid : IsValid all_cards
unfolding all_cards
all_cards-IsValid = omega arith

pub add_set-IsValid : (s t : CardSet) → IsValid s → IsValid t → IsValid (add_set s t)
add_set-IsValid s t v w =
    IsValid-of_members _
      λ i h. ground (arith, member-add_set s t i, member_above s i v, member_above t i w)

pub remove_set-IsValid : (s t : CardSet) → IsValid s → IsValid t → IsValid (remove_set s t)
remove_set-IsValid s t v w =
    IsValid-of_members _ λ i h. ground (arith, member-remove_set s t i w, member_above s i v)

pub add_card-IsValid : (s : CardSet) (c : Card) → IsValid s → IsCard c → IsValid (add_card s c)
add_card-IsValid s c v lt =
    IsValid-of_members _ λ i h. ground (arith, member-add_card s c i lt, member_above s i v)

pub remove_card-IsValid :
    (s : CardSet) (c : Card) → IsValid s → IsCard c → IsValid (remove_card s c)
remove_card-IsValid s c v lt =
    IsValid-of_members _ λ i h. ground (arith, member-remove_card s c i v lt, member_above s i v)

-- For sets s and t and cards c and d of the table: the four changing operations keep to the 53
-- cards; after adding c a card is there if it is c or was there, after removing c if it was there
-- and is not c; and adding or removing t is union or difference.
pub set_operations :
    (s t : CardSet) (c d : Card)
    → IsValid s
    → IsValid t
    → IsCard c
    → IsCard d
    → (IsValid (add_card s c) × (has (add_card s c) d ≡ (has s d || eq_card c d)))
      × (IsValid (remove_card s c) × (has (remove_card s c) d ≡ (has s d && not (eq_card c d))))
      × (IsValid (add_set s t) × (has (add_set s t) d ≡ (has s d || has t d)))
      × (IsValid (remove_set s t) × (has (remove_set s t) d ≡ (has s d && not (has t d))))
unfolding eq_card
set_operations s t c d v w hc hd = (
  (
    add_card-IsValid s c v hc,
    ground (arith, has-member (add_card s c) d hd, has-member s d hd, member-add_card s c d.idx hc),
  ),
  (
    remove_card-IsValid s c v hc,
    ground (
      arith,
      has-member (remove_card s c) d hd,
      has-member s d hd,
      member-remove_card s c d.idx v hc,
    ),
  ),
  (
    add_set-IsValid s t v w,
    ground (
      arith,
      has-member (add_set s t) d hd,
      has-member s d hd,
      has-member t d hd,
      member-add_set s t d.idx,
    ),
  ),
  (
    remove_set-IsValid s t v w,
    ground (
      arith,
      has-member (remove_set s t) d hd,
      has-member s d hd,
      has-member t d hd,
      member-remove_set s t d.idx w,
    ),
  ),
)

-- Taking out a joker keeps to the 53 cards, and leaves none behind.
pub extract_joker-IsValid : (s : CardSet) → IsValid s → IsValid (remove_card s joker)
extract_joker-IsValid s v = remove_card-IsValid s joker v (omega arith)
