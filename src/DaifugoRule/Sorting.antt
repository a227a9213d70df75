-- ===== src/DaifugoRule/Sorting.antt =====
-- Sorting cards that are in order.
use neof5client.Base.{ℕ, ◌+◌, ◌≡◌, refl, arith, List, [], ◌∷◌}
use neof5client.Card.{Card}
use neof5client.Card.Rank.{lt_card_iff}
use neof5client.CardSet.Vector.{Ascending}
use neof5client.DaifugoRule.{sort_cards, insert_card}

-- Sorting an ascending list changes nothing.
insert_first : (c : Card) (cs : List Card) → Ascending (c.idx + 1) cs → insert_card c cs ≡ c ∷ cs
unfolding insert_card
insert_first c [] a = refl
insert_first c (d ∷ ds) a = ground (arith, lt_card_iff d c)

pub sort-Ascending : (lo : ℕ) (cs : List Card) → Ascending lo cs → sort_cards cs ≡ cs
unfolding sort_cards
sort-Ascending lo [] a = refl
sort-Ascending lo (c ∷ cs) (le, a) = rw (sort-Ascending (c.idx + 1) cs a) (insert_first c cs a)
