-- ===== src/PoorPlayer/SortedHand.antt =====
-- The hand as `PoorPlayer::think` orders it.
use neof5client.Base.{
  ℕ, ◌≡◌, refl, sym, ap, ◌∙◌, Bool, true, false, ◌||◌, List, [], ◌∷◌, ◌++◌, if◌then◌else◌, arith,
  length, length-append,
}
use mathlib.Core.List.{reverse, reverse-cons}
use neof5client.Card.{Card}
use neof5client.CardSet.{CardSet, empty_set, size, has_set}
use neof5client.CardSet.Members.{IsValid, member, member-empty, has_set_iff}
use neof5client.CardSet.Elements.{elements, size-length}
use neof5client.CardSet.Vector.{
  AllCards, in_cards, elements-AllCards, elements-Ascending, in_cards-elements,
}
use neof5client.DaifugoRule.Sorting.{sort-Ascending}
use neof5client.DaifugoContext.{DaifugoContext}
use neof5client.PoorPlayer.{order_hand}

-- The sorted hand is the list of the deck's cards, turned round during a revolution.
reverse-AllCards : (cs : List Card) → AllCards cs → AllCards (reverse cs)
reverse-AllCards [] h = refl
reverse-AllCards (c ∷ cs) (hc, h) =
    rw reverse-cons (append_one (reverse cs) (reverse-AllCards cs h))
  where
    append_one : (ds : List Card) → AllCards ds → AllCards (ds ++ c ∷ [])
    append_one [] k = (hc, refl)
    append_one (d ∷ ds) (hd, k) = (hd, append_one ds k)

in_cards-append :
    (cs ds : List Card) (j : ℕ) → in_cards (cs ++ ds) j ≡ (in_cards cs j || in_cards ds j)
unfolding in_cards
in_cards-append [] ds j = refl
in_cards-append (c ∷ cs) ds j = ground (arith, in_cards-append cs ds j)

in_cards-reverse : (cs : List Card) (j : ℕ) → in_cards (reverse cs) j ≡ in_cards cs j
in_cards-reverse [] j = refl
in_cards-reverse (c ∷ cs) j =
    rw (reverse-cons, in_cards-append (reverse cs) (c ∷ []) j, in_cards-reverse cs j)
      (unfold in_cards in ground arith)

length-reverse : (cs : List Card) → length (reverse cs) ≡ length cs
length-reverse [] = refl
length-reverse (c ∷ cs) =
    ap length (reverse-cons c cs)
    ∙ omega (arith, length-append (reverse cs) (c ∷ []), length-reverse cs)

-- The cards of the deck, weakest first, and strongest first during a revolution.
abbrev pub sorted_hand : DaifugoContext → List Card
sorted_hand ctx = if ctx.is_kakumei then reverse (elements ctx.deck) else elements ctx.deck

pub order_hand-elements :
    (ctx : DaifugoContext) → order_hand ctx.is_kakumei (elements ctx.deck) ≡ sorted_hand ctx
order_hand-elements ctx =
    rw (sort-Ascending 0 (elements ctx.deck) (elements-Ascending ctx.deck)) refl

-- The hand in the order of play holds the deck's cards, and no others.
pub sorted_hand_facts :
    (ctx : DaifugoContext)
    → IsValid ctx.deck
    → AllCards (sorted_hand ctx)
      × (length (sorted_hand ctx) ≡ size ctx.deck)
      × ((j : ℕ) → in_cards (sorted_hand ctx) j ≡ member ctx.deck j)
sorted_hand_facts ctx v = by_order ctx.is_kakumei
  where
    by_order :
        (k : Bool)
        → let cs = if k then reverse (elements ctx.deck) else elements ctx.deck in
          AllCards cs × (length cs ≡ size ctx.deck) × ((j : ℕ) → in_cards cs j ≡ member ctx.deck j)
    by_order true = (
      reverse-AllCards (elements ctx.deck) (elements-AllCards ctx.deck),
      length-reverse (elements ctx.deck) ∙ sym (size-length ctx.deck),
      λ j. in_cards-reverse (elements ctx.deck) j ∙ in_cards-elements ctx.deck j v,
    )
    by_order false = (
      elements-AllCards ctx.deck,
      sym (size-length ctx.deck),
      λ j. in_cards-elements ctx.deck j v,
    )

pub has_set-empty : (deck : CardSet) → has_set deck empty_set ≡ true
has_set-empty deck =
    (has_set_iff deck empty_set).1 λ j there. absurd (ground (arith, member-empty j))
