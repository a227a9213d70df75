-- ===== src/SagePlayer/Unseen.antt =====
-- What `_notappears_cards` is, from the contract of `CardSet`.
use neof5client.Base.{ℕ, ◌≡◌, Bool, not, ◌&&◌, ◌||◌, ltb, List, [], ◌∷◌}
use neof5client.CardSet.{CardSet}
use neof5client.CardSet.Members.{IsValid, member}
use neof5client.CardSet.Class.{card_set_class, card_set_class-IsSets}
use neof5client.CardSet.Unseen.{AllValid, in_some, unseen_lem}
use neof5client.DaifugoContext.{DaifugoContext}
use neof5client.DaifugoContext.Text.{IsContext}
use neof5client.DaifugoContext.Text
use neof5client.SagePlayer.Entry.{not_appears_cards}

-- The card with the id `i` is in one of the sets on the table.
abbrev pub on_table : List CardSet → ℕ → Bool
on_table ba i = in_some card_set_class IsValid member card_set_class-IsSets ba i

all_valid :
    (ba : List CardSet)
    → Text.AllValid ba
    → AllValid card_set_class IsValid member card_set_class-IsSets ba
all_valid [] all = tt
all_valid (s ∷ ss) (v, all) = (v, all_valid ss all)

-- For a turn whose sets are of the 53 cards, `_notappears_cards` has exactly the cards that are
-- neither discarded, nor in the player's hand, nor in a set on the table.
pub not_appears_cards_lem :
    (ctx : DaifugoContext) (i : ℕ)
    → IsContext ctx
    → member (not_appears_cards ctx) i
      ≡ (ltb i 53 && not (member ctx.yama i || (member ctx.deck i || on_table ctx.ba i)))
unfolding not_appears_cards
not_appears_cards_lem ctx i valid =
    unseen_lem card_set_class IsValid member card_set_class-IsSets ctx.yama (ctx.deck ∷ ctx.ba) i
      valid.yama_valid (valid.deck_valid, all_valid ctx.ba valid.ba_valid)
