-- ===== src/DaifugoContext/Text.antt =====
-- Reading a context: from texts as `CardSet::toString` writes them, and from any texts.
use neof5client.Base.{ℕ, ◌≡◌, ◌∙◌, refl, subst, Bool, List, [], ◌∷◌, ok, arith, sequence-Returned}
use neof5client.Base.Int.{ℤ}
use neof5client.CardSet.{CardSet, from_text, empty_set}
use neof5client.CardSet.Members.{IsValid}
use neof5client.CardSet.Reading.{from_text-IsValid}
use neof5client.DaifugoContext.{DaifugoContext, make_context, read_ba, last_of, ba_last}
use neof5client.PlayerInfo.{PlayerInfo}

abbrev pub AllValid : List CardSet → Type 0
AllValid [] = ◌≡◌ {A = ℕ} 0 0
AllValid (s ∷ ss) = IsValid s × AllValid ss

-- Every set of the context is one of the 53 cards.
pub record IsContext (ctx : DaifugoContext) : Type 0 where
  pub deck_valid : IsValid ctx.deck
  pub ba_valid : AllValid ctx.ba
  pub yama_valid : IsValid ctx.yama

-- The sets are those that the texts name, one for each, in the order of the texts.
abbrev pub ReadsAll : List (List ℕ) → List CardSet → Type 0
ReadsAll [] [] = Unit {0}
ReadsAll [] (s ∷ ss) = ⊥
ReadsAll (text ∷ texts) [] = ⊥
ReadsAll (text ∷ texts) (s ∷ ss) = (from_text text ≡ ok s) × ReadsAll texts ss

read_ba-nil : (ss : List CardSet) → read_ba [] ≡ ok ss → AllValid ss × ReadsAll [] ss
unfolding read_ba
read_ba-nil [] h = (refl, tt)
read_ba-nil (s ∷ ss) h = cc

read_ba-AllValid :
    (texts : List (List ℕ)) (ss : List CardSet)
    → read_ba texts ≡ ok ss
    → AllValid ss × ReadsAll texts ss
unfolding read_ba
read_ba-AllValid [] ss h = read_ba-nil ss h
read_ba-AllValid (text ∷ texts) ss h =
    let first = sequence-Returned (from_text text) _ ss h in
    let others = sequence-Returned (read_ba texts) _ ss first.rest in
    let whole : first.value ∷ others.value ≡ ss = ground arith in
    let (valid, reads) = read_ba-AllValid texts others.value others.head in
    subst (λ (l : List CardSet). AllValid l × ReadsAll (text ∷ texts) l) whole
      ((from_text-IsValid text first.value first.head, valid), (first.head, reads))

-- Whatever texts the server sends, a context that the constructor returns has sets of the 53 cards
-- only: the deck, the discard pile and the sets on the table are those that the texts for them name,
-- the sets on the table one for each text and in order, and the turn, the revolution and the players
-- are as they were sent.
pub make_context-IsContext :
    (deck : List ℕ) (teban : ℤ) (ba : List (List ℕ)) (yama : List ℕ) (kakumei : Bool)
    (players : List PlayerInfo) (ctx : DaifugoContext)
    → make_context deck teban ba yama kakumei players ≡ ok ctx
    → IsContext ctx
      × (from_text deck ≡ ok ctx.deck)
      × (from_text yama ≡ ok ctx.yama)
      × ReadsAll ba ctx.ba
      × (ctx.teban ≡ teban)
      × (ctx.is_kakumei ≡ kakumei)
      × (ctx.player_info ≡ players)
unfolding make_context
make_context-IsContext deck teban ba yama kakumei players ctx h =
    let d = sequence-Returned (from_text deck) _ ctx h in
    let y = sequence-Returned (from_text yama) _ ctx d.rest in
    let b = sequence-Returned (read_ba ba) _ ctx y.rest in
    let (valid, reads) = read_ba-AllValid ba b.value b.head in
    (
      record {
        deck_valid = subst IsValid (ground arith) (from_text-IsValid deck d.value d.head);
        ba_valid = subst AllValid (ground arith) valid;
        yama_valid = subst IsValid (ground arith) (from_text-IsValid yama y.value y.head);
      },
      d.head ∙ ground arith,
      y.head ∙ ground arith,
      subst (ReadsAll ba) (ground arith) reads,
      ground arith,
      ground arith,
      ground arith,
    )

pub last_of-IsValid :
    (s : CardSet) (ss : List CardSet) → IsValid s → AllValid ss → IsValid (last_of s ss)
last_of-IsValid s [] v vs = v
last_of-IsValid s (t ∷ ts) v (w, ws) = last_of-IsValid t ts w ws

-- The last set on the table is one of the 53 cards too.
pub ba_last-IsValid : (ctx : DaifugoContext) → IsContext ctx → IsValid (ba_last ctx)
ba_last-IsValid ctx c = last_of-IsValid empty_set ctx.ba (omega arith) c.ba_valid
