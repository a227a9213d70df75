-- ===== src/PoorPlayer/Answer.antt =====
-- `PoorPlayer::think` as a whole: its answer, and the case in which it reads past its hand.
use neof5client.Base.{
  ℕ, zero, suc, ◌+◌, ◌-◌, ◌≤◌, ◌<◌, ◌^◌, ◌≡◌, refl, ap, subst, ◌∙◌, true, ◌==◌, List, [], ◌∷◌, ok,
  undefined, arith, length, Bool-cases, ==_iff, inl, inr,
}
use neof5client.Card.{Card}
use neof5client.CardSet.{CardSet, empty_set, size, has_set, add_card}
use neof5client.CardSet.Members.{IsValid}
use neof5client.CardSet.Elements.{conv2_vector_lem, size-le}
use neof5client.DaifugoRule.{Rule}
use neof5client.DaifugoContext.{DaifugoContext, ba_last}
use neof5client.DaifugoContext.Text.{IsContext}
use neof5client.PoorPlayer.{collect, element, think_loop, rounds, play_size, think}
use neof5client.PoorPlayer.Think.{FirstLegal, loop-Answers}
use neof5client.PoorPlayer.SortedHand.{
  sorted_hand, sorted_hand_facts, order_hand-elements, has_set-empty,
}
use neof5client.PoorPlayer.Window.{has_set-hand_at, drop-cons}

enters_loop :
    (rule : Rule) (ctx : DaifugoContext)
    → IsValid ctx.deck
    → think rule ctx
      ≡ think_loop ctx
          (sorted_hand ctx)
          (play_size ctx)
          (rounds (length (sorted_hand ctx)) (play_size ctx))
          0
          rule
unfolding think
enters_loop rule ctx v = rw (conv2_vector_lem ctx.deck v, order_hand-elements ctx)

play_size-le : (ctx : DaifugoContext) → play_size ctx ≤ 53
play_size-le ctx = by_table ctx.ba
  where
    by_table : (ba : List CardSet) → (elim ba [ [] ↦ 1 | s ∷ ss ↦ size (ba_last ctx) ]) ≤ 53
    by_table [] = omega arith
    by_table (s ∷ ss) = size-le (ba_last ctx)

-- For a turn whose sets are of the 53 cards: if the last set on the table has at most one card
-- more than the hand, `think` returns the first window of the sorted hand that is a legal play,
-- weakest cards first (strongest first during a revolution), or a pass if no window of that size
-- is legal. The answer is a part of the hand.
pub think-FirstLegal :
    (rule : Rule) (ctx : DaifugoContext)
    → IsContext ctx
    → play_size ctx ≤ size ctx.deck + 1
    → (cards : CardSet) × (rule' : Rule) × (think rule ctx ≡ ok (cards, rule'))
      × (has_set ctx.deck cards ≡ true)
      × FirstLegal
          (sorted_hand ctx)
          (play_size ctx)
          0
          (size ctx.deck + 1 - play_size ctx)
          ctx.is_kakumei
          (ba_last ctx)
          cards
think-FirstLegal rule ctx valid fits =
    let (all, count, same) = sorted_hand_facts ctx valid.deck_valid in
    let turns : rounds (length (sorted_hand ctx)) (play_size ctx)
        ≡ size ctx.deck + 1 - play_size ctx =
      omega (arith, count, size-le ctx.deck) in
    let (cards, rule', returns, first) =
      loop-Answers ctx (sorted_hand ctx) (play_size ctx) all valid
        (size ctx.deck + 1 - play_size ctx) 0 rule (omega (arith, count)) in
    let top : 0 + (size ctx.deck + 1 - play_size ctx) ≡ size ctx.deck + 1 - play_size ctx =
      omega arith in
    (
      cards,
      rule',
      enters_loop rule ctx valid.deck_valid
          ∙ ap (λ k. think_loop ctx (sorted_hand ctx) (play_size ctx) k 0 rule) turns
          ∙ returns,
      part first,
      subst
          (λ k. FirstLegal (sorted_hand ctx) (play_size ctx) 0 k ctx.is_kakumei (ba_last ctx) cards)
          top first,
    )
  where
    part :
        {cards : CardSet} {hi : ℕ}
        → FirstLegal (sorted_hand ctx) (play_size ctx) 0 hi ctx.is_kakumei (ba_last ctx) cards
        → has_set ctx.deck cards ≡ true
    part (inl (pass, rest)) = rw pass (has_set-empty ctx.deck)
    part (inr (i, lo, hi, is, legal, rest)) =
        let (all, count, same) = sorted_hand_facts ctx valid.deck_valid in
        rw is (has_set-hand_at ctx.deck (sorted_hand ctx) (play_size ctx) i all same)

element_end : (cs : List Card) → element cs (length cs) ≡ undefined
element_end [] = refl
element_end (c ∷ cs) = element_end cs

collect_reads :
    (cs : List Card) (n j : ℕ) (cards : CardSet) (c : Card)
    → element cs j ≡ ok c
    → collect cs (suc n) j cards ≡ collect cs n (j + 1) (add_card cards c)
unfolding collect
collect_reads cs n j cards c h = rw h refl

collect_ends :
    (cs : List Card) (n j : ℕ) (cards : CardSet)
    → j ≡ length cs
    → collect cs (suc n) j cards ≡ undefined
unfolding collect
collect_ends cs n j cards h = rw (ap (element cs) h ∙ element_end cs) refl

-- Collecting `n` cards from place `j` on fails if fewer are left.
collect_past_end :
    (cs : List Card) (n j : ℕ) (cards : CardSet)
    → length cs < j + n
    → j ≤ length cs
    → collect cs n j cards ≡ undefined
collect_past_end cs zero j cards short inside = absurd (omega arith)
collect_past_end cs (suc n) j cards short inside = elim (Bool-cases (j == length cs)) [
  | inl e ↦ collect_ends cs n j cards ((==_iff _ _).0 e)
  | inr e ↦
      let (c, read, rest) = drop-cons cs j (ground arith) in
      collect_reads cs n j cards c read
      ∙ collect_past_end cs n (j + 1) (add_card cards c) (omega arith) (ground arith)
]

loop_faults :
    (ctx : DaifugoContext) (cs : List Card) (n left i : ℕ) (rule : Rule)
    → collect cs n i empty_set ≡ undefined
    → think_loop ctx cs n (suc left) i rule ≡ undefined
unfolding think_loop
loop_faults ctx cs n left i rule h = rw h refl

-- For a hand of the 53 cards: if the last set on the table has more than one card over the size
-- of the hand, the unsigned difference wraps and `think` reads past the end of its hand: its
-- behaviour is undefined.
pub think_past_end :
    (rule : Rule) (ctx : DaifugoContext)
    → IsValid ctx.deck
    → size ctx.deck + 1 < play_size ctx
    → think rule ctx ≡ undefined
think_past_end rule ctx v over =
    let (all, count, same) = sorted_hand_facts ctx v in
    let turns : rounds (length (sorted_hand ctx)) (play_size ctx)
        ≡ suc (size ctx.deck + 2 ^ 32 - play_size ctx) =
      omega (arith, count, play_size-le ctx) in
    enters_loop rule ctx v
    ∙ ap (λ k. think_loop ctx (sorted_hand ctx) (play_size ctx) k 0 rule) turns
    ∙ loop_faults ctx (sorted_hand ctx) (play_size ctx) (size ctx.deck + 2 ^ 32 - play_size ctx) 0
        rule
        (collect_past_end (sorted_hand ctx) (play_size ctx) 0 empty_set (omega (arith, count))
          (omega arith))
