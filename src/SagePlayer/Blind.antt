-- ===== src/SagePlayer/Blind.antt =====
-- What the enumeration leaves out: `_genAllCombination` gives up at three cards that cannot be
-- put, so that it never gets to four.
use neof5client.Base.{
  ℕ, zero, suc, ◌<◌, ◌≤◌, ◌≡◌, refl, ap, ◌∙◌, Bool, false, List, [], ◌∷◌, Outcome, ok, leb, arith,
  Bool-cases, inl, inr,
}
use mathlib.Core.List.{reverse}
use neof5client.Card.{Card}
use neof5client.CardSet.{CardSet, empty_set, size, is_empty, add_card, remove_card}
use neof5client.CardSet.Members.{IsValid}
use neof5client.CardSet.Contract.{empty-IsValid, add_card-IsValid, remove_card-IsValid}
use neof5client.CardSet.Vector.{is_empty-size}
use neof5client.CardSet.Count.{size-add_card-le, size-remove_card, size-empty}
use neof5client.CardSet.Elements.{size-le}
use neof5client.DaifugoRule.{Rule, ChkResult, is_ok, can_put, set_kakumei}
use neof5client.DaifugoRule.Play.{can_put_answers, can_put_iff, is_ok_lem}
use neof5client.SagePlayer.{
  set_has, combination_loop, gen_all_combination, enumerate_available_hands,
}
use neof5client.CardSet.Fewer.{not_empty-add}
use neof5client.SagePlayer.Enumerate.{AllIn, vector-AllIn}

module _ (rule : Rule) (ba_last : CardSet) (ba_valid : IsValid ba_last)
    (four : 4 ≤ size ba_last) where
  -- Fewer than four cards that are not none cannot be put on four.
  few_refused :
      (cards : CardSet) (chk : ChkResult)
      → IsValid cards
      → is_empty cards ≡ false
      → size cards ≤ 3
      → can_put rule cards ba_last ≡ ok chk
      → is_ok chk ≡ false
  few_refused cards chk v some_there few answers = elim (Bool-cases (is_ok chk)) [
    | inr bad ↦ bad
    | inl good ↦
        elim ((can_put_iff rule cards ba_last v ba_valid).0
          (answers ∙ ap ok (is_ok_lem chk good))) [
            | inl pass ↦ cc (pass, some_there)
            | inr (c, leads, inl opens) ↦
                absurd (ground (arith, is_empty-size ba_last ba_valid, opens, four))
            | inr (c, leads, inr (same, rest)) ↦ absurd (omega (arith, same, few, four))
          ]
  ]

  -- A call below leaves the buffer as it is, on a deck of fewer cards than `n`.
  abbrev Idle :
      ℕ → List CardSet → (List CardSet → CardSet → CardSet → Outcome (List CardSet)) → Type 0
  Idle n buff below =
      (hand deck : CardSet)
      → IsValid hand
      → size hand ≤ 2
      → IsValid deck
      → size deck < n
      → below buff hand deck ≡ ok buff

  combination_loop-Idle :
      (below : List CardSet → CardSet → CardSet → Outcome (List CardSet)) (buff : List CardSet)
      (base_hand deck : CardSet)
      → IsValid base_hand
      → size base_hand ≤ 2
      → IsValid deck
      → Idle (size deck) buff below
      → (cs : List Card) → AllIn deck cs
      → combination_loop below rule buff base_hand deck ba_last cs ≡ ok buff
  unfolding combination_loop
  combination_loop-Idle below buff base_hand deck bv two dv recur [] here = refl
  combination_loop-Idle below buff base_hand deck bv two dv recur (c ∷ cs) ((h, there), here) =
      let rest = combination_loop-Idle below buff base_hand deck bv two dv recur cs here in
      let hand_valid = add_card-IsValid base_hand c bv h in
      let bigger = size-add_card-le base_hand c h in
      elim (Bool-cases (set_has buff (add_card base_hand c))) [
        | inl e ↦ ground (arith, e, rest)
        | inr e ↦
            let (chk, answers) =
              can_put_answers rule (add_card base_hand c) ba_last hand_valid ba_valid in
            let bad =
              few_refused (add_card base_hand c) chk hand_valid (not_empty-add base_hand c bv h)
                (omega (arith, bigger, two)) answers in
            elim (Bool-cases (leb 2 (size base_hand))) [
              | inl many ↦ ground (arith, e, answers, bad, many, rest)
              | inr few ↦
                  let call =
                    recur (add_card base_hand c) (remove_card deck c) hand_valid
                      (ground (arith, bigger, few)) (remove_card-IsValid deck c dv h)
                      (omega (arith, size-remove_card deck c dv h there)) in
                  ground (arith, e, answers, bad, few, call, rest)
            ]
      ]

  gen_all_combination-Idle :
      (fuel : ℕ) (buff : List CardSet)
      → Idle fuel buff (λ b hand deck. gen_all_combination fuel rule b hand deck ba_last)
  unfolding gen_all_combination
  gen_all_combination-Idle zero buff hand deck hv two dv lt = absurd (omega arith)
  gen_all_combination-Idle (suc fuel) buff hand deck hv two dv lt =
      let (cs, run, here) = vector-AllIn deck dv in
      let below =
        λ (b : List CardSet) (h d : CardSet). gen_all_combination fuel rule b h d ba_last in
      rw run (
        combination_loop-Idle below buff hand deck hv two dv
          (λ h d v t w l. gen_all_combination-Idle fuel buff h d v t w (omega (arith, l, lt)))
          (reverse cs) here)

-- For a hand of the 53 cards, and a set of four or more of them on the table,
-- `_enumrateAvairableHands` finds no play at all, whatever the hand is.
pub enumerate-none :
    (rule : Rule) (tefda ba_last : CardSet) (is_kakumei : Bool)
    → IsValid tefda
    → IsValid ba_last
    → 4 ≤ size ba_last
    → enumerate_available_hands rule [] tefda ba_last is_kakumei
      ≡ ok ([], set_kakumei rule is_kakumei)
unfolding enumerate_available_hands
enumerate-none rule tefda ba_last is_kakumei v w four =
    let run =
      gen_all_combination-Idle (set_kakumei rule is_kakumei) ba_last w four 54 [] empty_set tefda
        empty-IsValid (omega (arith, size-empty)) v (omega (arith, size-le tefda)) in
    rw run refl
