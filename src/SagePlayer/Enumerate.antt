-- ===== src/SagePlayer/Enumerate.antt =====
-- The enumeration of plays ends, and gives legal plays of the hand only.
use neof5client.Base.{
  ℕ, zero, suc, ◌<◌, ◌≡◌, refl, sym, ap, ◌∙◌, Bool, true, false, ◌==◌, List, [], ◌∷◌, ◌++◌, Outcome,
  ok, leb, arith, Bool-cases, ==_iff, inl, inr,
}
use mathlib.Core.List.{reverse, reverse_aux}
use neof5client.Card.{Card}
use neof5client.Card.Table.{IsCard}
use neof5client.CardSet.{
  CardSet, empty_set, size, is_empty, add_card, remove_card, has_set, conv2_vector, lt_set,
}
use neof5client.CardSet.Members.{
  IsValid, member, member-add_card, member-remove_card, has_set_iff, member-empty,
}
use neof5client.CardSet.Contract.{empty-IsValid, add_card-IsValid, remove_card-IsValid}
use neof5client.CardSet.Vector.{AllCards, in_cards, conv2_vector_contract}
use neof5client.CardSet.Count.{size-remove_card}
use neof5client.CardSet.Elements.{size-le}
use neof5client.CardSet.Fewer.{not_empty-add}
use neof5client.DaifugoRule.{Rule, chk_ok, is_ok, can_put, set_kakumei}
use neof5client.DaifugoRule.Play.{can_put_answers, is_ok_lem}
use neof5client.SagePlayer.{
  set_has, set_insert, combination_loop, gen_all_combination, enumerate_available_hands,
}

-- Cards of the table that are in the set.
abbrev pub AllIn : CardSet → List Card → Type 0
AllIn s [] = Unit {0}
AllIn s (c ∷ cs) = (IsCard c × (member s c.idx ≡ true)) × AllIn s cs

AllIn-of :
    (s : CardSet) (cs : List Card)
    → AllCards cs
    → ((i : ℕ) → in_cards cs i ≡ true → member s i ≡ true)
    → AllIn s cs
unfolding in_cards
AllIn-of s [] all there = tt
AllIn-of s (c ∷ cs) (h, all) there =
    ((h, there c.idx (ground arith)), AllIn-of s cs all (λ i m. there i (ground (arith, m))))

AllIn-append : (s : CardSet) (cs ds : List Card) → AllIn s cs → AllIn s ds → AllIn s (cs ++ ds)
AllIn-append s [] ds a b = b
AllIn-append s (c ∷ cs) ds (h, a) b = (h, AllIn-append s cs ds a b)

AllIn-reverse_aux :
    (s : CardSet) (cs ds : List Card) → AllIn s cs → AllIn s ds → AllIn s (reverse_aux cs ds)
AllIn-reverse_aux s [] ds a b = b
AllIn-reverse_aux s (c ∷ cs) ds (h, a) b = AllIn-reverse_aux s cs (c ∷ ds) a (h, b)

-- `conv2Vector` of a set of the 53 cards gives its cards, from either end.
pub vector-AllIn :
    (s : CardSet) → IsValid s → (cs : List Card) × (conv2_vector s ≡ ok cs) × AllIn s (reverse cs)
vector-AllIn s v =
    let (cs, run, asc, all, there, count, reads, back) = conv2_vector_contract s v in
    (cs, run, AllIn-reverse_aux s cs [] (AllIn-of s cs all (λ i m. sym (there i) ∙ m)) tt)

-- Within the hand `tefda`: every card of the set is one of the hand's.
abbrev pub Within : CardSet → CardSet → Type 0
Within tefda s = (i : ℕ) → member s i ≡ true → member tefda i ≡ true

Within-add :
    (tefda s deck : CardSet) (c : Card)
    → IsCard c
    → member deck c.idx ≡ true
    → Within tefda deck
    → Within tefda s
    → Within tefda (add_card s c)
Within-add tefda s deck c h there wd ws i m = elim (Bool-cases (c.idx == i)) [
  | inl e ↦ ap (member tefda) (sym ((==_iff c.idx i).0 e)) ∙ wd c.idx there
  | inr e ↦ ws i (ground (arith, member-add_card s c i h, m, e))
]

Within-remove :
    (tefda deck : CardSet) (c : Card)
    → IsValid deck
    → IsCard c
    → Within tefda deck
    → Within tefda (remove_card deck c)
Within-remove tefda deck c v h wd i m = wd i (ground (arith, member-remove_card deck c i v h, m))

module _ (rule : Rule) (tefda ba_last : CardSet) (ba_valid : IsValid ba_last) where
  -- A set of the 53 cards from the hand, not none, that the rule lets the player put on the table.
  abbrev pub IsPlay : CardSet → Type 0
  IsPlay s =
      IsValid s
      × (has_set tefda s ≡ true)
      × (can_put rule s ba_last ≡ ok chk_ok)
      × (is_empty s ≡ false)

  abbrev pub AllPlays : List CardSet → Type 0
  AllPlays [] = Unit {0}
  AllPlays (s ∷ ss) = IsPlay s × AllPlays ss

  AllPlays-insert :
      (ss : List CardSet) (s : CardSet) → IsPlay s → AllPlays ss → AllPlays (set_insert ss s)
  unfolding set_insert
  AllPlays-insert [] s p all = (p, tt)
  AllPlays-insert (t ∷ ts) s p (q, all) = elim (Bool-cases (lt_set s t)) [
    | inl e ↦ rw e (p, (q, all))
    | inr e ↦ elim (Bool-cases (lt_set t s)) [
      | inl f ↦ rw (e, f) (q, AllPlays-insert ts s p all)
      | inr f ↦ rw (e, f) (q, all)
    ]
  ]

  -- A run that returns, with plays only.
  abbrev pub Finds : Outcome (List CardSet) → Type 0
  Finds o = (hands : List CardSet) × (o ≡ ok hands) × AllPlays hands

  -- What a call below gets: sets of the hand's cards, fewer in the deck than `n`.
  abbrev Below : ℕ → (List CardSet → CardSet → CardSet → Outcome (List CardSet)) → Type 0
  Below n below =
      (buff : List CardSet) (hand deck : CardSet)
      → IsValid hand
      → Within tefda hand
      → IsValid deck
      → Within tefda deck
      → size deck < n
      → AllPlays buff
      → Finds (below buff hand deck)

  module _ (below : List CardSet → CardSet → CardSet → Outcome (List CardSet))
      (base_hand deck : CardSet) (base_valid : IsValid base_hand)
      (base_within : Within tefda base_hand) (deck_valid : IsValid deck)
      (deck_within : Within tefda deck) (recur : Below (size deck) below) where
    combination_loop-Finds :
        (cs : List Card) (buff : List CardSet)
        → AllIn deck cs
        → AllPlays buff
        → Finds (combination_loop below rule buff base_hand deck ba_last cs)
    unfolding combination_loop
    combination_loop-Finds [] buff here all = (buff, refl, all)
    combination_loop-Finds (c ∷ cs) buff ((h, there), here) all =
        let rest = λ (b : List CardSet) (a : AllPlays b). combination_loop-Finds cs b here a in
        let hand_valid = add_card-IsValid base_hand c base_valid h in
        let hand_within = Within-add tefda base_hand deck c h there deck_within base_within in
        let call = λ (b : List CardSet) (a : AllPlays b).
          recur b (add_card base_hand c) (remove_card deck c) hand_valid hand_within
            (remove_card-IsValid deck c deck_valid h)
            (Within-remove tefda deck c deck_valid h deck_within)
            (omega (arith, size-remove_card deck c deck_valid h there)) a in
        elim (Bool-cases (set_has buff (add_card base_hand c))) [
          | inl e ↦
              let (hands, run, found) = rest buff all in (hands, ground (arith, e, run), found)
          | inr e ↦
              let (chk, answers) =
                can_put_answers rule (add_card base_hand c) ba_last hand_valid ba_valid in
              elim (Bool-cases (is_ok chk)) [
                | inl good ↦
                    let play : IsPlay (add_card base_hand c) = (
                      hand_valid,
                      (has_set_iff tefda (add_card base_hand c)).1 hand_within,
                      answers ∙ ap ok (is_ok_lem chk good),
                      not_empty-add base_hand c base_valid h,
                    ) in
                    let (more, run, found) = call _ (AllPlays-insert buff _ play all) in
                    let (hands, run', found') = rest more found in
                    (hands, ground (arith, e, answers, good, run, run'), found')
                | inr bad ↦ elim (Bool-cases (leb 2 (size base_hand))) [
                  | inl many ↦
                      let (hands, run, found) = rest buff all in
                      (hands, ground (arith, e, answers, bad, many, run), found)
                  | inr few ↦
                      let (more, run, found) = call buff all in
                      let (hands, run', found') = rest more found in
                      (hands, ground (arith, e, answers, bad, few, run, run'), found')
                ]
              ]
        ]

  gen_all_combination-Finds :
      (fuel : ℕ)
      → Below fuel (λ buff hand deck. gen_all_combination fuel rule buff hand deck ba_last)
  unfolding gen_all_combination
  gen_all_combination-Finds zero buff hand deck hv hw dv dw lt all = absurd (omega arith)
  gen_all_combination-Finds (suc fuel) buff hand deck hv hw dv dw lt all =
      let (cs, run, here) = vector-AllIn deck dv in
      let below =
        λ (b : List CardSet) (h d : CardSet). gen_all_combination fuel rule b h d ba_last in
      let (hands, run', found) =
        combination_loop-Finds below hand deck hv hw dv dw
          (λ b h d v w v' w' l a.
            gen_all_combination-Finds fuel b h d v w v' w' (omega (arith, l, lt)) a)
          (reverse cs) buff here all in
      (hands, ground (arith, run, run'), found)

-- For a hand and a set on the table, both of the 53 cards, `_enumrateAvairableHands` returns, with
-- the revolution set on the rule object; every set it finds is made of one or more of the hand's
-- cards, and `canPut` of that rule object answers OK to it.
pub enumerate-AllPlays :
    (rule : Rule) (tefda ba_last : CardSet) (is_kakumei : Bool)
    → IsValid tefda
    → (ba_valid : IsValid ba_last)
    → (hands : List CardSet) × (enumerate_available_hands rule [] tefda ba_last is_kakumei
        ≡ ok (hands, set_kakumei rule is_kakumei))
      × AllPlays (set_kakumei rule is_kakumei) tefda ba_last ba_valid hands
unfolding enumerate_available_hands
enumerate-AllPlays rule tefda ba_last is_kakumei v w =
    let (hands, run, found) =
      gen_all_combination-Finds (set_kakumei rule is_kakumei) tefda ba_last w 54 [] empty_set tefda
        empty-IsValid (λ i m. ground (arith, member-empty i, m)) v (λ i m. m)
        (omega (arith, size-le tefda)) tt in
    (hands, rw run refl, found)
