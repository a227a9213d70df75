-- ===== src/PoorPlayer/Think.antt =====
-- The loop of `PoorPlayer::think` finds the first legal window.
use neof5client.Base.{
  ℕ, zero, suc, ◌+◌, ◌≤◌, ◌<◌, ◌≡◌, refl, sym, ap, subst, ◌∙◌, Bool, true, false, ◌==◌, List,
  Outcome, ok, arith, length, Bool-cases, ==_iff, inl, inr, ◌⊎◌, ◌↔◌,
}
use neof5client.Card.{Card}
use neof5client.CardSet.{CardSet, empty_set}
use neof5client.CardSet.Vector.{AllCards}
use neof5client.DaifugoRule.{Rule, set_kakumei, can_put, is_ok, ChkResult, chk_ok}
use neof5client.DaifugoRule.Legal.{LegalPlay}
use neof5client.DaifugoRule.Play.{can_put_iff, can_put_answers, is_ok_lem}
use neof5client.DaifugoContext.{DaifugoContext, ba_last}
use neof5client.DaifugoContext.Text.{IsContext, ba_last-IsValid}
use neof5client.PoorPlayer.{think_loop}
use neof5client.PoorPlayer.Window.{hand_at, collect-hand_at, hand_at-IsValid}

-- The answer to a turn: the first legal window from place `lo` on, or a pass if there is none
-- below place `hi`.
abbrev pub FirstLegal : List Card → ℕ → ℕ → ℕ → Bool → CardSet → CardSet → Type 0
FirstLegal cs n lo hi kakumei ba cards =
    ((cards ≡ empty_set) × ((j : ℕ) → lo ≤ j → j < hi → ¬ LegalPlay kakumei (hand_at cs n j) ba))
    ⊎ ((i : ℕ) × (lo ≤ i)
        × (i < hi)
        × (cards ≡ hand_at cs n i)
        × LegalPlay kakumei cards ba
        × ((j : ℕ) → lo ≤ j → j < i → ¬ LegalPlay kakumei (hand_at cs n j) ba))

module _ (ctx : DaifugoContext) (cs : List Card) (n : ℕ) (all : AllCards cs)
    (valid : IsContext ctx) where
  abbrev pub now : Rule → Rule
  now rule = set_kakumei rule ctx.is_kakumei

  loop_plays :
      (left i : ℕ) (rule : Rule) (res : ChkResult)
      → i + n ≤ length cs
      → can_put (now rule) (hand_at cs n i) (ba_last ctx) ≡ ok res
      → is_ok res ≡ true
      → think_loop ctx cs n (suc left) i rule ≡ ok (hand_at cs n i, now rule)
  unfolding think_loop
  loop_plays left i rule res h answers good =
      rw (collect-hand_at cs n i h) (rw answers (ground arith))

  loop_goes_on :
      (left i : ℕ) (rule : Rule) (res : ChkResult)
      → i + n ≤ length cs
      → can_put (now rule) (hand_at cs n i) (ba_last ctx) ≡ ok res
      → is_ok res ≡ false
      → think_loop ctx cs n (suc left) i rule ≡ think_loop ctx cs n left (suc i) (now rule)
  unfolding think_loop
  loop_goes_on left i rule res h answers bad =
      let next : i + 1 ≡ suc i = omega arith in
      rw (collect-hand_at cs n i h)
        (rw answers (ground (arith, next, ap (λ k. think_loop ctx cs n left k (now rule)) next)))

  abbrev pub Answers : ℕ → ℕ → Rule → Outcome (CardSet × Rule) → Type 0
  Answers lo hi rule r =
      (cards : CardSet) × (rule' : Rule) × (r ≡ ok (cards, rule'))
      × FirstLegal cs n lo hi ctx.is_kakumei (ba_last ctx) cards

  legal_iff :
      (i : ℕ) (rule : Rule) (res : ChkResult)
      → can_put (now rule) (hand_at cs n i) (ba_last ctx) ≡ ok res
      → (is_ok res ≡ true) ↔ LegalPlay ctx.is_kakumei (hand_at cs n i) (ba_last ctx)
  legal_iff i rule res answers =
      let same : (now rule).is_kakumei ≡ ctx.is_kakumei = unfold set_kakumei in refl in
      let iff =
        can_put_iff (now rule) (hand_at cs n i) (ba_last ctx) (hand_at-IsValid cs n i all)
          (ba_last-IsValid ctx valid) in
      (
        λ good.
            subst (λ k. LegalPlay k (hand_at cs n i) (ba_last ctx)) same
              (iff.0 (answers ∙ ap ok (is_ok_lem res good))),
        λ legal.
            let agreed : ok res ≡ ok chk_ok =
              sym answers
              ∙ iff.1 (subst (λ k. LegalPlay k (hand_at cs n i) (ba_last ctx)) (sym same) legal) in
            ground arith,
      )

  here_or_later :
      (i j : ℕ)
      → ¬ LegalPlay ctx.is_kakumei (hand_at cs n i) (ba_last ctx)
      → i ≤ j
      → (suc i ≤ j → ¬ LegalPlay ctx.is_kakumei (hand_at cs n j) (ba_last ctx))
      → ¬ LegalPlay ctx.is_kakumei (hand_at cs n j) (ba_last ctx)
  here_or_later i j bad lo later = elim (Bool-cases (i == j)) [
    | inl e ↦
        subst (λ k. ¬ LegalPlay ctx.is_kakumei (hand_at cs n k) (ba_last ctx)) ((==_iff i j).0 e)
          bad
    | inr e ↦ later (ground arith)
  ]

  -- A legal window further on is the first from here, if the one here is not legal.
  refused_here :
      (left i : ℕ) (cards : CardSet)
      → ¬ LegalPlay ctx.is_kakumei (hand_at cs n i) (ba_last ctx)
      → FirstLegal cs n (suc i) (suc i + left) ctx.is_kakumei (ba_last ctx) cards
      → FirstLegal cs n i (i + suc left) ctx.is_kakumei (ba_last ctx) cards
  refused_here left i cards bad (inl (pass, none_later)) =
      inl (pass, λ j lo hi. here_or_later i j bad lo (λ later. none_later j later (omega arith)))
  refused_here left i cards bad (inr (k, lo', hi', same, legal, none_before)) = inr (
    k,
    omega arith,
    omega arith,
    same,
    legal,
    λ j lo hi. here_or_later i j bad lo (λ later. none_before j later hi),
  )

  pub loop-Answers :
      (left i : ℕ) (rule : Rule)
      → i + left + n ≤ length cs + 1
      → Answers i (i + left) rule (think_loop ctx cs n left i rule)
  loop-Answers zero i rule h =
      (empty_set, rule, (unfold think_loop in refl), inl (refl, λ j lo hi. absurd (omega arith)))
  loop-Answers (suc left) i rule h =
      let (res, answers) =
        can_put_answers (now rule) (hand_at cs n i) (ba_last ctx) (hand_at-IsValid cs n i all)
          (ba_last-IsValid ctx valid) in
      elim (Bool-cases (is_ok res)) [
        | inl good ↦ (
          hand_at cs n i,
          now rule,
          loop_plays left i rule res (omega arith) answers good,
          inr (
            i,
            omega arith,
            omega arith,
            refl,
            (legal_iff i rule res answers).0 good,
            λ j lo hi. absurd (omega arith),
          ),
        )
        | inr bad ↦
            let (cards, rule', returns, first) =
              loop-Answers left (suc i) (now rule) (omega arith) in
            (
              cards,
              rule',
              loop_goes_on left i rule res (omega arith) answers bad ∙ returns,
              refused_here left i cards (λ legal. cc ((legal_iff i rule res answers).1 legal))
                  first,
            )
      ]
