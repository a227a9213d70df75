-- ===== src/SagePlayer/Saved.antt =====
-- `SagePlayer::think` with hands that are left from an earlier search.
use neof5client.Base.{
  ◌↔◌, ℕ, ◌≡◌, refl, sym, ap, ◌∙◌, true, false, List, [], ok, ◌⊎◌, inl, inr, arith, Bool-cases,
  ◌==◌, ◌%◌,
}
use neof5client.CardSet.{CardSet, empty_set, has_set}
use neof5client.CardSet.Members.{IsValid}
use neof5client.DaifugoRule.{Rule, ChkResult, set_kakumei, can_put, is_ok, chk_ok}
use neof5client.DaifugoRule.Legal.{LegalPlay}
use neof5client.DaifugoRule.Play.{can_put_iff, can_put_answers, is_ok_lem}
use neof5client.DaifugoContext.{DaifugoContext, ba_last, last_of, get_num_of_available_players}
use neof5client.DaifugoContext.Text.{IsContext, ba_last-IsValid}
use neof5client.Double.{Double}
use neof5client.SagePlayer.Search.{Sage, hore}
use neof5client.SagePlayer.Level.{no_elements}
use neof5client.SagePlayer.Entry.{drop_last, greet, think, think2, tweet_by_chance}

module _ (D : Double) (clock address random : ℕ → ℕ) where
  open D use {R}

  abbrev pub after_greeting : DaifugoContext → Sage R → Sage R
  after_greeting ctx s = greet D clock address random ctx s

  pub greet-keeps :
      (ctx : DaifugoContext) (s : Sage R)
      → ((after_greeting ctx s).saved_hands_tree ≡ s.saved_hands_tree)
        × ((after_greeting ctx s).clock_reads ≡ s.clock_reads)
  unfolding greet
  greet-keeps ctx s = elim (Bool-cases (get_num_of_available_players ctx == 2)) [
    | inr other ↦ rw other (refl, refl)
    | inl two ↦ elim (Bool-cases (random s.draws % 8 == 1)) [
      | inl e ↦ rw (two, e) (refl, refl)
      | inr e ↦ rw (two, e) (refl, refl)
    ]
  ]

  -- With no saved hands the answer is that of `think2`.
  pub think-anew :
      (ctx : DaifugoContext) (s : Sage R)
      → no_elements s.saved_hands_tree ≡ true
      → think D clock address random ctx s
        ≡ think2 D clock address random ctx (ba_last ctx) (after_greeting ctx s)
  unfolding think
  think-anew ctx s nothing =
      let still = ap (λ (l : List CardSet). no_elements l) ((greet-keeps ctx s).0) ∙ nothing in
      ground (arith, still)

  -- A part of the hand that may be put on the table.
  abbrev pub Usable : DaifugoContext → CardSet → Type 0
  Usable ctx hand = (has_set ctx.deck hand ≡ true) × LegalPlay ctx.is_kakumei hand (ba_last ctx)

  -- The answer for the saved hand: it is used, or all saved hands are forgotten.
  abbrev pub UsesSaved : DaifugoContext → Sage R → CardSet → Type 0
  UsesSaved ctx s hand =
      (Usable ctx hand
        × ((s' : Sage R) × (think D clock address random ctx s ≡ ok (hand, s'))
            × (s'.saved_hands_tree ≡ drop_last s.saved_hands_tree)))
      ⊎ (¬ Usable ctx hand
          × ((s' : Sage R) × (think D clock address random ctx s
                ≡ think2 D clock address random ctx (ba_last ctx) s')
              × (s'.saved_hands_tree ≡ [])
              × (s'.clock_reads ≡ s.clock_reads)))

  module _ (ctx : DaifugoContext) (s : Sage R) (hand : CardSet) (valid : IsContext ctx)
      (some_left : no_elements s.saved_hands_tree ≡ false)
      (last : last_of empty_set s.saved_hands_tree ≡ hand) (hand_valid : IsValid hand) where
    abbrev greeted : Sage R
    greeted = after_greeting ctx s

    abbrev ruling : Rule
    ruling = set_kakumei greeted.rule ctx.is_kakumei

    still_left : no_elements greeted.saved_hands_tree ≡ false
    still_left = ap (λ (l : List CardSet). no_elements l) ((greet-keeps ctx s).0) ∙ some_left

    still_last : last_of empty_set greeted.saved_hands_tree ≡ hand
    still_last = ap (λ (l : List CardSet). last_of empty_set l) ((greet-keeps ctx s).0) ∙ last

    abbrev forgotten : Sage R
    forgotten = record greeted { rule = ruling; saved_hands_tree = [] }

    legal_iff :
        (can_put ruling hand (ba_last ctx) ≡ ok chk_ok)
        ↔ LegalPlay ctx.is_kakumei hand (ba_last ctx)
    unfolding set_kakumei
    legal_iff = can_put_iff ruling hand (ba_last ctx) hand_valid (ba_last-IsValid ctx valid)

    popped : Sage R
    popped = record greeted { rule = ruling; saved_hands_tree = drop_last greeted.saved_hands_tree }

    uses :
        has_set ctx.deck hand ≡ true
        → can_put ruling hand (ba_last ctx) ≡ ok chk_ok
        → think D clock address random ctx s
          ≡ ok (hand, tweet_by_chance D clock address random 9 1 hore popped)
    unfolding think popped
    uses part legal = ground (arith, still_left, still_last, part, legal)

    forgets_foreign :
        has_set ctx.deck hand ≡ false
        → think D clock address random ctx s
          ≡ think2 D clock address random ctx (ba_last ctx) forgotten
    unfolding think
    forgets_foreign foreign = ground (arith, still_left, still_last, foreign)

    forgets_illegal :
        (chk : ChkResult)
        → has_set ctx.deck hand ≡ true
        → can_put ruling hand (ba_last ctx) ≡ ok chk
        → is_ok chk ≡ false
        → think D clock address random ctx s
          ≡ think2 D clock address random ctx (ba_last ctx) forgotten
    unfolding think
    forgets_illegal chk part answers bad =
        ground (arith, still_left, still_last, part, answers, bad)

    popped-saved :
        (tweet_by_chance D clock address random 9 1 hore popped).saved_hands_tree
        ≡ drop_last s.saved_hands_tree
    unfolding popped
    popped-saved = elim (Bool-cases (random greeted.draws % 9 == 1)) [
      | inl e ↦ rw e (ap drop_last ((greet-keeps ctx s).0))
      | inr e ↦ rw e (ap drop_last ((greet-keeps ctx s).0))
    ]

    -- For a turn whose sets are of the 53 cards, and saved hands of which the last is such a set:
    -- if that hand is a part of the deck and a legal play, `think` returns it and takes it off the
    -- saved hands; if not, `think` answers as `think2` does with no saved hands.
    pub think-UsesSaved : UsesSaved ctx s hand
    think-UsesSaved =
        let (chk, answers) =
          can_put_answers ruling hand (ba_last ctx) hand_valid (ba_last-IsValid ctx valid) in
        elim (Bool-cases (has_set ctx.deck hand)) [
          | inr foreign ↦ inr (
            λ good_use. cc (good_use.0, foreign),
            (forgotten, forgets_foreign foreign, refl, (greet-keeps ctx s).1),
          )
          | inl part ↦ elim (Bool-cases (is_ok chk)) [
            | inl good ↦
                let legal : can_put ruling hand (ba_last ctx) ≡ ok chk_ok =
                  answers ∙ ap ok (is_ok_lem chk good) in
                inl (
                  (part, legal_iff.0 legal),
                  (
                    tweet_by_chance D clock address random 9 1 hore popped,
                    uses part legal,
                    popped-saved,
                  ),
                )
            | inr bad ↦ inr (
              λ good_use.
                  let same : ok chk ≡ ok chk_ok = sym answers ∙ legal_iff.1 good_use.1 in
                  absurd (ground (arith, same, bad)),
              (forgotten, forgets_illegal chk part answers bad, refl, (greet-keeps ctx s).1),
            )
          ]
        ]
