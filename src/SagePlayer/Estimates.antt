-- ===== src/SagePlayer/Estimates.antt =====
-- What `_calcPotentialToBeFightback` returns for each kind of play.
use neof5client.Base.{
  ℕ, ◌≤◌, ◌≡◌, ◌≢◌, refl, sym, Bool, true, false, ltb, leb, ◌==◌, if◌then◌else◌, List, [], ◌∷◌,
  Outcome, ok, ◌⊎◌, inl, inr, arith, Bool-cases, length, leb→le, ==_iff,
}
use neof5client.Card.{Card, is_joker, get_strength}
use neof5client.Card.Table.{IsCard, get_strength_lem, is_joker_lem}
use neof5client.CardSet.{CardSet, size, at}
use neof5client.CardSet.Members.{IsValid}
use neof5client.CardSet.Elements.{size-le, at_or_throw}
use neof5client.CardSet.Vector.{AllCards, conv2_vector_contract}
use neof5client.DaifugoContext.{DaifugoContext}
use neof5client.Double.{Double}
use neof5client.SagePlayer.Potential.{
  le, Estimate, estimate_of, kaidan_points, looks_like_kaidan, calc_potential_to_be_fightback,
}
use neof5client.SagePlayer.Strengths.{strengths_beyond, add_all, loop_lem}

module _ (D : Double) where
  open D use {R, of_ℕ, add, lt, eq}

  -- Comparisons of doubles that come from numbers up to 64 are those of the numbers.
  abbrev pub ExactUpTo64 : Type 0
  ExactUpTo64 =
      (a b : ℕ)
      → a ≤ 64
      → b ≤ 64
      → (lt (of_ℕ a) (of_ℕ b) ≡ ltb a b) × (eq (of_ℕ a) (of_ℕ b) ≡ (a == b))

  -- The estimate of a play that is no staircase, from its weakest card `c`.
  abbrev pub counted : R → Estimate D → CardSet → Bool → Card → R
  counted hand_potential_max e hand is_kakumei c =
      let total = add_all D e (strengths_beyond is_kakumei (get_strength c)) hand_potential_max in
      if size hand == 1 then add total e.joker_count else total

  -- The three kinds of estimates: for the joker, for what looks like a staircase, and for the rest.
  abbrev pub Estimates : R → Estimate D → CardSet → Bool → Card → R → Type 0
  Estimates hand_potential_max e hand is_kakumei c r =
      ((is_joker c ≡ true) × (r ≡ hand_potential_max))
      ⊎ (((is_joker c ≡ false)
            × ((3 ≤ size hand)
                × ((second : Card) × (at hand 1 ≡ ok second)
                    × (get_strength second ≢ get_strength c)))
            × (r ≡ add hand_potential_max (kaidan_points D e (get_strength c))))
          ⊎ ((is_joker c ≡ false)
              × ((size hand ≤ 2)
                  ⊎ ((second : Card) × (at hand 1 ≡ ok second)
                      × (get_strength second ≡ get_strength c)))
              × (r ≡ counted hand_potential_max e hand is_kakumei c)))

  module _ (hand_potential_max : R) (not_appears_cards : CardSet) (ctx : DaifugoContext)
      (hand : CardSet) (is_kakumei : Bool) (exact : ExactUpTo64) (valid : IsValid hand) where
    abbrev estimate : Estimate D
    estimate = estimate_of D ctx not_appears_cards hand

    abbrev answer : Outcome R
    answer =
        calc_potential_to_be_fightback D hand_potential_max not_appears_cards ctx hand is_kakumei

    three_or_more : le D (of_ℕ 3) (of_ℕ (size hand)) ≡ leb 3 (size hand)
    three_or_more =
        let (less, same) = exact 3 (size hand) (omega arith) (omega (arith, size-le hand)) in
        ground (arith, less, same)

    just_one : eq (of_ℕ (size hand)) (of_ℕ 1) ≡ (size hand == 1)
    just_one =
        let (less, same) = exact (size hand) 1 (omega (arith, size-le hand)) (omega arith) in same

    Estimates-counted :
        (c : Card)
        → IsCard c
        → at hand 0 ≡ ok c
        → is_joker c ≡ false
        → looks_like_kaidan D estimate hand (get_strength c) ≡ ok false
        → answer ≡ ok (counted hand_potential_max estimate hand is_kakumei c)
    unfolding calc_potential_to_be_fightback
    Estimates-counted c h first plain no_stairs =
        let low : 1 ≤ get_strength c = omega (arith, get_strength_lem c h) in
        let high : get_strength c ≤ 13 =
          ground (arith, get_strength_lem c h, is_joker_lem c h, plain) in
        let run = loop_lem D estimate is_kakumei (get_strength c) hand_potential_max low high in
        ground (arith, first, plain, no_stairs, run, just_one)

    Estimates-kaidan :
        (c : Card)
        → at hand 0 ≡ ok c
        → is_joker c ≡ false
        → looks_like_kaidan D estimate hand (get_strength c) ≡ ok true
        → answer ≡ ok (add hand_potential_max (kaidan_points D estimate (get_strength c)))
    unfolding calc_potential_to_be_fightback
    Estimates-kaidan c first plain stairs = ground (arith, first, plain, stairs)

    Estimates-joker :
        (c : Card) → at hand 0 ≡ ok c → is_joker c ≡ true → answer ≡ ok hand_potential_max
    unfolding calc_potential_to_be_fightback
    Estimates-joker c first joker = ground (arith, first, joker)

    Estimates-reads :
        (cs : List Card)
        → AllCards cs
        → length cs ≡ size hand
        → ((k : ℕ) → at hand k ≡ at_or_throw cs k)
        → 1 ≤ size hand
        → (c : Card) × (r : R) × (at hand 0 ≡ ok c)
          × (answer ≡ ok r)
          × Estimates hand_potential_max estimate hand is_kakumei c r
    unfolding looks_like_kaidan
    Estimates-reads [] all count reads some_card = absurd (omega (arith, count))
    Estimates-reads (c ∷ cs) (h, all) count reads some_card = elim (Bool-cases (is_joker c)) [
      | inl joker ↦
          (c, hand_potential_max, reads 0, Estimates-joker c (reads 0) joker, inl (joker, refl))
      | inr plain ↦ elim (Bool-cases (leb 3 (size hand))) [
        | inr few ↦
            let no_stairs : looks_like_kaidan D estimate hand (get_strength c) ≡ ok false =
              ground (arith, three_or_more, few) in
            (
              c,
              counted hand_potential_max estimate hand is_kakumei c,
              reads 0,
              Estimates-counted c h (reads 0) plain no_stairs,
              inr (inr (plain, inl (ground (arith, few)), refl)),
            )
        | inl many ↦
            let (second, there) = second_card cs count reads many in
            elim (Bool-cases (get_strength second == get_strength c)) [
              | inl same ↦
                  let no_stairs : looks_like_kaidan D estimate hand (get_strength c) ≡ ok false =
                    ground (arith, three_or_more, many, there, same) in
                  (
                    c,
                    counted hand_potential_max estimate hand is_kakumei c,
                    reads 0,
                    Estimates-counted c h (reads 0) plain no_stairs,
                    inr (inr (plain, inr (second, there, (==_iff _ _).0 same), refl)),
                  )
              | inr other ↦
                  let stairs : looks_like_kaidan D estimate hand (get_strength c) ≡ ok true =
                    ground (arith, three_or_more, many, there, other) in
                  (
                    c,
                    add hand_potential_max (kaidan_points D estimate (get_strength c)),
                    reads 0,
                    Estimates-kaidan c (reads 0) plain stairs,
                    inr (
                        inl (
                          plain,
                          (
                            leb→le 3 (size hand) many,
                            (second, there, λ e. cc ((==_iff _ _).1 e, other)),
                          ),
                          refl,
                        )),
                  )
            ]
      ]
    ]
      where
        second_card :
            (ds : List Card)
            → length (c ∷ ds) ≡ size hand
            → ((k : ℕ) → at hand k ≡ at_or_throw (c ∷ ds) k)
            → leb 3 (size hand) ≡ true
            → (second : Card) × (at hand 1 ≡ ok second)
        second_card [] count reads many = absurd (ground (arith, count, many))
        second_card (d ∷ ds) count reads many = (d, reads 1)

    -- For a play of at least one of the 53 cards, and doubles that compare as numbers up to 64,
    -- `_calcPotentialToBeFightback` returns: for the joker alone the best value; for three or more
    -- cards of which the first two differ in strength the best value with the points of a
    -- staircase; and otherwise the best value with what each strength beyond the play's adds, the
    -- nearest first, and for a single card what the joker adds.
    pub calc_potential-Estimates :
        1 ≤ size hand
        → (c : Card) × (r : R) × (at hand 0 ≡ ok c)
          × (calc_potential_to_be_fightback D hand_potential_max not_appears_cards ctx hand
                is_kakumei
              ≡ ok r)
          × Estimates hand_potential_max
              (estimate_of D ctx not_appears_cards hand)
              hand
              is_kakumei
              c
              r
    calc_potential-Estimates some_card =
        let (cs, run, asc, all, there, count, reads, back) = conv2_vector_contract hand valid in
        Estimates-reads cs all (sym count) reads some_card
