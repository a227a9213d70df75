-- ===== src/SagePlayer/Potential.antt =====
-- `SagePlayer::_calcPotentialToBeFightback`: how likely a play is to be answered.
use neof5client.Base.{
  ℕ, zero, suc, ◌+◌, ◌-◌, ◌%◌, Bool, true, false, not, ◌||◌, ltb, leb, ◌==◌, if◌then◌else◌, Outcome,
  ok, out_of_fuel, ◌>>=◌,
}
use neof5client.Card.{card_strength_max, is_joker, get_strength}
use neof5client.CardSet.{CardSet, empty_set, size, at, has_num_of, has_num_of_into}
use neof5client.DaifugoContext.{DaifugoContext, get_num_of_available_players}
use neof5client.Double.{Double}

module _ (D : Double) where
  open D use {R, of_ℕ, neg, add, mul, div, lt, eq}

  abbrev pub le : R → R → Bool
  le a b = lt a b || eq a b

  -- What the function reads before its loop, and the members of the player that it uses.
  pub record Estimate : Type 0 where
    pub pn : R
    pub joker_count : R
    pub hand_count : R
    pub not_appears_cards : CardSet

  -- `getNumOfAvailablePlayers() - 1`, an int that becomes a double.
  abbrev pub one_less : ℕ → R
  one_less n = if n == 0 then neg (of_ℕ 1) else of_ℕ (n - 1)

  abbrev pub estimate_of : DaifugoContext → CardSet → CardSet → Estimate
  estimate_of ctx not_appears_cards hand = record {
    pn = one_less (get_num_of_available_players ctx);
    joker_count = of_ℕ (if has_num_of not_appears_cards card_strength_max then 1 else 0);
    hand_count = of_ℕ (size hand);
    not_appears_cards = not_appears_cards;
  }

  -- The body of the loop for the strength `st`: `strength_cards` are the cards that are counted.
  unfoldable pub add_answers : Estimate → CardSet → R → R
  add_answers e strength_cards result =
      let strength_count = of_ℕ (size strength_cards) in
      if eq e.hand_count (of_ℕ 1)
      then add result strength_count
      else let with_jokers = add strength_count e.joker_count in
        if le e.hand_count with_jokers
        then add result
            (div (div with_jokers e.pn) (if eq e.pn (of_ℕ 1) then of_ℕ 1 else e.hand_count))
        else result

  unfoldable pub add_strength : Estimate → ℕ → R → R
  unfolding add_answers
  add_strength e st result =
      let (found, strength_cards) = has_num_of_into e.not_appears_cards (st % 13) empty_set in
      if found then add_answers e strength_cards result else result

  -- The loop: `st` stays between 0 and CARD_STRENGTH_MAX, so 14 rounds are enough.
  unfoldable pub potential_loop : ℕ → Estimate → Bool → ℕ → R → Outcome R
  unfolding add_strength
  potential_loop zero e is_kakumei st result = out_of_fuel
  potential_loop (suc fuel) e is_kakumei st result =
      let next = if is_kakumei then st - 1 else st + 1 in
      elim (ltb next 1 || leb card_strength_max next) [
        | true ↦ ok result
        | false ↦ potential_loop fuel e is_kakumei next (add_strength e next result)
      ]

  -- The estimate of a staircase.
  abbrev pub kaidan_points : Estimate → ℕ → R
  kaidan_points e st =
      add (of_ℕ 50)
        (div (div (div (mul (of_ℕ 200) e.joker_count) e.hand_count) (of_ℕ st)) (of_ℕ st))

  -- `hand_count >= 3 && hand[1].getStrength() != st`.
  unfoldable pub looks_like_kaidan : Estimate → CardSet → ℕ → Outcome Bool
  looks_like_kaidan e hand st = elim (le (of_ℕ 3) e.hand_count) [
    | true ↦ do second ← at hand 1; ok (not (get_strength second == st))
    | false ↦ ok false
  ]

  unfoldable pub calc_potential_to_be_fightback :
      R → CardSet → DaifugoContext → CardSet → Bool → Outcome R
  unfolding potential_loop looks_like_kaidan
  calc_potential_to_be_fightback hand_potential_max not_appears_cards ctx hand is_kakumei = do
    first_card ← at hand 0
    let e = estimate_of ctx not_appears_cards hand
    let st = get_strength first_card
    elim (is_joker first_card) [
      | true ↦ ok hand_potential_max
      | false ↦ do
        kaidan ← looks_like_kaidan e hand st
        elim kaidan [
          | true ↦ ok (add hand_potential_max (kaidan_points e st))
          | false ↦ do
            result ← potential_loop 14 e is_kakumei st hand_potential_max
            ok (if eq e.hand_count (of_ℕ 1) then add result e.joker_count else result)
        ]
    ]
