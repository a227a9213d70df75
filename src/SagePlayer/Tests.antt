-- ===== src/SagePlayer/Tests.antt =====
-- Runs of the enumeration of plays.
use neof5client.Base.{◌+◌, ◌*◌, ◌^◌, ◌≤◌, ◌≡◌, refl, ok, false, List, [], ◌∷◌, arith}
use neof5client.Card.{is_joker, get_num, gt_card}
use neof5client.CardSet.{CardSet, size, is_empty, at}
use neof5client.DaifugoRule.{
  Rule, rule_a, set_kakumei, can_put, can_put_a, try_get_first_card, chk_ok,
}
use neof5client.SagePlayer.{enumerate_available_hands}
use neof5client.SagePlayer.Enumerate.{AllPlays, enumerate-AllPlays}
use neof5client.DaifugoContext.{DaifugoContext}
use neof5client.Base.{ℕ, ltb, not, ◌&&◌, ◌||◌}
use neof5client.CardSet.Members.{member}
use neof5client.SagePlayer.Entry.{not_appears_cards}
use neof5client.SagePlayer.Unseen.{on_table, not_appears_cards_lem}
use neof5client.Base.Int.{pos}
use neof5client.EvalNode.Tests.{whole}
use neof5client.DaifugoContext.Text.{IsContext}
use neof5client.SagePlayer.Search.{Sage}
use neof5client.SagePlayer.Saved.{UsesSaved, think-UsesSaved}
use neof5client.SagePlayer.Entry.{think}
use neof5client.SagePlayer.Answer.{Plays, think-Plays}
use neof5client.SagePlayer.Blind.{enumerate-none}

abbrev ruling : Rule
ruling = record { class = rule_a; is_kakumei = false }

-- Two fours, and a 3 on the table.
abbrev two_fours : CardSet
two_fours = record { bits = 2 ^ 4 + 2 ^ 5 }

abbrev a_three : CardSet
a_three = record { bits = 1 }

enumerate-AllPlays_example :
    (hands : List CardSet) × (enumerate_available_hands ruling [] two_fours a_three false
      ≡ ok (hands, set_kakumei ruling false))
    × AllPlays (set_kakumei ruling false) two_fours a_three (omega arith) hands
enumerate-AllPlays_example =
    enumerate-AllPlays ruling two_fours a_three false (omega arith) (omega arith)

-- Four fives in hand, and four threes on the table.
abbrev four_fives : CardSet
four_fives = record { bits = 15 * 2 ^ 8 }

abbrev four_threes : CardSet
four_threes = record { bits = 15 }

four_threes-size : 4 ≤ size four_threes
unfolding size
four_threes-size = omega arith

enumerate-none_example :
    enumerate_available_hands ruling [] four_fives four_threes false
    ≡ ok ([], set_kakumei ruling false)
enumerate-none_example =
    enumerate-none ruling four_fives four_threes false (omega arith) (omega arith) four_threes-size

-- The four fives could be put.
four_fives-legal : can_put ruling four_fives four_threes ≡ ok chk_ok
unfolding can_put can_put_a is_empty try_get_first_card size at is_joker get_num gt_card
four_fives-legal = refl

-- A turn of which the players are not known.
abbrev turn : DaifugoContext
turn = record {
  deck = two_fours;
  teban = pos 0;
  ba = [];
  yama = record { bits = 0 };
  is_kakumei = false;
  player_info = [];
}

-- A player that has planned to put the first of its fours.
abbrev first_four : CardSet
first_four = record { bits = 2 ^ 4 }

abbrev pub planned : Sage ℕ
planned = record {
  saved_hands_tree = first_four ∷ [];
  hand_potential_max = 0;
  not_appears_cards = four_fives;
  rule = ruling;
  tweets = [];
  clock_reads = 0;
  draws = 0;
}

turn-IsContext : IsContext turn
turn-IsContext = record { deck_valid = omega arith; ba_valid = refl; yama_valid = omega arith }

think-UsesSaved_example : UsesSaved whole (λ k. k) (λ i. i) (λ k. k) turn planned first_four
think-UsesSaved_example =
    think-UsesSaved whole (λ k. k) (λ i. i) (λ k. k) turn planned first_four turn-IsContext refl
      refl (omega arith)

not_appears_cards_lem_example :
    member (not_appears_cards turn) 40
    ≡ (ltb 40 53 && not (member turn.yama 40 || (member turn.deck 40 || on_table turn.ba 40)))
not_appears_cards_lem_example = not_appears_cards_lem turn 40 turn-IsContext

think-Plays_example :
    Plays whole
      (λ a b la lb. (refl, refl))
      (λ k. k)
      (λ i. i)
      (λ k. k)
      turn
      turn-IsContext
      0
      (think whole (λ k. k) (λ i. i) (λ k. k) turn planned)
think-Plays_example =
    think-Plays whole (λ a b la lb. (refl, refl)) (λ k. k) (λ i. i) (λ k. k) turn turn-IsContext
      planned (omega arith, refl)
