-- ===== src/PoorPlayer/Tests.antt =====
-- Runs of `PoorPlayer::think`.
use neof5client.Base.{◌+◌, ◌-◌, ◌^◌, ◌≡◌, refl, [], ◌∷◌, ok, true, false, undefined, arith}
use neof5client.Base.Int.{pos}
use neof5client.CardSet.{CardSet, has_set, size}
use neof5client.DaifugoRule.{Rule, rule_a}
use neof5client.DaifugoContext.{DaifugoContext, ba_last}
use neof5client.DaifugoContext.Text.{IsContext}
use neof5client.PoorPlayer.{think, play_size}
use neof5client.PoorPlayer.Think.{FirstLegal}
use neof5client.PoorPlayer.SortedHand.{sorted_hand}
use neof5client.PoorPlayer.Answer.{think-FirstLegal, think_past_end}

abbrev ruling : Rule
ruling = record { class = rule_a; is_kakumei = false }

-- Hand: a 3, two fours and the joker; on the table: a 3.
abbrev turn : DaifugoContext
turn = record {
  deck = record { bits = 2 ^ 52 + 2 ^ 5 + 2 ^ 4 + 1 };
  teban = pos 0;
  ba = record { bits = 2 } ∷ [];
  yama = record { bits = 0 };
  is_kakumei = false;
  player_info = [];
}

turn-IsContext : IsContext turn
turn-IsContext = record {
  deck_valid = omega arith;
  ba_valid = (omega arith, refl);
  yama_valid = omega arith;
}

turn_fits : play_size turn ≡ 1
unfolding size
turn_fits = refl

think-FirstLegal_example :
    (cards : CardSet) × (rule' : Rule) × (think ruling turn ≡ ok (cards, rule'))
    × (has_set turn.deck cards ≡ true)
    × FirstLegal
        (sorted_hand turn)
        (play_size turn)
        0
        (size turn.deck + 1 - play_size turn)
        false
        (ba_last turn)
        cards
think-FirstLegal_example = think-FirstLegal ruling turn turn-IsContext (omega (arith, turn_fits))

-- One card in hand, three threes on the table.
abbrev short_turn : DaifugoContext
short_turn = record turn { deck = record { bits = 2 ^ 20 }; ba = record { bits = 7 } ∷ [] }

short_hand : size short_turn.deck ≡ 1
unfolding size
short_hand = refl

long_play : play_size short_turn ≡ 3
unfolding size
long_play = refl

think_past_end_example : think ruling short_turn ≡ undefined
think_past_end_example =
    think_past_end ruling short_turn (omega arith) (omega (arith, short_hand, long_play))
