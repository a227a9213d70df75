-- ===== src/DaifugoContext/Tests.antt =====
-- A run of the constructor of a context.
use neof5client.Base.{ℕ, ◌+◌, ◌^◌, ◌≡◌, refl, List, [], ◌∷◌, ok, false}
use neof5client.Base.Int.{pos}
use neof5client.Card.{calc_card_id_from_string}
use neof5client.DaifugoContext.{DaifugoContext, make_context}
use neof5client.DaifugoContext.Text.{IsContext, ReadsAll, make_context-IsContext}
use neof5client.CardSet.{from_text}

abbrev turn : DaifugoContext
turn = record {
  deck = record { bits = 2 ^ 52 + 1 };
  teban = pos 2;
  ba = record { bits = 2 ^ 4 } ∷ [];
  yama = record { bits = 0 };
  is_kakumei = false;
  player_info = [];
}

abbrev deck_text : List ℕ
deck_text = b'C' ∷ b'3' ∷ b' ' ∷ b'J' ∷ b'K' ∷ []

reads_turn : make_context deck_text (pos 2) ((b'C' ∷ b'4' ∷ []) ∷ []) [] false [] ≡ ok turn
unfolding make_context from_text calc_card_id_from_string
reads_turn = refl

make_context-IsContext_example :
    IsContext turn
    × (from_text deck_text ≡ ok turn.deck)
    × (from_text [] ≡ ok turn.yama)
    × ReadsAll ((b'C' ∷ b'4' ∷ []) ∷ []) turn.ba
    × (turn.teban ≡ pos 2)
    × (turn.is_kakumei ≡ false)
    × (turn.player_info ≡ [])
make_context-IsContext_example =
    make_context-IsContext deck_text (pos 2) ((b'C' ∷ b'4' ∷ []) ∷ []) [] false [] turn reads_turn
