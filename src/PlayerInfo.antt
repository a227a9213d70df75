-- ===== src/PlayerInfo.antt =====
-- Neof5Client/jni/neof5/PlayerInfo.hpp and PlayerInfo.cpp.
use neof5client.Base.{ℕ, List}
use neof5client.Base.Int.{ℤ}

-- The three getters are the fields.
pub record PlayerInfo : Type 0 where
  pub name : List ℕ
  pub having_card_count : ℤ
  pub order_of_finish : ℤ

-- The constructor.
abbrev pub make_player_info : List ℕ → ℤ → ℤ → PlayerInfo
make_player_info name having_card_count order_of_finish = record {
  name = name;
  having_card_count = having_card_count;
  order_of_finish = order_of_finish;
}
