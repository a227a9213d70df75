-- ===== src/DaifugoContext.antt =====
-- Neof5Client/jni/neof5/DaifugoContext.hpp and DaifugoContext.cpp: what the server says of a turn.
pub mod Text
pub mod Tests
use neof5client.Base.{
  ℕ, suc, ◌+◌, Bool, List, [], ◌∷◌, Outcome, ok, ◌>>=◌, if◌then◌else◌, Option, none, some,
}
use neof5client.Base.Int.{ℤ, pos, ltb_ℤ}
use neof5client.CardSet.{CardSet, from_text, empty_set}
use neof5client.PlayerInfo.{PlayerInfo}

-- The getters are the fields.
pub record DaifugoContext : Type 0 where
  pub deck : CardSet
  pub teban : ℤ
  pub ba : List CardSet
  pub yama : CardSet
  pub is_kakumei : Bool
  pub player_info : List PlayerInfo

-- The loop of the constructor over the texts of `ba`.
unfoldable pub read_ba : List (List ℕ) → Outcome (List CardSet)
read_ba [] = ok []
read_ba (text ∷ texts) = do s ← from_text text; rest ← read_ba texts; ok (s ∷ rest)

-- The constructor: the members in the order of their declaration, then the body.
unfoldable pub make_context :
    List ℕ → ℤ → List (List ℕ) → List ℕ → Bool → List PlayerInfo → Outcome DaifugoContext
unfolding read_ba
make_context deck teban ba yama is_kakumei player_info = do
  deck' ← from_text deck
  yama' ← from_text yama
  ba' ← read_ba ba
  ok (record {
    deck = deck';
    teban = teban;
    ba = ba';
    yama = yama';
    is_kakumei = is_kakumei;
    player_info = player_info;
  })

unfoldable pub count_available : ℕ → List PlayerInfo → ℕ
count_available ret [] = ret
count_available ret (pi ∷ pis) =
    count_available (if ltb_ℤ (pos 0) pi.having_card_count then ret + 1 else ret) pis

unfoldable pub get_num_of_available_players : DaifugoContext → ℕ
unfolding count_available
get_num_of_available_players ctx = count_available 0 ctx.player_info

-- `getBa().back()` behind its test for an empty vector: `ba_last` of both players.
abbrev pub last_of : CardSet → List CardSet → CardSet
last_of s [] = s
last_of s (t ∷ ts) = last_of t ts

abbrev pub ba_last : DaifugoContext → CardSet
ba_last ctx = last_of empty_set ctx.ba
