-- ===== src/Neof5Protocol.antt =====
-- Neof5Client/jni/neof5/Neof5Protocol.hpp and Neof5Protocol.cpp: a message of the server becomes a
-- turn, and the player's answer a message to the server. picojson is a parameter.
pub mod Turn
pub mod Tests
use neof5client.Base.{
  ℕ, Bool, true, false, ◌&&◌, ◌==◌, List, [], ◌∷◌, ◌++◌, map, Outcome, ok, ◌>>=◌,
}
use neof5client.Base.Int.{ℤ}
use neof5client.CardSet.{CardSet, to_string}
use neof5client.PlayerInfo.{PlayerInfo, make_player_info}
use neof5client.DaifugoRule.{Rule}
use neof5client.WsThread.{Handler}
use neof5client.DaifugoContext.{DaifugoContext, make_context}

abbrev pub same_text : List ℕ → List ℕ → Bool
same_text [] [] = true
same_text [] (d ∷ ds) = false
same_text (c ∷ cs) [] = false
same_text (c ∷ cs) (d ∷ ds) = c == d && same_text cs ds

-- What the source uses of picojson. `member` is `v.get<object>()[key]`; the four readers are
-- `get<std::string>`, `get<bool>`, `get<array>`, and `get<double>` converted to int. A value of
-- another kind is no `ok`. `serialize` is that of an object of strings.
pub record Picojson : Type 1 where
  pub Value : Type 0
  pub parse : List ℕ → Value
  pub member : Value → List ℕ → Outcome Value
  pub get_string : Value → Outcome (List ℕ)
  pub get_bool : Value → Outcome Bool
  pub get_array : Value → Outcome (List Value)
  pub get_int : Value → Outcome ℤ
  pub serialize : List (List ℕ × List ℕ) → List ℕ

-- `IPlayer`: its members, `setRule`, and what `think` answers, the texts that it tweets by the
-- function of `setTweetFunc`, in order, and its members after it.
pub record Player : Type 1 where
  pub Members : Type 0
  pub set_rule : Members → Rule → Members
  pub think : Members → DaifugoContext → Outcome (CardSet × List (List ℕ) × Members)

-- The names in the messages.
abbrev pub kind_key : List ℕ
kind_key = b'K' ∷ b'i' ∷ b'n' ∷ b'd' ∷ []

abbrev pub process_turn : List ℕ
process_turn = b'P' ∷ b'r' ∷ b'o' ∷ b'c' ∷ b'e' ∷ b's' ∷ b's' ∷ b'T' ∷ b'u' ∷ b'r' ∷ b'n' ∷ []

abbrev pub deck_key : List ℕ
deck_key = b'D' ∷ b'e' ∷ b'c' ∷ b'k' ∷ []

abbrev pub yama_key : List ℕ
yama_key = b'Y' ∷ b'a' ∷ b'm' ∷ b'a' ∷ []

abbrev pub is_kakumei_key : List ℕ
is_kakumei_key = b'I' ∷ b's' ∷ b'K' ∷ b'a' ∷ b'k' ∷ b'u' ∷ b'm' ∷ b'e' ∷ b'i' ∷ []

abbrev pub ba_key : List ℕ
ba_key = b'B' ∷ b'a' ∷ []

abbrev pub teban_key : List ℕ
teban_key = b'T' ∷ b'e' ∷ b'b' ∷ b'a' ∷ b'n' ∷ []

abbrev pub player_info_key : List ℕ
player_info_key = b'P' ∷ b'l' ∷ b'a' ∷ b'y' ∷ b'e' ∷ b'r' ∷ b'I' ∷ b'n' ∷ b'f' ∷ b'o' ∷ []

abbrev name_key : List ℕ
name_key = b'N' ∷ b'a' ∷ b'm' ∷ b'e' ∷ []

abbrev having_card_count_key : List ℕ
having_card_count_key =
    b'H' ∷ b'a' ∷ b'v' ∷ b'i' ∷ b'n' ∷ b'g' ∷ b'C' ∷ b'a' ∷ b'r' ∷ b'd' ∷ b'C' ∷ b'o' ∷ b'u' ∷ b'n'
    ∷ b't' ∷ []

abbrev order_of_finish_key : List ℕ
order_of_finish_key =
    b'O' ∷ b'r' ∷ b'd' ∷ b'e' ∷ b'r' ∷ b'O' ∷ b'f' ∷ b'F' ∷ b'i' ∷ b'n' ∷ b'i' ∷ b's' ∷ b'h' ∷ []

abbrev put_kind : List ℕ
put_kind = b'P' ∷ b'u' ∷ b't' ∷ []

abbrev cards_key : List ℕ
cards_key = b'C' ∷ b'a' ∷ b'r' ∷ b'd' ∷ b's' ∷ []

abbrev tweet_kind : List ℕ
tweet_kind = b'T' ∷ b'w' ∷ b'e' ∷ b'e' ∷ b't' ∷ []

abbrev message_key : List ℕ
message_key = b'M' ∷ b'e' ∷ b's' ∷ b's' ∷ b'a' ∷ b'g' ∷ b'e' ∷ []

-- `onOpen`, `onClose` and `onError` do nothing.
unfoldable pub on_open : {M : Type 0} → M → Outcome (List (List ℕ × Bool) × M)
on_open members = ok ([], members)

unfoldable pub on_close : {M : Type 0} → M → Outcome (List (List ℕ × Bool) × M)
on_close members = ok ([], members)

unfoldable pub on_error : {M : Type 0} → M → Outcome (List (List ℕ × Bool) × M)
on_error members = ok ([], members)

module _ (J : Picojson) where
  open J use {Value, parse, member, get_string, get_bool, get_array, get_int, serialize}

  -- `tweet` and `putCard`: the text for `_sendFunc` and its second argument.
  unfoldable pub tweet : List ℕ → List ℕ × Bool
  tweet s = (serialize ((kind_key, tweet_kind) ∷ (message_key, s) ∷ []), false)

  unfoldable pub put_card : List ℕ → List ℕ × Bool
  put_card cards = (serialize ((kind_key, put_kind) ∷ (cards_key, cards) ∷ []), true)

  -- The loop over `Ba`.
  unfoldable pub read_strings : List Value → Outcome (List (List ℕ))
  read_strings [] = ok []
  read_strings (v ∷ vs) = do s ← get_string v; rest ← read_strings vs; ok (s ∷ rest)

  -- The loop over `PlayerInfo`.
  unfoldable pub read_players : List Value → Outcome (List PlayerInfo)
  read_players [] = ok []
  read_players (v ∷ vs) = do
    name ← member v name_key
    name' ← get_string name
    count ← member v having_card_count_key
    count' ← get_int count
    order ← member v order_of_finish_key
    order' ← get_int order
    rest ← read_players vs
    ok (make_player_info name' count' order' ∷ rest)

  -- The part of `onMessage` that makes the context.
  unfoldable pub read_context : Value → Outcome DaifugoContext
  unfolding read_strings read_players make_context
  read_context obj = do
    deck ← member obj deck_key
    deck' ← get_string deck
    yama ← member obj yama_key
    yama' ← get_string yama
    kakumei ← member obj is_kakumei_key
    kakumei' ← get_bool kakumei
    ba ← member obj ba_key
    ba' ← get_array ba
    v_ba ← read_strings ba'
    teban ← member obj teban_key
    teban' ← get_int teban
    players ← member obj player_info_key
    players' ← get_array players
    v_pi ← read_players players'
    make_context deck' teban' v_ba yama' kakumei' v_pi

  -- `onMessage`: the calls of `_sendFunc`, in order, and the player's members.
  unfoldable pub on_message :
      (P : Player) → P.Members → List ℕ → Outcome (List (List ℕ × Bool) × P.Members)
  unfolding read_context tweet put_card
  on_message P members message = do
    let obj = parse message
    kind ← member obj kind_key
    kind' ← get_string kind
    elim (same_text kind' process_turn) [
      | false ↦ ok ([], members)
      | true ↦ do
        ctx ← read_context obj
        answer ← P.think members ctx
        let (hand, tweets, members') = answer
        text ← to_string hand
        ok (map tweet tweets ++ put_card text ∷ [], members')
    ]

  -- The class `Neof5Protocol` with the player that `setPlayer` sets, as a handler.
  abbrev pub neof5_protocol : (P : Player) → Handler P.Members
  neof5_protocol P = record {
    on_open = on_open;
    on_error = on_error;
    on_close = on_close;
    on_message = λ message members. on_message P members message;
  }
