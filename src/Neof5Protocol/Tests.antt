-- ===== src/Neof5Protocol/Tests.antt =====
-- A turn that a PoorPlayer answers, with a small JSON reader.
use neof5client.Base.{
  ℕ, ◌+◌, ◌-◌, ◌^◌, ◌≤◌, ◌≡◌, refl, Bool, true, false, List, [], ◌∷◌, map, Outcome, ok, undefined,
  arith, if◌then◌else◌,
}
use neof5client.Base.Int.{ℤ, pos}
use neof5client.Card.{calc_card_id_from_string}
use neof5client.CardSet.{CardSet, size, has_set, from_text, to_string}
use neof5client.DaifugoRule.{Rule, rule_a}
use neof5client.DaifugoContext.{DaifugoContext, ba_last, make_context}
use neof5client.PoorPlayer.{play_size}
use neof5client.PoorPlayer.Think.{FirstLegal}
use neof5client.PoorPlayer.SortedHand.{sorted_hand}
use neof5client.Neof5Protocol.{
  Picojson, same_text, kind_key, process_turn, deck_key, yama_key, is_kakumei_key, ba_key,
  teban_key, player_info_key, put_card, read_context, on_message,
}
use neof5client.Neof5Protocol.Turn.{poor_player, IsTurn, turn_answered}

-- The object of the turn, and what its members are.
pub data Sample : Type 0 where
  turn_object : Sample
  text : List ℕ → Sample
  texts : List (List ℕ) → Sample
  flag : Bool → Sample
  number : ℤ → Sample

abbrev pub sample_member : Sample → List ℕ → Outcome Sample
sample_member turn_object key =
    if same_text key kind_key
    then ok (text process_turn)
    else if same_text key deck_key
    then ok (text (b'C' ∷ b'3' ∷ b' ' ∷ b'J' ∷ b'K' ∷ []))
    else if same_text key yama_key
    then ok (text [])
    else if same_text key is_kakumei_key
    then ok (flag false)
    else if same_text key ba_key
    then ok (texts ((b'C' ∷ b'4' ∷ []) ∷ []))
    else if same_text key teban_key
    then ok (number (pos 2))
    else if same_text key player_info_key
    then ok (texts [])
    else undefined
sample_member v key = undefined

abbrev pub sample_string : Sample → Outcome (List ℕ)
sample_string (text s) = ok s
sample_string v = undefined

abbrev pub sample_bool : Sample → Outcome Bool
sample_bool (flag b) = ok b
sample_bool v = undefined

abbrev pub sample_array : Sample → Outcome (List Sample)
sample_array (texts l) = ok (map text l)
sample_array v = undefined

abbrev pub sample_int : Sample → Outcome ℤ
sample_int (number n) = ok n
sample_int v = undefined

abbrev pub sample_serialize : List (List ℕ × List ℕ) → List ℕ
sample_serialize [] = []
sample_serialize ((key, s) ∷ rest) = s

abbrev pub sample : Picojson
sample = record {
  Value = Sample;
  parse = λ message. turn_object;
  member = sample_member;
  get_string = sample_string;
  get_bool = sample_bool;
  get_array = sample_array;
  get_int = sample_int;
  serialize = sample_serialize;
}

abbrev ruling : Rule
ruling = record { class = rule_a; is_kakumei = false }

abbrev pub turn : DaifugoContext
turn = record {
  deck = record { bits = 2 ^ 52 + 1 };
  teban = pos 2;
  ba = record { bits = 2 ^ 4 } ∷ [];
  yama = record { bits = 0 };
  is_kakumei = false;
  player_info = [];
}

reads_turn : read_context sample turn_object ≡ ok turn
unfolding read_context from_text calc_card_id_from_string make_context
reads_turn = refl

pub sample-IsTurn : IsTurn sample [] turn
sample-IsTurn = record {
  kind = text process_turn;
  has_kind = refl;
  named = refl;
  reads = reads_turn;
}

pub turn_fits : play_size turn ≤ size turn.deck + 1
unfolding size
turn_fits = omega arith

turn_answered_example :
    (text : List ℕ) × (cards : CardSet) × (rule' : Rule) × (on_message sample poor_player ruling []
      ≡ ok (put_card sample text ∷ [], rule'))
    × (to_string cards ≡ ok text)
    × (from_text text ≡ ok cards)
    × (has_set turn.deck cards ≡ true)
    × FirstLegal
        (sorted_hand turn)
        (play_size turn)
        0
        (size turn.deck + 1 - play_size turn)
        turn.is_kakumei
        (ba_last turn)
        cards
turn_answered_example = turn_answered sample ruling [] turn sample-IsTurn turn_fits
