-- ===== src/Client/Tests.antt =====
-- Runs of the two programs, with the sample of the protocol, in which every message is a turn.
use neof5client.Base.{
  ℕ, ◌≡◌, refl, true, false, List, [], ◌∷◌, none, some, undefined, arith, inl, length, ◌⊎◌,
  if◌then◌else◌, leb,
}
use neof5client.Base.Int.{pos}
use neof5client.DaifugoRule.{Rule, rule_a}
use neof5client.EvalNode.Tests.{whole}
use neof5client.Neof5Protocol.{on_message}
use neof5client.Neof5Protocol.Tests.{sample, turn, sample-IsTurn, turn_fits}
use neof5client.SagePlayer.Answer.{Slow}
use neof5client.SagePlayer.Estimates.{ExactUpTo64}
use neof5client.SagePlayer.Class.{sage_player}
use neof5client.SagePlayer.Search.{Sage as SageMembers}
use neof5client.SagePlayer.Tests.{planned}
use neof5client.WsThread.{Round, client_established, client_receive, client_writeable}
use neof5client.WsThread.Serve.{ExpectedRounds}
use neof5client.Client.{Library, Jni}
use neof5client.Client.Poor.{Expected, IsPlayable}
use neof5client.Client.Sage.{SageReply, AnyMessage, sage_turn_answered}

-- The frames of the sample are the words Put and Tweet.
abbrev put : List ℕ
put = b'P' ∷ b'u' ∷ b't' ∷ []

-- A connection is made, and then a turn is delivered, and the socket is writeable.
abbrev two_rounds : List Round
two_rounds =
    record { signals = []; events = client_established ∷ []; n = pos 0; connects = true }
    ∷ record {
      signals = [];
      events = client_receive [] ∷ client_writeable ∷ [];
      n = pos 0;
      connects = true;
    }
    ∷ []

abbrev library : Library
library = record {
  write = λ handed bytes. pos (length bytes);
  create_context = λ protocols. true;
  rounds = λ host port path. two_rounds;
}

abbrev word : List ℕ
word = b'h' ∷ b'i' ∷ []

abbrev runtime : Jni
runtime = record { Jstring = List ℕ; get_string_utf_chars = λ call s. some s; forced = false }

-- A runtime without memory for the second string.
abbrev poor_runtime : Jni
poor_runtime = record {
  Jstring = List ℕ;
  get_string_utf_chars = λ call s. if leb call 0 then some s else none;
  forced = false;
}

abbrev unset : Rule
unset = record { class = rule_a; is_kakumei = false }

abbrev sample-IsPlayable : IsPlayable sample []
sample-IsPlayable = record { ctx = turn; turn = sample-IsTurn; fits = turn_fits }

abbrev turn_expected : ExpectedRounds (Expected sample) false two_rounds
turn_expected = ((tt, tt), (((refl, inl sample-IsPlayable), (tt, tt)), tt))

whole-exact : ExactUpTo64 whole
whole-exact = λ a b la lb. (refl, refl)

-- A clock that stands still.
abbrev still : ℕ → ℕ
still k = 0

-- The words of the command line: the program, the rule A, and the port 80.
abbrev rule_word : List ℕ
rule_word = b'A' ∷ []

abbrev port_word : List ℕ
port_word = b'8' ∷ b'0' ∷ []

abbrev message_expected :
    ExpectedRounds (AnyMessage whole whole-exact still (λ i. i) (λ k. k) sample) false two_rounds
message_expected = ((tt, tt), (((refl, inl (turn, sample-IsTurn)), (tt, tt)), tt))

abbrev words : List (List ℕ)
words = word ∷ rule_word ∷ word ∷ port_word ∷ word ∷ []

-- The player has saved a hand that it does not hold in this turn.
sage_turn_answered_example :
    SageReply whole
      (λ a b la lb. (refl, refl))
      (λ k. k)
      (λ i. i)
      (λ k. k)
      sample
      turn
      (on_message sample (sage_player whole (λ k. k) (λ i. i) (λ k. k)) planned [])
    ⊎ ((on_message sample (sage_player whole (λ k. k) (λ i. i) (λ k. k)) planned [] ≡ undefined)
        × Slow (λ k. k) 0)
sage_turn_answered_example =
    sage_turn_answered whole (λ a b la lb. (refl, refl)) (λ k. k) (λ i. i) (λ k. k) sample planned
      [] turn sample-IsTurn (omega arith, refl)
