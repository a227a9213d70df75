-- ===== src/SagePlayer/Class.antt =====
-- The class SagePlayer of Neof5Client/jni/neof5/SagePlayer.hpp as an `IPlayer`. The clock, the
-- addresses of nodes and the random numbers are parameters.
use neof5client.Base.{ℕ, Bool, Option, List, [], ◌∷◌, map, Outcome, ok, ◌>>=◌}
use neof5client.CardSet.{CardSet, empty_set}
use neof5client.DaifugoRule.{Rule}
use neof5client.DaifugoContext.{DaifugoContext}
use neof5client.Double.{Double}
use neof5client.EvalNode.{Heap}
use neof5client.SagePlayer.{enumerate_available_hands, gen_all_combination}
use neof5client.SagePlayer.Search.{
  Sage, Tweet, mazui_nou, hore, washi_no_kachi_ja, hoho, mumuu, jikan_ga_nai,
}
use neof5client.SagePlayer.Potential.{calc_potential_to_be_fightback}
use neof5client.SagePlayer.Level.{think_recursive}
use neof5client.SagePlayer.Entry.{think, think2}
use neof5client.Neof5Protocol.{Player}

-- The texts of the tweets, in UTF-8.
unfoldable pub tweet_text : Tweet → List ℕ
tweet_text mazui_nou =
    227 ∷ 129 ∷ 190 ∷ 227 ∷ 129 ∷ 154 ∷ 227 ∷ 129 ∷ 132 ∷ 227 ∷ 129 ∷ 174 ∷ 227 ∷ 129 ∷ 134 ∷ 227
    ∷ 128 ∷ 130 ∷ 227 ∷ 128 ∷ 130 ∷ 227 ∷ 128 ∷ 130 ∷ []
tweet_text hore = 227 ∷ 129 ∷ 187 ∷ 227 ∷ 130 ∷ 140 ∷ 227 ∷ 129 ∷ 163 ∷ 239 ∷ 188 ∷ 129 ∷ []
tweet_text washi_no_kachi_ja =
    227 ∷ 130 ∷ 143 ∷ 227 ∷ 129 ∷ 151 ∷ 227 ∷ 129 ∷ 174 ∷ 229 ∷ 139 ∷ 157 ∷ 227 ∷ 129 ∷ 161 ∷ 227
    ∷ 129 ∷ 152 ∷ 227 ∷ 130 ∷ 131 ∷ 239 ∷ 188 ∷ 129 ∷ []
tweet_text hoho = 227 ∷ 129 ∷ 187 ∷ 227 ∷ 129 ∷ 187 ∷ 227 ∷ 129 ∷ 163 ∷ 239 ∷ 188 ∷ 129 ∷ []
tweet_text mumuu = 227 ∷ 130 ∷ 128 ∷ 227 ∷ 130 ∷ 128 ∷ 227 ∷ 129 ∷ 133 ∷ []
tweet_text jikan_ga_nai =
    227 ∷ 129 ∷ 144 ∷ 227 ∷ 129 ∷ 144 ∷ 227 ∷ 128 ∷ 129 ∷ 230 ∷ 153 ∷ 130 ∷ 233 ∷ 150 ∷ 147 ∷ 227
    ∷ 129 ∷ 140 ∷ 227 ∷ 129 ∷ 170 ∷ 227 ∷ 129 ∷ 132 ∷ 227 ∷ 128 ∷ 130 ∷ 227 ∷ 128 ∷ 130 ∷ 227 ∷ 128
    ∷ 130 ∷ []

-- The constructor sets the saved hands only, and the set of cards is empty by its own constructor.
-- The rule, and what lies in the double, are not set.
abbrev pub new_sage : {R : Type 0} → Rule → R → Sage R
new_sage unset_rule unset_double = record {
  saved_hands_tree = [];
  hand_potential_max = unset_double;
  not_appears_cards = empty_set;
  rule = unset_rule;
  tweets = [];
  clock_reads = 0;
  draws = 0;
}

module _ (D : Double) (clock : ℕ → ℕ) (address : ℕ → ℕ) (random : ℕ → ℕ) where
  open D use {R}

  -- A field for each member function. What `_calcPotentialToBeFightback` reads of the members,
  -- and the rounds of the search, are arguments.
  pub record SagePlayerClass : Type 0 where
    pub new_sage : Rule → R → Sage R
    pub enumerate_available_hands :
        Rule → List CardSet → CardSet → CardSet → Bool → Outcome (List CardSet × Rule)
    pub gen_all_combination :
        ℕ → Rule → List CardSet → CardSet → CardSet → CardSet → Outcome (List CardSet)
    pub calc_potential_to_be_fightback : R → CardSet → DaifugoContext → CardSet → Bool → Outcome R
    pub think_recursive :
        ℕ
        → ℕ
        → DaifugoContext
        → CardSet
        → List ℕ
        → Heap R
        → Sage R
        → Outcome (Option ℕ × Heap R × Sage R)
    pub think2 : DaifugoContext → CardSet → Sage R → Outcome (CardSet × Sage R)
    pub think : DaifugoContext → Sage R → Outcome (CardSet × Sage R)
    pub set_rule : Sage R → Rule → Sage R

  abbrev pub sage_player_class : SagePlayerClass
  sage_player_class = record {
    new_sage = new_sage;
    enumerate_available_hands = enumerate_available_hands;
    gen_all_combination = gen_all_combination;
    calc_potential_to_be_fightback = calc_potential_to_be_fightback D;
    think_recursive = think_recursive D clock address;
    think2 = think2 D clock address random;
    think = think D clock address random;
    set_rule = λ s rule. record s { rule = rule };
  }

  -- A call of `think` with the texts that it tweets.
  abbrev think_and_tweet : Sage R → DaifugoContext → Outcome (CardSet × List (List ℕ) × Sage R)
  think_and_tweet s ctx = do
    answer ← sage_player_class.think ctx (record s { tweets = [] })
    ok (answer.0, map tweet_text answer.1.tweets, answer.1)

  abbrev pub sage_player : Player
  sage_player = record {
    Members = Sage R;
    set_rule = sage_player_class.set_rule;
    think = think_and_tweet;
  }
