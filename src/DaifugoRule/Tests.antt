-- ===== src/DaifugoRule/Tests.antt =====
-- Runs of the rules at concrete sets.
use neof5client.Base.{◌+◌, ◌^◌, ◌≡◌, arith, ok, ◌↔◌, false, if◌then◌else◌}
use neof5client.Base.Int.{pos, negsuc}
use neof5client.Card.{Card}
use neof5client.CardSet.{CardSet}
use neof5client.DaifugoRule.{
  Rule, rule_b, ChkResult, chk_ok, can_put, can_put_a, can_put_b, can_agari_b, is_kaidan,
  compare_cards,
}
use neof5client.DaifugoRule.Strength.{beats, compare_cards_lem}
use neof5client.DaifugoRule.Legal.{Verdict, LegalPlay, can_put_a_verdict}
use neof5client.DaifugoRule.Staircase.{is_kaidan-false, can_put_b-can_put_a}
use neof5client.DaifugoRule.Finish.{FinishVerdict, can_agari_b_verdict}
use neof5client.DaifugoRule.Play.{can_put_iff}

abbrev ruling : Rule
ruling = record { class = rule_b; is_kakumei = false }

-- Two threes, and a five with the joker.
abbrev two_threes : CardSet
two_threes = record { bits = 3 }

abbrev five_and_joker : CardSet
five_and_joker = record { bits = 2 ^ 52 + 2 ^ 8 }

-- The 3, 4 and 5 of clubs: a staircase.
abbrev stairs : CardSet
stairs = record { bits = 2 ^ 8 + 2 ^ 4 + 1 }

abbrev low : Card
low = record { idx = 0 }

abbrev high : Card
high = record { idx = 8 }

can_put_a_verdict_example :
    (res : ChkResult) × (can_put_a ruling five_and_joker two_threes ≡ ok res)
    × Verdict false five_and_joker two_threes res
can_put_a_verdict_example =
    can_put_a_verdict ruling five_and_joker two_threes (omega arith) (omega arith)

can_put_iff_example :
    (can_put ruling five_and_joker two_threes ≡ ok chk_ok)
    ↔ LegalPlay false five_and_joker two_threes
can_put_iff_example = can_put_iff ruling five_and_joker two_threes (omega arith) (omega arith)

is_kaidan-false_example : is_kaidan stairs ≡ ok false
is_kaidan-false_example = is_kaidan-false stairs (omega arith)

can_put_b-can_put_a_example :
    can_put_b ruling stairs two_threes ≡ can_put_a ruling stairs two_threes
can_put_b-can_put_a_example =
    can_put_b-can_put_a ruling stairs two_threes (omega arith) (omega arith)

compare_cards_lem_example :
    compare_cards ruling low high
    ≡ (if beats false low high then pos 1 else if beats false high low then negsuc 0 else pos 0)
compare_cards_lem_example = compare_cards_lem ruling low high (omega arith) (omega arith)

can_agari_b_verdict_example :
    (res : ChkResult) × (can_agari_b ruling stairs ≡ ok res) × FinishVerdict false stairs res
can_agari_b_verdict_example = can_agari_b_verdict ruling stairs (omega arith)
