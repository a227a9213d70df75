-- ===== src/DaifugoRule/Play.antt =====
-- The virtual `canPut`, of a rule object of either class.
use neof5client.Base.{◌≡◌, ◌↔◌, ◌∙◌, sym, ok, true, arith}
use neof5client.CardSet.{CardSet}
use neof5client.CardSet.Members.{IsValid}
use neof5client.DaifugoRule.{Rule, ChkResult, chk_ok, can_put, can_put_a, is_ok}
use neof5client.DaifugoRule.Legal.{LegalPlay, can_put_a_verdict, can_put_a_iff}
use neof5client.DaifugoRule.Staircase.{can_put_b-can_put_a}

-- Both classes answer as class A does.
pub can_put-can_put_a :
    (r : Rule) (cards ba_last : CardSet)
    → IsValid cards
    → IsValid ba_last
    → can_put r cards ba_last ≡ can_put_a r cards ba_last
unfolding can_put
can_put-can_put_a r cards ba_last v w = ground (arith, can_put_b-can_put_a r cards ba_last v w)

-- For two sets of the 53 cards, `canPut` of a rule object of either class answers OK exactly for
-- a legal play: a pass, or a set of one rank that opens, or that takes the lead with as many
-- cards.
pub can_put_iff :
    (r : Rule) (cards ba_last : CardSet)
    → IsValid cards
    → IsValid ba_last
    → (can_put r cards ba_last ≡ ok chk_ok) ↔ LegalPlay r.is_kakumei cards ba_last
can_put_iff r cards ba_last v w = (
  λ h. (can_put_a_iff r cards ba_last v w).0 (sym (can_put-can_put_a r cards ba_last v w) ∙ h),
  λ l. can_put-can_put_a r cards ba_last v w ∙ (can_put_a_iff r cards ba_last v w).1 l,
)

pub can_put_answers :
    (r : Rule) (cards ba_last : CardSet)
    → IsValid cards
    → IsValid ba_last
    → (res : ChkResult) × (can_put r cards ba_last ≡ ok res)
can_put_answers r cards ba_last v w =
    let (res, answers, verdict) = can_put_a_verdict r cards ba_last v w in
    (res, can_put-can_put_a r cards ba_last v w ∙ answers)

pub is_ok_lem : (res : ChkResult) → is_ok res ≡ true → res ≡ chk_ok
is_ok_lem res h = ground arith
