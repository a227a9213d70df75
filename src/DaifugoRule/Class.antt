-- ===== src/DaifugoRule/Class.antt =====
-- The interface IDaifugoRule and the classes DaifugoRuleA and DaifugoRuleB of
-- Neof5Client/jni/neof5/DaifugoRule.hpp, as what a player can call through an `IDaifugoRule*`.
use neof5client.Base.{ℕ, Bool, List, [], ◌∷◌, Option, none, some, Outcome, ok}
use neof5client.Base.Int.{ℤ}
use neof5client.Card.{Card}
use neof5client.CardSet.{CardSet}
use neof5client.DaifugoRule.{
  set_kakumei, Rule, ChkResult, chk_ok, err_different_num, err_count_unmatch, err_invalid_ba,
  err_not_strong, err_joker_agari, err_2_agari, err_not_kaidan, err_ba_isnot_kaidan, compare_cards,
  can_put_a, can_put_b, can_agari_a, can_agari_b, is_kaidan,
}

-- The texts that a `chk_result_t` points to, in UTF-8; OK is a null pointer.
unfoldable pub chk_message : ChkResult → Option (List ℕ)
chk_message chk_ok = none
chk_message err_different_num = some (
    230 ∷ 149 ∷ 176 ∷ 229 ∷ 173 ∷ 151 ∷ 227 ∷ 129 ∷ 140 ∷ 231 ∷ 149 ∷ 176 ∷ 227 ∷ 129 ∷ 170 ∷ 227
    ∷ 130 ∷ 139 ∷ 227 ∷ 130 ∷ 171 ∷ 227 ∷ 131 ∷ 188 ∷ 227 ∷ 131 ∷ 137 ∷ 227 ∷ 129 ∷ 140 ∷ 229 ∷ 144
    ∷ 171 ∷ 227 ∷ 129 ∷ 190 ∷ 227 ∷ 130 ∷ 140 ∷ 227 ∷ 129 ∷ 166 ∷ 227 ∷ 129 ∷ 132 ∷ 227 ∷ 129 ∷ 190
    ∷ 227 ∷ 129 ∷ 153 ∷ 227 ∷ 128 ∷ 130 ∷ [])
chk_message err_count_unmatch = some (
    230 ∷ 158 ∷ 154 ∷ 230 ∷ 149 ∷ 176 ∷ 227 ∷ 129 ∷ 140 ∷ 228 ∷ 184 ∷ 128 ∷ 232 ∷ 135 ∷ 180 ∷ 227
    ∷ 129 ∷ 151 ∷ 227 ∷ 129 ∷ 166 ∷ 227 ∷ 129 ∷ 132 ∷ 227 ∷ 129 ∷ 190 ∷ 227 ∷ 129 ∷ 155 ∷ 227 ∷ 130
    ∷ 147 ∷ 227 ∷ 128 ∷ 130 ∷ [])
chk_message err_invalid_ba = some (
    229 ∷ 188 ∷ 183 ∷ 227 ∷ 129 ∷ 132 ∷ 227 ∷ 130 ∷ 171 ∷ 227 ∷ 131 ∷ 188 ∷ 227 ∷ 131 ∷ 137 ∷ 227
    ∷ 129 ∷ 167 ∷ 227 ∷ 129 ∷ 175 ∷ 227 ∷ 129 ∷ 130 ∷ 227 ∷ 130 ∷ 138 ∷ 227 ∷ 129 ∷ 190 ∷ 227 ∷ 129
    ∷ 155 ∷ 227 ∷ 130 ∷ 147 ∷ 227 ∷ 128 ∷ 130 ∷ [])
chk_message err_not_strong = some (
    229 ∷ 160 ∷ 180 ∷ 227 ∷ 129 ∷ 174 ∷ 227 ∷ 130 ∷ 171 ∷ 227 ∷ 131 ∷ 188 ∷ 227 ∷ 131 ∷ 137 ∷ 227
    ∷ 129 ∷ 140 ∷ 228 ∷ 184 ∷ 141 ∷ 230 ∷ 173 ∷ 163 ∷ 227 ∷ 129 ∷ 167 ∷ 227 ∷ 129 ∷ 153 ∷ 227 ∷ 128
    ∷ 130 ∷ [])
chk_message err_joker_agari = some (
    227 ∷ 130 ∷ 184 ∷ 227 ∷ 131 ∷ 167 ∷ 227 ∷ 131 ∷ 188 ∷ 227 ∷ 130 ∷ 171 ∷ 227 ∷ 131 ∷ 188 ∷ 227
    ∷ 129 ∷ 130 ∷ 227 ∷ 129 ∷ 140 ∷ 227 ∷ 130 ∷ 138 ∷ 227 ∷ 129 ∷ 175 ∷ 231 ∷ 166 ∷ 129 ∷ 230 ∷ 173
    ∷ 162 ∷ 227 ∷ 129 ∷ 167 ∷ 227 ∷ 129 ∷ 153 ∷ 227 ∷ 128 ∷ 130 ∷ [])
chk_message err_2_agari = some (
    239 ∷ 188 ∷ 146 ∷ 227 ∷ 129 ∷ 130 ∷ 227 ∷ 129 ∷ 140 ∷ 227 ∷ 130 ∷ 138 ∷ 40 ∷ 233 ∷ 157 ∷ 169
    ∷ 229 ∷ 145 ∷ 189 ∷ 230 ∷ 153 ∷ 130 ∷ 227 ∷ 129 ∷ 175 ∷ 239 ∷ 188 ∷ 147 ∷ 227 ∷ 129 ∷ 130 ∷ 227
    ∷ 129 ∷ 140 ∷ 227 ∷ 130 ∷ 138 ∷ 239 ∷ 188 ∷ 137 ∷ 231 ∷ 166 ∷ 129 ∷ 230 ∷ 173 ∷ 162 ∷ 227 ∷ 129
    ∷ 167 ∷ 227 ∷ 129 ∷ 153 ∷ 227 ∷ 128 ∷ 130 ∷ [])
chk_message err_not_kaidan = some (
    227 ∷ 130 ∷ 171 ∷ 227 ∷ 131 ∷ 188 ∷ 227 ∷ 131 ∷ 137 ∷ 227 ∷ 129 ∷ 140 ∷ 233 ∷ 154 ∷ 142 ∷ 230
    ∷ 174 ∷ 181 ∷ 227 ∷ 129 ∷ 167 ∷ 227 ∷ 129 ∷ 170 ∷ 227 ∷ 129 ∷ 132 ∷ 227 ∷ 128 ∷ 130 ∷ [])
chk_message err_ba_isnot_kaidan = some (
    229 ∷ 160 ∷ 180 ∷ 227 ∷ 129 ∷ 140 ∷ 233 ∷ 154 ∷ 142 ∷ 230 ∷ 174 ∷ 181 ∷ 227 ∷ 129 ∷ 167 ∷ 227
    ∷ 129 ∷ 170 ∷ 227 ∷ 129 ∷ 132 ∷ 227 ∷ 128 ∷ 130 ∷ [])

-- `IDaifugoRule`: the member `_isKakumei`, `setKakumei` and the virtual functions, on the members of
-- the object behind the pointer.
pub record IDaifugoRule : Type 1 where
  pub Members : Type 0
  pub is_kakumei : Members → Bool
  pub set_kakumei : Members → Bool → Members
  pub compare_cards : Members → Card → Card → ℤ
  pub can_put : Members → CardSet → CardSet → Outcome ChkResult
  pub can_agari : Members → CardSet → Outcome ChkResult

-- `DaifugoRuleA`: the three functions that it overrides.
abbrev pub daifugo_rule_a : IDaifugoRule
daifugo_rule_a = record {
  Members = Rule;
  is_kakumei = λ rule. rule.is_kakumei;
  set_kakumei = set_kakumei;
  compare_cards = compare_cards;
  can_put = can_put_a;
  can_agari = λ rule cards. ok (can_agari_a cards);
}

-- `DaifugoRuleB` on the base `DaifugoRuleA`, of which it has `compareCards`; its own `canPut` and
-- `canAgari`, and the new `isKaidan`.
pub record DaifugoRuleB : Type 1 where
  pub base : IDaifugoRule
  pub is_kaidan : base.Members → CardSet → Outcome Bool

abbrev pub daifugo_rule_b : DaifugoRuleB
daifugo_rule_b = record {
  base = record daifugo_rule_a { can_put = can_put_b; can_agari = can_agari_b };
  is_kaidan = λ rule. is_kaidan;
}
