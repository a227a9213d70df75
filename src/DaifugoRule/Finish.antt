-- ===== src/DaifugoRule/Finish.antt =====
-- `canAgari`: with which last play a player may go out.
use neof5client.Base.{
  ℕ, ◌≤◌, ◌<◌, ◌≡◌, ◌≢◌, refl, sym, ap, ◌∙◌, Bool, true, false, ltb, ◌↔◌, ◌⊎◌, inl, inr, arith,
  if◌then◌else◌, ok, Bool-cases, List, [], ◌∷◌, length,
}
use neof5client.Card.{Card, get_num, is_joker}
use neof5client.Card.Table.{IsCard, is_joker_lem, get_num_lem}
use neof5client.CardSet.{CardSet, is_empty, has_num_of}
use neof5client.CardSet.Fewer.{Holds, some_card}
use neof5client.CardSet.Members.{IsValid, member}
use neof5client.CardSet.Numbers.{has_num_of_printed}
use neof5client.CardSet.Elements.{elements, size-length}
use neof5client.CardSet.Vector.{is_empty-size, in_cards, in_cards-elements}
use neof5client.CardSet.Joker.{rest_of, extract_rest, rest_of-IsValid, no_joker_left, others_left}
use neof5client.DaifugoRule.{
  Rule, ChkResult, chk_ok, err_joker_agari, err_2_agari, can_agari_a, can_agari_b, can_agari,
  by_class, RuleClass, rule_a, rule_b,
}

-- The number that may not be played last: 2, or 3 during a revolution.
abbrev pub banned : Bool → ℕ
banned kakumei = if kakumei then 3 else 2

abbrev pub FinishVerdict : Bool → CardSet → ChkResult → Type 0
FinishVerdict kakumei s res =
    (((c : Card) → Holds s c → is_joker c ≡ true) × (res ≡ err_joker_agari))
    ⊎ (((c : Card) × Holds s c × (get_num c ≡ banned kakumei)) × (res ≡ err_2_agari))
    ⊎ (((c : Card) × Holds s c × (is_joker c ≡ false))
        × ((c : Card) → Holds s c → get_num c ≢ banned kakumei)
        × (res ≡ chk_ok))

answer :
    (r : Rule) (s : CardSet)
    → can_agari_b r s
      ≡ ok (
          if is_empty (rest_of s)
          then err_joker_agari
          else if has_num_of (rest_of s) (banned r.is_kakumei)
          then err_2_agari
          else chk_ok)
unfolding can_agari_b
answer r s = rw (extract_rest s)

-- A card of the rest is a card of the set, and no joker; and the other way round.
from_rest :
    (s : CardSet) (c : Card) → IsValid s → Holds (rest_of s) c → Holds s c × (is_joker c ≡ false)
from_rest s c v (h, there) = elim (Bool-cases (ltb c.idx 52)) [
  | inl lt ↦
      ((h, sym (others_left s c.idx v (ground arith)) ∙ there), ground (arith, is_joker_lem c h))
  | inr ge ↦
      let top : c.idx ≡ 52 = ground arith in
      absurd (ground (arith, no_joker_left s v, ap (member (rest_of s)) top))
]

to_rest :
    (s : CardSet) (c : Card) → IsValid s → Holds s c → is_joker c ≡ false → Holds (rest_of s) c
to_rest s c v (h, there) plain =
    (h, others_left s c.idx v (ground (arith, is_joker_lem c h)) ∙ there)

no_card : (s : CardSet) → IsValid s → is_empty s ≡ true → (c : Card) → ¬ (Holds s c)
no_card s v e c (h, there) =
    ground (arith, is_empty-size s v, size-length s, counted (elements s) on)
  where
    on : in_cards (elements s) c.idx ≡ true
    on = in_cards-elements s c.idx v ∙ there

    counted : (cs : List Card) → in_cards cs c.idx ≡ true → 0 < length cs
    counted [] q = absurd (unfold in_cards in (cc))
    counted (d ∷ cs) q = omega arith

joker_num : (c : Card) → IsCard c → is_joker c ≡ true → get_num c ≡ 0
joker_num c h j = ground (arith, get_num_lem c h, is_joker_lem c h)

number : (k : Bool) → (1 ≤ banned k) × (banned k ≤ 13)
number true = omega arith
number false = omega arith

-- On a set of the 53 cards `DaifugoRuleB::canAgari` throws nothing. It answers the joker error
-- exactly if the set has no card but the joker, the error of the 2 if it has a 2 (a 3 during a
-- revolution), and OK if it has a card besides the joker and none with that number.
pub can_agari_b_verdict :
    (r : Rule) (s : CardSet)
    → IsValid s
    → (res : ChkResult) × (can_agari_b r s ≡ ok res) × FinishVerdict r.is_kakumei s res
can_agari_b_verdict r s v = elim (Bool-cases (is_empty (rest_of s))) [
  | inl e ↦ (err_joker_agari, answer r s ∙ rw e, inl (only_joker e, refl))
  | inr e ↦ elim (Bool-cases (has_num_of (rest_of s) (banned r.is_kakumei))) [
    | inl h ↦
        let (c, lt, there, num) = on_rest.0 h in
        let (on_s, plain) = from_rest s c v (lt, there) in
        (err_2_agari, answer r s ∙ rw (e, h), inr (inl ((c, on_s, num), refl)))
    | inr h ↦
        let (c, on_rest_of) = some_card (rest_of s) (rest_of-IsValid s v) e in
        let (on_s, plain) = from_rest s c v on_rest_of in
        (chk_ok, answer r s ∙ rw (e, h), inr (inr ((c, on_s, plain), none_banned h, refl)))
  ]
]
  where
    on_rest : (has_num_of (rest_of s) (banned r.is_kakumei) ≡ true) ↔ (
        (c : Card) × IsCard c
        × (member (rest_of s) c.idx ≡ true)
        × (get_num c ≡ banned r.is_kakumei))
    on_rest =
        has_num_of_printed (rest_of s) (banned r.is_kakumei) (rest_of-IsValid s v)
          (number r.is_kakumei).0 (number r.is_kakumei).1

    only_joker : is_empty (rest_of s) ≡ true → (c : Card) → Holds s c → is_joker c ≡ true
    only_joker e c on = elim (Bool-cases (is_joker c)) [
      | inl j ↦ j
      | inr plain ↦ absurd (no_card (rest_of s) (rest_of-IsValid s v) e c (to_rest s c v on plain))
    ]

    none_banned :
        has_num_of (rest_of s) (banned r.is_kakumei) ≡ false
        → (c : Card) → Holds s c
        → get_num c ≢ banned r.is_kakumei
    none_banned h c on num = elim (Bool-cases (is_joker c)) [
      | inl j ↦ omega (arith, joker_num c on.0 j, num, number r.is_kakumei)
      | inr plain ↦
          let (lt, there) = to_rest s c v on plain in ground (arith, on_rest.1 (c, lt, there, num))
    ]

-- Either class answers.
pub can_agari_answers :
    (r : Rule) (s : CardSet) → IsValid s → (res : ChkResult) × (can_agari r s ≡ ok res)
unfolding can_agari
can_agari_answers r s v = go r.class
  where
    go :
        (class : RuleClass)
        → (res : ChkResult) × (by_class class (ok (can_agari_a s)) (can_agari_b r s) ≡ ok res)
    go rule_a = (can_agari_a s, refl)
    go rule_b = let (res, answers, verdict) = can_agari_b_verdict r s v in (res, answers)
