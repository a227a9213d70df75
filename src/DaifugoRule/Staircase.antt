-- ===== src/DaifugoRule/Staircase.antt =====
-- `_isKaidan` and the part of `DaifugoRuleB::canPut` that rests on it. Two cards of one suit and
-- neighbouring ranks stand four apart in the table, and `_isKaidan` asks for a distance of one, or
-- of two with the joker: no set passes.
use neof5client.Base.{
  ℕ, zero, suc, ◌+◌, ◌*◌, ◌/◌, ◌%◌, ◌≤◌, ◌<◌, ◌≡◌, refl, sym, ap, subst, ◌∙◌, Bool, true, false,
  ◌==◌, ltb, inl, inr, arith, if◌then◌else◌, Option, none, some, ok, Bool-cases, ==_iff, List, [],
  ◌∷◌, length, holds_below, row_of,
}
use neof5client.Base.Bits.{test_bit, test_bit_lowest, test_bit_next}
use neof5client.Base.Int.{pos}
use neof5client.Card.{Card, suit_value, get_suit, compare_to}
use neof5client.Card.Table.{row_card}
use neof5client.DaifugoRule.Legal.{can_put_a_verdict}
use neof5client.CardSet.{CardSet, is_empty, size, conv2_vector}
use neof5client.CardSet.Members.{IsValid, member, member_above}
use neof5client.CardSet.Joker.{
  rest_of, jokers_of, extract_rest, rest_of-IsValid, no_joker_left, others_left,
}
use neof5client.CardSet.Elements.{indices, elements, size-length, conv2_vector_lem, length-map_card}
use neof5client.CardSet.Vector.{Ascending, elements-Ascending, in_cards-elements, in_cards}
use neof5client.DaifugoRule.{
  Rule, ChkResult, same_suit, all_of_suit, steps_loop, sort_cards, is_kaidan_list, is_kaidan,
  can_put_a, can_put_b, can_put_kaidan, is_ok,
}
use neof5client.DaifugoRule.Sorting.{sort-Ascending}

suit_values :
    holds_below (λ i. suit_value (get_suit (row_card i)) == 0x20 + 0x10 * (i % 4)) 52 ≡ true
unfolding holds_below get_suit
suit_values = refl

suit_of_place : (c : Card) → c.idx < 52 → suit_value (get_suit c) ≡ 0x20 + 0x10 * (c.idx % 4)
suit_of_place c h = (==_iff _ _).0 (row_of _ 52 c.idx suit_values h)

-- Two cards of one suit, neither the joker, are at least four apart.
same_suit_apart :
    (c d : Card) → c.idx < d.idx → d.idx < 52 → same_suit c d ≡ true → c.idx + 4 ≤ d.idx
same_suit_apart c d lt high h = ground (arith, suit_of_place c (omega arith), suit_of_place d high)

-- A first step of four or more is refused, with or without the joker.
wide_step :
    (has_joker : ℕ) (c d : Card) (cs : List Card)
    → has_joker ≤ 1
    → c.idx + 4 ≤ d.idx
    → steps_loop has_joker (pos 0) (c ∷ d ∷ cs) ≡ false
unfolding steps_loop compare_to
wide_step has_joker c d cs h far = ground arith

length-indices :
    (n b i : ℕ)
    → length (indices (suc n) b i) ≡ (
        if b % 2 == 1
        then suc (length (indices n (b / 2) (i + 1)))
        else length (indices n (b / 2) (i + 1)))
unfolding indices
length-indices n b i = ground arith

-- The last place adds one element or none.
length-indices-suc :
    (n b i : ℕ)
    → length (indices (suc n) b i) ≡ length (indices n b i) + (if test_bit b n then 1 else 0)
length-indices-suc zero b i = first_place
  where
    first_place : length (indices 1 b i) ≡ length (indices 0 b i) + (if test_bit b 0 then 1 else 0)
    first_place = unfold indices in ground (arith, test_bit_lowest b)
length-indices-suc (suc n) b i = ground (
  arith,
  length-indices (suc n) b i,
  length-indices n b i,
  test_bit_next b n,
  length-indices-suc n (b / 2) (i + 1),
)

indices_agree :
    (n a b i : ℕ) → ((j : ℕ) → j < n → test_bit a j ≡ test_bit b j) → indices n a i ≡ indices n b i
unfolding indices
indices_agree zero a b i h = refl
indices_agree (suc n) a b i h = ground (
  arith,
  test_bit_lowest a,
  test_bit_lowest b,
  h 0 (omega arith),
  indices_agree n (a / 2) (b / 2) (i + 1)
      (λ j lt. sym (test_bit_next a j) ∙ h (suc j) (omega arith) ∙ test_bit_next b j),
)

at_most_one : (b : Bool) → (if b then 1 else 0) ≤ 1
at_most_one true = omega arith
at_most_one false = omega arith

pair_eq : (p : Bool × Option (List Card)) → p.0 ≡ false → p ≡ (false, p.1)
pair_eq (b, l) h = ground arith

size-rest_of : (s : CardSet) → IsValid s → size s ≤ length (elements (rest_of s)) + 1
unfolding elements
size-rest_of s v = omega (
  arith,
  size-length s,
  length-map_card (indices 53 s.bits 0),
  length-map_card (indices 53 (rest_of s).bits 0),
  length-indices-suc 52 s.bits 0,
  length-indices-suc 52 (rest_of s).bits 0,
  ap length same,
  at_most_one (test_bit s.bits 52),
)
  where
    same : indices 52 s.bits 0 ≡ indices 52 (rest_of s).bits 0
    same =
        indices_agree 52 s.bits (rest_of s).bits 0
          (λ j lt. unfold member in sym (others_left s j v lt))

-- `_isKaidan` on a set of three or more, after the joker is taken out.
low_cards :
    (s : CardSet) (c : Card) → IsValid s → in_cards (elements (rest_of s)) c.idx ≡ true → c.idx < 52
low_cards s c v on = ground (
  arith,
  in_cards-elements (rest_of s) c.idx (rest_of-IsValid s v),
  no_joker_left s v,
  member_above (rest_of s) c.idx (rest_of-IsValid s v),
)

abbrev tested : ℕ → Card → List Card → Bool × Option (List Card)
tested jokers first cs =
    if all_of_suit first cs
    then (steps_loop jokers (pos 0) (sort_cards cs), some (sort_cards cs))
    else (false, some cs)

-- The test fails on any ascending list of two or more of the cards below the joker.
tested-false :
    (jokers : ℕ) (c d : Card) (cs : List Card)
    → jokers ≤ 1
    → d.idx < 52
    → Ascending 0 (c ∷ d ∷ cs)
    → (tested jokers c (c ∷ d ∷ cs)).0 ≡ false
tested-false jokers c d cs one low a = elim (Bool-cases (all_of_suit c (c ∷ d ∷ cs))) [
  | inr e ↦ rw e
  | inl e ↦
      rw (e, sort-Ascending 0 (c ∷ d ∷ cs) a)
        (wide_step jokers c d cs one
          (same_suit_apart c d (omega arith) low (unfold all_of_suit in ground arith)))
]

is_kaidan_list-large :
    (s : CardSet) (c : Card) (cs : List Card)
    → ltb (size s) 3 ≡ false
    → conv2_vector (rest_of s) ≡ ok (c ∷ cs)
    → is_kaidan_list s ≡ ok (tested (jokers_of s) c (c ∷ cs))
unfolding is_kaidan_list
is_kaidan_list-large s c cs h e = rw (h, extract_rest s, e) (ground arith)

is_kaidan_list-small : (s : CardSet) → ltb (size s) 3 ≡ true → is_kaidan_list s ≡ ok (false, none)
unfolding is_kaidan_list
is_kaidan_list-small s h = rw h

pub is_kaidan_list-false :
    (s : CardSet) → IsValid s → (l : Option (List Card)) × (is_kaidan_list s ≡ ok (false, l))
is_kaidan_list-false s v = elim (Bool-cases (ltb (size s) 3)) [
  | inl h ↦ (none, is_kaidan_list-small s h)
  | inr h ↦ go h (elements (rest_of s)) refl
]
  where
    go :
        ltb (size s) 3 ≡ false
        → (cs : List Card) → elements (rest_of s) ≡ cs
        → (l : Option (List Card)) × (is_kaidan_list s ≡ ok (false, l))
    go h [] e = absurd (ground (arith, size-rest_of s v, ap length e))
    go h (c ∷ []) e = absurd (ground (arith, size-rest_of s v, ap length e))
    go h (c ∷ d ∷ cs) e =
        let ascends : Ascending 0 (c ∷ d ∷ cs) =
          subst (Ascending 0) e (elements-Ascending (rest_of s)) in
        let on : in_cards (elements (rest_of s)) d.idx ≡ true =
          ap (λ l. in_cards l d.idx) e ∙ unfold in_cards in ground arith in
        let listed : conv2_vector (rest_of s) ≡ ok (c ∷ d ∷ cs) =
          conv2_vector_lem (rest_of s) (rest_of-IsValid s v) ∙ ap ok e in
        let fails : (tested (jokers_of s) c (c ∷ d ∷ cs)).0 ≡ false =
          tested-false (jokers_of s) c d cs (at_most_one (member s 52)) (low_cards s d v on)
            ascends in
        (
          (tested (jokers_of s) c (c ∷ d ∷ cs)).1,
          is_kaidan_list-large s c (d ∷ cs) h listed ∙ ap ok (pair_eq _ fails),
        )

-- For every set of the 53 cards `isKaidan` returns false: no staircase is recognised.
pub is_kaidan-false : (s : CardSet) → IsValid s → is_kaidan s ≡ ok false
unfolding is_kaidan
is_kaidan-false s v = let (l, e) = is_kaidan_list-false s v in rw e

can_put_kaidan-same :
    (r : Rule) (ret : ChkResult) (cards ba_last : CardSet) (l m : Option (List Card))
    → is_kaidan_list cards ≡ ok (false, l)
    → is_kaidan_list ba_last ≡ ok (false, m)
    → can_put_kaidan r ret cards ba_last ≡ ok ret
unfolding can_put_kaidan
can_put_kaidan-same r ret cards ba_last l m h k = elim (Bool-cases (is_empty ba_last)) [
  | inl e ↦ rw (e, can_put_kaidan) (rw h refl)
  | inr e ↦ rw (e, can_put_kaidan) (rw (k, h) refl)
]

-- On sets of the 53 cards `DaifugoRuleB::canPut` gives the answer of `DaifugoRuleA::canPut`.
pub can_put_b-can_put_a :
    (r : Rule) (cards ba_last : CardSet)
    → IsValid cards
    → IsValid ba_last
    → can_put_b r cards ba_last ≡ can_put_a r cards ba_last
unfolding can_put_b
can_put_b-can_put_a r cards ba_last v w =
    let (res, answers, verdict) = can_put_a_verdict r cards ba_last v w in
    let (l, h) = is_kaidan_list-false cards v in
    let (m, k) = is_kaidan_list-false ba_last w in
    rw answers (either (is_ok res) res (can_put_kaidan-same r res cards ba_last l m h k))
  where
    either :
        (b : Bool) (res : ChkResult)
        → can_put_kaidan r res cards ba_last ≡ ok res
        → (if b then ok res else can_put_kaidan r res cards ba_last) ≡ ok res
    either true res e = refl
    either false res e = e
