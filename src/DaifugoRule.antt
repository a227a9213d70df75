-- ===== src/DaifugoRule.antt =====
-- Neof5Client/jni/neof5/DaifugoRule.hpp and DaifugoRule.cpp: the two rule classes. `Rule` is an
-- object of one of them: its class and its field `_isKakumei`. The virtual functions choose by the
-- class; a function of `DaifugoRuleA` that `DaifugoRuleB` does not override serves both.
pub mod Strength
pub mod Sorting
pub mod Staircase
pub mod Play
pub mod LeadOf
pub mod FirstCard
pub mod Legal
pub mod Finish
pub mod Class
pub mod Tests
use neof5client.Base.{
  ℕ, zero, suc, ◌+◌, ◌-◌, ◌≤◌, Bool, true, false, not, ◌&&◌, ◌||◌, List, [], ◌∷◌, ◌++◌, ltb, leb,
  ◌==◌, if◌then◌else◌, Outcome, ok, thrown, undefined, ◌>>=◌, Option, none, some, length, get_elem?,
  std_out_of_range,
}
use neof5client.Base.Int.{ℤ, pos, negsuc, ◌-ℤ◌, ◌+ℤ◌, leb_ℤ, ltb_ℤ, is_zero}
use neof5client.Card.{
  Card, Suit, suit_value, get_num, get_suit, is_joker, gt_card, lt_card, compare_to,
}
use neof5client.CardSet.{CardSet, size, at, is_empty, extract_joker, conv2_vector, has_num_of}

pub data RuleClass : Type 0 where
  rule_a rule_b : RuleClass

pub record Rule : Type 0 where
  pub class : RuleClass
  pub is_kakumei : Bool

-- `chk_result_t`: a null pointer, or one of the eight messages.
pub data ChkResult : Type 0 where
  chk_ok : ChkResult
  err_different_num err_count_unmatch err_invalid_ba err_not_strong : ChkResult
  err_joker_agari err_2_agari err_not_kaidan err_ba_isnot_kaidan : ChkResult

abbrev pub is_ok : ChkResult → Bool
is_ok chk_ok = true
is_ok _ = false

unfoldable pub set_kakumei : Rule → Bool → Rule
set_kakumei r k = record r { is_kakumei = k }

-- The loop of `_tryGetFirstCard`, with the rounds left: `check` is the first card that is no
-- joker. `none` is the return of false.
unfoldable pub first_card_loop : CardSet → ℕ → ℕ → Option Card → Outcome (Option (Option Card))
first_card_loop cards zero i check = ok (some check)
first_card_loop cards (suc left) i check = do
  c ← at cards i
  elim (is_joker c) [
    | true ↦ first_card_loop cards left (i + 1) check
    | false ↦ elim check [
      | none ↦ first_card_loop cards left (i + 1) (some c)
      | some d ↦ elim (get_num d == get_num c) [
        | true ↦ first_card_loop cards left (i + 1) (some d)
        | false ↦ ok none
      ]
    ]
  ]

-- `_tryGetFirstCard`: `none` is false; `some` holds what the buffer is set to, a null pointer if
-- no card was chosen.
unfoldable pub try_get_first_card : CardSet → Outcome (Option (Option Card))
unfolding first_card_loop
try_get_first_card cards = elim (size cards == 0) [
  | true ↦ ok none
  | false ↦ elim (size cards == 1) [
    | true ↦ do c ← at cards 0; ok (some (some c))
    | false ↦ first_card_loop cards (size cards) 0 none
  ]
]

-- `*buff`: reading through the pointer is undefined if it is null.
abbrev pub deref : Option Card → Outcome Card
deref none = undefined
deref (some c) = ok c

-- `compareCards(a, b)`.
unfoldable pub compare_cards : Rule → Card → Card → ℤ
unfolding ◌-ℤ◌
compare_cards r a b =
    if get_num a == get_num b
    then pos 0
    else if is_joker a
    then negsuc 0
    else if is_joker b
    then pos 1
    else let ret = if gt_card a b then negsuc 0 else pos 1 in
      if r.is_kakumei then pos 0 -ℤ ret else ret

-- `DaifugoRuleA::canPut`.
unfoldable pub can_put_a : Rule → CardSet → CardSet → Outcome ChkResult
unfolding compare_cards
can_put_a r cards ba_last = if is_empty cards then ok chk_ok else do
  first ← try_get_first_card cards
  elim first [
    | none ↦ ok err_different_num
    | some first_card ↦
        if is_empty ba_last
        then ok chk_ok
        else if not (size ba_last == size cards)
        then ok err_count_unmatch
        else do
          ba ← try_get_first_card ba_last
          elim ba [
            | none ↦ ok err_invalid_ba
            | some ba_card ↦ do
              b ← deref ba_card
              c ← deref first_card
              ok (if leb_ℤ (compare_cards r b c) (pos 0) then err_not_strong else chk_ok)
          ]
  ]

-- `DaifugoRuleA::canAgari`.
unfoldable pub can_agari_a : CardSet → ChkResult
can_agari_a cards = chk_ok

-- `std::sort` by `<`, as an insertion sort.
unfoldable pub insert_card : Card → List Card → List Card
insert_card c [] = c ∷ []
insert_card c (d ∷ ds) = if lt_card d c then d ∷ insert_card c ds else c ∷ d ∷ ds

unfoldable pub sort_cards : List Card → List Card
unfolding insert_card
sort_cards [] = []
sort_cards (c ∷ cs) = insert_card c (sort_cards cs)

-- `std::vector::at`.
abbrev vector_at : List Card → ℕ → Outcome Card
vector_at [] i = thrown std_out_of_range
vector_at (c ∷ cs) zero = ok c
vector_at (c ∷ cs) (suc i) = vector_at cs i

abbrev pub same_suit : Card → Card → Bool
same_suit a b = suit_value (get_suit a) == suit_value (get_suit b)

-- The loop over the suits of `_isKaidan`, from the second card on.
unfoldable pub all_of_suit : Card → List Card → Bool
all_of_suit first [] = true
all_of_suit first (c ∷ cs) = same_suit first c && all_of_suit first cs

-- The loop over neighbours of `_isKaidan`: `pj` jokers are used up.
unfoldable pub steps_loop : ℕ → ℤ → List Card → Bool
unfolding ◌-ℤ◌ ◌+ℤ◌
steps_loop has_joker pj [] = true
steps_loop has_joker pj (c ∷ []) = true
steps_loop has_joker pj (c ∷ d ∷ cs) =
    let cmp = compare_to d c -ℤ pos 1 in
    if is_zero cmp
    then steps_loop has_joker pj (d ∷ cs)
    else leb_ℤ cmp (pos has_joker -ℤ pj) && steps_loop has_joker (pj +ℤ cmp) (d ∷ cs)

-- `_isKaidan`: the result, and the vector that it leaves in `listcards` (none if it is not set).
unfoldable pub is_kaidan_list : CardSet → Outcome (Bool × Option (List Card))
unfolding sort_cards
is_kaidan_list cards = if ltb (size cards) 3 then ok (false, none) else do
  taken ← extract_joker cards
  let (has_joker, tmpc) = taken
  listcards ← conv2_vector tmpc
  first ← vector_at listcards 0
  let sorted = sort_cards listcards
  ok (
      if all_of_suit first listcards
      then (steps_loop has_joker (pos 0) sorted, some sorted)
      else (false, some listcards))

-- `DaifugoRuleB::isKaidan`.
unfoldable pub is_kaidan : CardSet → Outcome Bool
unfolding is_kaidan_list
is_kaidan cards = do r ← is_kaidan_list cards; ok r.0

-- `*std::max_element(begin, end)` and `*std::min_element(begin, end)`: the first such element;
-- there is none in an empty range.
unfoldable pub max_from : Card → List Card → Card
max_from best [] = best
max_from best (c ∷ cs) = max_from (if lt_card best c then c else best) cs

unfoldable pub min_from : Card → List Card → Card
min_from best [] = best
min_from best (c ∷ cs) = min_from (if lt_card c best then c else best) cs

abbrev pub max_element : Option (List Card) → Outcome Card
max_element none = undefined
max_element (some []) = undefined
max_element (some (c ∷ cs)) = ok (max_from c cs)

abbrev pub min_element : Option (List Card) → Outcome Card
min_element none = undefined
min_element (some []) = undefined
min_element (some (c ∷ cs)) = ok (min_from c cs)

-- The part of `DaifugoRuleB::canPut` for two staircases.
unfoldable pub compare_kaidan : Rule → Option (List Card) → Option (List Card) → Outcome ChkResult
unfolding compare_cards max_from min_from
compare_kaidan r v_balast v_cards = do
  c1 ← max_element v_balast
  c2 ← min_element v_cards
  ok (if ltb_ℤ (pos 0) (compare_cards r c2 c1) then chk_ok else err_not_strong)

-- `DaifugoRuleB::canPut` after `base::canPut` has refused with `ret`.
unfoldable pub can_put_kaidan : Rule → ChkResult → CardSet → CardSet → Outcome ChkResult
unfolding is_kaidan_list compare_kaidan
can_put_kaidan r ret cards ba_last = elim (is_empty ba_last) [
  | false ↦ do
    balast ← is_kaidan_list ba_last
    v_cards ← is_kaidan_list cards
    if balast.0
        then if v_cards.0 then compare_kaidan r balast.1 v_cards.1 else ok err_not_kaidan
        else ok (if v_cards.0 then err_ba_isnot_kaidan else ret)
  | true ↦ do v_cards ← is_kaidan_list cards; ok (if v_cards.0 then chk_ok else ret)
]

-- `DaifugoRuleB::canPut`.
unfoldable pub can_put_b : Rule → CardSet → CardSet → Outcome ChkResult
unfolding can_put_a can_put_kaidan
can_put_b r cards ba_last = do
  ret ← can_put_a r cards ba_last
  if is_ok ret then ok ret else can_put_kaidan r ret cards ba_last

-- `DaifugoRuleB::canAgari`.
unfoldable pub can_agari_b : Rule → CardSet → Outcome ChkResult
can_agari_b r cards = do
  taken ← extract_joker cards
  let (jokers, tmpc) = taken
  ok (
      if is_empty tmpc
      then err_joker_agari
      else if has_num_of tmpc (if r.is_kakumei then 3 else 2)
      then err_2_agari
      else chk_ok)

-- The virtual calls `rule->canPut` and `rule->canAgari`.
abbrev pub by_class {ℓ} : {A : Type ℓ} → RuleClass → A → A → A
by_class rule_a a b = a
by_class rule_b a b = b

unfoldable pub can_put : Rule → CardSet → CardSet → Outcome ChkResult
can_put r cards ba_last = by_class r.class (can_put_a r cards ba_last) (can_put_b r cards ba_last)

unfoldable pub can_agari : Rule → CardSet → Outcome ChkResult
unfolding can_agari_a can_agari_b
can_agari r cards = by_class r.class (ok (can_agari_a cards)) (can_agari_b r cards)
