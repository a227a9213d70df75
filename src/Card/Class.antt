-- ===== src/Card/Class.antt =====
-- Class `Card` as its users see it: the public members.
use neof5client.Base.{ℕ, Bool, List, Outcome}
use neof5client.Base.Int.{ℤ}
use neof5client.Card.{
  Card, Suit, copy_of, get_suit, get_num, is_joker, to_string, get_strength, get_value, get_id, get,
  from_string, card_count, suit_to_string, compare_to, lt_card, gt_card, le_card, ge_card, eq_card,
  ne_card,
}

-- One field for each public member that is defined (`isEfuda` is declared only).
pub record CardClass : Type 1 where
  pub C : Type 0
  pub copy_of : C → C
  pub get_suit : C → Suit
  pub get_num : C → ℕ
  pub is_joker : C → Bool
  pub to_string : C → List ℕ
  pub get_strength : C → ℕ
  pub get_value : C → ℕ
  pub get_id : C → ℕ
  pub get : Suit → ℤ → Outcome C
  pub from_string : ℕ → ℕ → Outcome C
  pub get_all_count : ℕ
  pub suit_to_string : Suit → List ℕ
  pub compare_to : C → C → ℤ
  pub lt : C → C → Bool
  pub gt : C → C → Bool
  pub le : C → C → Bool
  pub ge : C → C → Bool
  pub eq : C → C → Bool
  pub ne : C → C → Bool

abbrev pub card_class : CardClass
card_class = record {
  C = Card;
  copy_of = copy_of;
  get_suit = get_suit;
  get_num = get_num;
  is_joker = is_joker;
  to_string = to_string;
  get_strength = get_strength;
  get_value = get_value;
  get_id = get_id;
  get = get;
  from_string = from_string;
  get_all_count = card_count;
  suit_to_string = suit_to_string;
  compare_to = compare_to;
  lt = lt_card;
  gt = gt_card;
  le = le_card;
  ge = ge_card;
  eq = eq_card;
  ne = ne_card;
}
