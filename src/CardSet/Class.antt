-- ===== src/CardSet/Class.antt =====
-- Class `CardSet` as its users see it: the public members, and their contract, in which a set is
-- the function that tells which cards it has.
use neof5client.Base.{
  ℕ, ◌≡◌, ◌↔◌, refl, Bool, true, false, not, ◌&&◌, ◌||◌, ◌==◌, ltb, List, Outcome, ok, arith,
  length, holds_below, row_of, Bool-cases, inl, inr, ltb→lt,
}
use neof5client.Base.Bits.{test_bit}
use neof5client.Card.{Card}
use neof5client.Card.Table.{IsCard}
use neof5client.CardSet.{
  CardSet, empty_set, from_vector, from_text, all_cards, size, is_empty, remove_set, add_set,
  remove_card, add_card, has, has_set, has_num_of, has_num_of_into, extract_joker, lt_set, gt_set,
  eq_set, communion, conv2_vector, conv2_vector_into, at, to_string,
}
use neof5client.CardSet.Members.{
  IsValid, member, member_ext, member_above, member-empty, member-add_set, member-remove_set,
  member-add_card, member-remove_card, has-member, has_set_iff, communion_iff,
}
use neof5client.CardSet.Contract.{
  empty-IsValid, all_cards-IsValid, add_set-IsValid, remove_set-IsValid, add_card-IsValid,
  remove_card-IsValid,
}
use neof5client.CardSet.Vector.{in_cards, AllCards, conv2_vector_contract, is_empty-size}
use neof5client.CardSet.Text.{from_text-to_string}

-- One field for each public member. `operator[]` is `at`.
pub record CardSetClass : Type 1 where
  pub S : Type 0
  pub empty_set : S
  pub from_vector : List Card → S
  pub from_text : List ℕ → Outcome S
  pub all_cards : S
  pub size : S → ℕ
  pub is_empty : S → Bool
  pub remove_set : S → S → S
  pub add_set : S → S → S
  pub remove_card : S → Card → S
  pub add_card : S → Card → S
  pub has : S → Card → Bool
  pub has_set : S → S → Bool
  pub has_num_of : S → ℕ → Bool
  pub has_num_of_into : S → ℕ → S → Bool × S
  pub extract_joker : S → Outcome (ℕ × S)
  pub lt : S → S → Bool
  pub gt : S → S → Bool
  pub eq : S → S → Bool
  pub communion : S → S → Bool
  pub conv2_vector : S → Outcome (List Card)
  pub conv2_vector_into : S → List Card → Outcome (List Card)
  pub at : S → ℕ → Outcome Card
  pub to_string : S → Outcome (List ℕ)

abbrev pub card_set_class : CardSetClass
card_set_class = record {
  S = CardSet;
  empty_set = empty_set;
  from_vector = from_vector;
  from_text = from_text;
  all_cards = all_cards;
  size = size;
  is_empty = is_empty;
  remove_set = remove_set;
  add_set = add_set;
  remove_card = remove_card;
  add_card = add_card;
  has = has;
  has_set = has_set;
  has_num_of = has_num_of;
  has_num_of_into = has_num_of_into;
  extract_joker = extract_joker;
  lt = lt_set;
  gt = gt_set;
  eq = eq_set;
  communion = communion;
  conv2_vector = conv2_vector;
  conv2_vector_into = conv2_vector_into;
  at = at;
  to_string = to_string;
}

-- The contract. `Valid` are the sets that the members make, and `holds s i` says that the card with
-- the id `i` is in `s`.
pub record IsSets (K : CardSetClass) (Valid : K.S → Type 0) (holds : K.S → ℕ → Bool) : Type 0 where
  pub ext : (s t : K.S) → ((i : ℕ) → holds s i ≡ holds t i) → s ≡ t
  pub above : (s : K.S) (i : ℕ) → Valid s → ltb i 53 ≡ false → holds s i ≡ false
  pub empty_valid : Valid K.empty_set
  pub empty_holds : (i : ℕ) → holds K.empty_set i ≡ false
  pub all_valid : Valid K.all_cards
  pub all_holds : (i : ℕ) → holds K.all_cards i ≡ ltb i 53
  pub add_set_valid : (s t : K.S) → Valid s → Valid t → Valid (K.add_set s t)
  pub add_set_holds : (s t : K.S) (i : ℕ) → holds (K.add_set s t) i ≡ (holds s i || holds t i)
  pub remove_set_valid : (s t : K.S) → Valid s → Valid t → Valid (K.remove_set s t)
  pub remove_set_holds :
      (s t : K.S) (i : ℕ)
      → Valid s
      → Valid t
      → holds (K.remove_set s t) i ≡ (holds s i && not (holds t i))
  pub add_card_valid : (s : K.S) (c : Card) → Valid s → IsCard c → Valid (K.add_card s c)
  pub add_card_holds :
      (s : K.S) (c : Card) (i : ℕ) → IsCard c → holds (K.add_card s c) i ≡ (holds s i || c.idx == i)
  pub remove_card_valid : (s : K.S) (c : Card) → Valid s → IsCard c → Valid (K.remove_card s c)
  pub remove_card_holds :
      (s : K.S) (c : Card) (i : ℕ)
      → Valid s
      → IsCard c
      → holds (K.remove_card s c) i ≡ (holds s i && not (c.idx == i))
  pub has_holds : (s : K.S) (c : Card) → IsCard c → K.has s c ≡ holds s c.idx
  pub has_set_holds :
      (s t : K.S) → (K.has_set s t ≡ true) ↔ ((i : ℕ) → holds t i ≡ true → holds s i ≡ true)
  pub communion_holds :
      (s t : K.S) → (K.communion s t ≡ false) ↔ ((i : ℕ) → (holds s i && holds t i) ≡ false)
  pub equal : (s t : K.S) → (K.eq s t ≡ true) ↔ (s ≡ t)
  pub empty_size : (s : K.S) → Valid s → K.is_empty s ≡ (K.size s == 0)
  pub vector :
      (s : K.S)
      → Valid s
      → (cs : List Card) × (K.conv2_vector s ≡ ok cs)
        × AllCards cs
        × ((i : ℕ) → in_cards cs i ≡ holds s i)
        × (K.size s ≡ length cs)
        × (K.from_vector cs ≡ s)
  pub text :
      (s : K.S) → Valid s → (str : List ℕ) × (K.to_string s ≡ ok str) × (K.from_text str ≡ ok s)

all_cards_table : holds_below (λ i. member all_cards i) 53 ≡ true
unfolding holds_below member all_cards test_bit
all_cards_table = refl

all_cards-member : (i : ℕ) → member all_cards i ≡ ltb i 53
all_cards-member i = elim (Bool-cases (ltb i 53)) [
  | inl below ↦ rw below (row_of (λ k. member all_cards k) 53 i all_cards_table (ltb→lt i 53 below))
  | inr far ↦ rw far (member_above all_cards i all_cards-IsValid (ground arith))
]

same_bits : (s t : CardSet) → (eq_set s t ≡ true) ↔ (s ≡ t)
unfolding eq_set
same_bits s t = ground arith

-- `CardSet` keeps the contract of finite sets of the 53 cards, for sets in which no other bit is
-- set.
pub card_set_class-IsSets : IsSets card_set_class IsValid member
card_set_class-IsSets = record {
  ext = member_ext;
  above = λ s i v far. member_above s i v (ground arith);
  empty_valid = empty-IsValid;
  empty_holds = member-empty;
  all_valid = all_cards-IsValid;
  all_holds = all_cards-member;
  add_set_valid = add_set-IsValid;
  add_set_holds = member-add_set;
  remove_set_valid = remove_set-IsValid;
  remove_set_holds = λ s t i v w. ground (arith, member-remove_set s t i w, member_above s i v);
  add_card_valid = add_card-IsValid;
  add_card_holds = member-add_card;
  remove_card_valid = remove_card-IsValid;
  remove_card_holds = member-remove_card;
  has_holds = has-member;
  has_set_holds = has_set_iff;
  communion_holds = communion_iff;
  equal = same_bits;
  empty_size = is_empty-size;
  vector = λ s v.
      let (cs, run, asc, all, there, count, reads, back) = conv2_vector_contract s v in
      (cs, run, all, there, count, back);
  text = from_text-to_string;
}
