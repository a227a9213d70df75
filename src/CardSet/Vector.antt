-- ===== src/CardSet/Vector.antt =====
-- The vector constructor and `conv2Vector`: going to a vector and back.
use neof5client.Base.{
  ℕ, zero, suc, ◌+◌, ◌-◌, ◌/◌, ◌%◌, ◌≤◌, ◌≡◌, refl, ap, ◌∙◌, bit_or, Bool, true, false, sym, ◌&&◌,
  ◌||◌, ◌==◌, ltb, leb, arith, Bool-cases, inl, inr, ok, List, [], ◌∷◌, map, length,
}
use neof5client.Base.Bits.{test_bit, test_bit-or, test_bit-zero, test_bit_lowest, test_bit_next}
use neof5client.Card.{Card, card_count}
use neof5client.Card.Table.{IsCard}
use neof5client.CardSet.{
  CardSet, empty_set, is_empty, size, conv2_vector, at, from_vector, from_vector_loop, mask_of,
}
use neof5client.CardSet.Members.{
  IsValid, member, member-empty, member_ext, IsValid-of_members, mask_bit, member_above,
}
use neof5client.CardSet.Elements.{
  indices, card_at, elements, conv2_vector_lem, size-length, at_lem, at_or_throw,
}

-- The index `i` occurs in the list.
unfoldable pub in_cards : List Card → ℕ → Bool
in_cards [] i = false
in_cards (c ∷ cs) i = c.idx == i || in_cards cs i

-- Strictly ascending, from `lo` on: sorted and without repetition.
abbrev pub Ascending : ℕ → List Card → Type 0
Ascending lo [] = ◌≡◌ {A = ℕ} 0 0
Ascending lo (c ∷ cs) = (lo ≤ c.idx) × Ascending (c.idx + 1) cs

abbrev pub AllCards : List Card → Type 0
AllCards [] = ◌≡◌ {A = ℕ} 0 0
AllCards (c ∷ cs) = IsCard c × AllCards cs

Ascending-mono : (lo hi : ℕ) (cs : List Card) → lo ≤ hi → Ascending hi cs → Ascending lo cs
Ascending-mono lo hi [] le a = refl
Ascending-mono lo hi (c ∷ cs) le a = (omega arith, a.1)

indices-Ascending : (n b i : ℕ) → Ascending i (map card_at (indices n b i))
unfolding indices
indices-Ascending zero b i = refl
indices-Ascending (suc n) b i = elim (Bool-cases (b % 2 == 1)) [
  | inl e ↦ rw e (omega arith, indices-Ascending n (b / 2) (i + 1))
  | inr e ↦ rw e (Ascending-mono i (i + 1) _ (omega arith) (indices-Ascending n (b / 2) (i + 1)))
]

indices-AllCards : (n b i : ℕ) → i + n ≤ 53 → AllCards (map card_at (indices n b i))
unfolding indices
indices-AllCards zero b i le = refl
indices-AllCards (suc n) b i le = elim (Bool-cases (b % 2 == 1)) [
  | inl e ↦ rw e (omega arith, indices-AllCards n (b / 2) (i + 1) (omega arith))
  | inr e ↦ rw e (indices-AllCards n (b / 2) (i + 1) (omega arith))
]

in_cards-indices :
    (n b i j : ℕ)
    → in_cards (map card_at (indices n b i)) j ≡ (leb i j && ltb j (i + n) && test_bit b (j - i))
unfolding in_cards indices
in_cards-indices zero b i j = ground arith
in_cards-indices (suc n) b i j = elim (Bool-cases (i == j)) [
  | inl e ↦
      let first : j - i ≡ 0 = ground arith in
      ground (arith, ap (test_bit b) first, test_bit_lowest b, in_cards-indices n (b / 2) (i + 1) j)
  | inr e ↦ elim (Bool-cases (ltb i j)) [
    | inl later ↦
        let step : j - i ≡ suc (j - (i + 1)) = ground arith in
        ground (
          arith,
          ap (test_bit b) step,
          test_bit_next b (j - (i + 1)),
          in_cards-indices n (b / 2) (i + 1) j,
        )
    | inr earlier ↦ ground (arith, in_cards-indices n (b / 2) (i + 1) j)
  ]
]

pub elements-Ascending : (s : CardSet) → Ascending 0 (elements s)
unfolding elements
elements-Ascending s = indices-Ascending card_count s.bits 0

pub elements-AllCards : (s : CardSet) → AllCards (elements s)
unfolding elements
elements-AllCards s = indices-AllCards card_count s.bits 0 (omega arith)

pub in_cards-elements : (s : CardSet) (i : ℕ) → IsValid s → in_cards (elements s) i ≡ member s i
unfolding elements
in_cards-elements s i v =
    in_cards-indices card_count s.bits 0 i ∙ unfold member in ground (arith, member_above s i v)

from_vector_loop-bit :
    (bits : ℕ) (cs : List Card) (i : ℕ)
    → AllCards cs
    → test_bit (from_vector_loop bits cs) i ≡ (test_bit bits i || in_cards cs i)
unfolding from_vector_loop in_cards
from_vector_loop-bit bits [] i h = ground arith
from_vector_loop-bit bits (c ∷ cs) i (hc, h) = ground (
  arith,
  from_vector_loop-bit (bit_or bits (mask_of c.idx)) cs i h,
  test_bit-or bits (mask_of c.idx) i,
  mask_bit c.idx i (omega arith),
)

-- The constructor from a vector makes the set of the vector's cards.
pub member-from_vector :
    (cs : List Card) (i : ℕ) → AllCards cs → member (from_vector cs) i ≡ in_cards cs i
unfolding member from_vector
member-from_vector cs i h = from_vector_loop-bit 0 cs i h ∙ ground (arith, test_bit-zero i)

-- A vector of cards has no index above the table's.
in_cards_above : (cs : List Card) (i : ℕ) → AllCards cs → 53 ≤ i → in_cards cs i ≡ false
unfolding in_cards
in_cards_above [] i h le = refl
in_cards_above (c ∷ cs) i (hc, h) le = ground (arith, in_cards_above cs i h le)

pub from_vector-IsValid : (cs : List Card) → AllCards cs → IsValid (from_vector cs)
from_vector-IsValid cs h =
    IsValid-of_members _ λ i le. member-from_vector cs i h ∙ in_cards_above cs i h le

pub from_vector-elements : (s : CardSet) → IsValid s → from_vector (elements s) ≡ s
from_vector-elements s v =
    member_ext _ s
      λ i. member-from_vector (elements s) i (elements-AllCards s) ∙ in_cards-elements s i v

-- `empty` and `size` agree.
pub is_empty-size : (s : CardSet) → IsValid s → is_empty s ≡ (size s == 0)
is_empty-size s v = go (elements s) refl
  where
    go : (cs : List Card) → elements s ≡ cs → is_empty s ≡ (size s == 0)
    go [] e =
        let none_there : s ≡ empty_set = member_ext s empty_set λ i.
          sym (in_cards-elements s i v)
          ∙ ap (λ l. in_cards l i) e
          ∙ (unfold in_cards in sym (member-empty i)) in
        rw (size-length s ∙ ap length e) (unfold is_empty in ground arith)
    go (c ∷ cs) e =
        let there : member s c.idx ≡ true =
          sym (in_cards-elements s c.idx v)
          ∙ ap (λ l. in_cards l c.idx) e
          ∙ (unfold in_cards in ground arith) in
        rw (size-length s ∙ ap length e)
          (unfold is_empty member in ground (arith, test_bit-zero c.idx))

-- The cards of a set of one are one card.
pub single_member :
    (s : CardSet) (c d : Card)
    → IsValid s
    → size s ≡ 1
    → member s c.idx ≡ true
    → member s d.idx ≡ true
    → c ≡ d
single_member s c d v count hc hd = go (elements s) refl
  where
    go : (cs : List Card) → elements s ≡ cs → c ≡ d
    go [] e = absurd (omega (arith, count, size-length s, ap length e))
    go (x ∷ y ∷ cs) e = absurd (omega (arith, count, size-length s, ap length e))
    go (x ∷ []) e =
        let at_c : in_cards (x ∷ []) c.idx ≡ true =
          ap (λ l. in_cards l c.idx) (sym e) ∙ in_cards-elements s c.idx v ∙ hc in
        let at_d : in_cards (x ∷ []) d.idx ≡ true =
          ap (λ l. in_cards l d.idx) (sym e) ∙ in_cards-elements s d.idx v ∙ hd in
        unfold in_cards in ground arith

-- For a set of the 53 cards, `conv2Vector` returns a strictly ascending vector of cards of the
-- table that holds exactly the set's cards; its length is `size`, its entries are what `at`
-- returns (which throws past its end), and the set built from it is the set again.
pub conv2_vector_contract :
    (s : CardSet)
    → IsValid s
    → (cs : List Card) × (conv2_vector s ≡ ok cs)
      × Ascending 0 cs
      × AllCards cs
      × ((i : ℕ) → in_cards cs i ≡ member s i)
      × (size s ≡ length cs)
      × ((k : ℕ) → at s k ≡ at_or_throw cs k)
      × (from_vector cs ≡ s)
conv2_vector_contract s v = (
  elements s,
  conv2_vector_lem s v,
  elements-Ascending s,
  elements-AllCards s,
  (λ i. in_cards-elements s i v),
  size-length s,
  at_lem s,
  from_vector-elements s v,
)
