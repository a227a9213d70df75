-- ===== src/CardSet/Members.antt =====
-- Which cards a set has after each operation, and that the operations keep to the 53 cards.
use neof5client.Base.{
  ℕ, ◌+◌, ◌*◌, ◌^◌, ◌≤◌, ◌<◌, ◌≡◌, sym, ap, ◌∙◌, bit_and, Bool, true, false, not, ◌&&◌, ◌||◌, ◌==◌,
  ltb, ◌↔◌, arith, ==_iff, Bool-cases, inl, inr,
}
use neof5client.Base.Bits.{
  shl64, not64, test_bit, test_bit-or, test_bit-and, test_bit-zero, test_bit-pow, test_bit-not,
  test_bit_above, test_bit-wrap, bits_ext, lt_of_bits,
}
use neof5client.Card.{Card}
use neof5client.Card.Table.{IsCard}
use neof5client.CardSet.{
  CardSet, empty_set, mask_of, remove_set, add_set, remove_card, add_card, has, has_set, communion,
}

-- A set of the 53 cards: no other bit is set. Every set of the program is one.
abbrev pub IsValid : CardSet → Type 0
IsValid s = s.bits < 2 ^ 53

-- The card with index `i` is in the set.
unfoldable pub member : CardSet → ℕ → Bool
member s i = test_bit s.bits i

pub member_above : (s : CardSet) (i : ℕ) → IsValid s → 53 ≤ i → member s i ≡ false
unfolding member
member_above s i v h = test_bit_above 53 s.bits i v h

pub IsValid-of_members : (s : CardSet) → ((i : ℕ) → 53 ≤ i → member s i ≡ false) → IsValid s
unfolding member
IsValid-of_members s h = lt_of_bits 53 s.bits h

-- Two sets with the same cards are one set.
pub member_ext : (s t : CardSet) → ((i : ℕ) → member s i ≡ member t i) → s ≡ t
unfolding member
member_ext s t h =
    ground (arith, bits_ext (s.bits + t.bits) s.bits t.bits (omega arith) (omega arith) h)

pub mask_bit : (k i : ℕ) → k < 64 → test_bit (mask_of k) i ≡ (k == i)
unfolding mask_of
mask_bit k i h =
    let one_time : 1 * 2 ^ k ≡ 2 ^ k = omega arith in
    rw (test_bit-wrap 64 (1 * 2 ^ k) i, one_time, test_bit-pow k i) (ground arith)

-- A word with no bit set is 0.
zero_of_bits : (x : ℕ) → ((i : ℕ) → test_bit x i ≡ false) → x ≡ 0
zero_of_bits x h = bits_ext x x 0 (omega arith) (omega arith) (λ i. h i ∙ sym (test_bit-zero i))

pub member-empty : (i : ℕ) → member empty_set i ≡ false
unfolding member
member-empty i = test_bit-zero i

pub member-add_set : (s t : CardSet) (i : ℕ) → member (add_set s t) i ≡ (member s i || member t i)
unfolding member add_set
member-add_set s t i = test_bit-or s.bits t.bits i

pub member-remove_set :
    (s t : CardSet) (i : ℕ)
    → IsValid t
    → member (remove_set s t) i ≡ (ltb i 64 && member s i && not (member t i))
unfolding member remove_set
member-remove_set s t i v =
    rw (test_bit-and s.bits (not64 t.bits) i)
      (unfold not64 in rw (test_bit-not 64 t.bits i (omega arith)) (ground arith))

pub member-add_card :
    (s : CardSet) (c : Card) (i : ℕ)
    → IsCard c
    → member (add_card s c) i ≡ (member s i || c.idx == i)
unfolding member add_card
member-add_card s c i h = rw (test_bit-or s.bits (mask_of c.idx) i, mask_bit c.idx i (omega arith))

mask-lt : (k : ℕ) → mask_of k < 2 ^ 64
unfolding mask_of shl64
mask-lt k = omega arith

pub member-remove_card :
    (s : CardSet) (c : Card) (i : ℕ)
    → IsValid s
    → IsCard c
    → member (remove_card s c) i ≡ (member s i && not (c.idx == i))
unfolding member remove_card
member-remove_card s c i v h = rw (test_bit-and s.bits (not64 (mask_of c.idx)) i) (
    unfold not64 in
    rw (test_bit-not 64 (mask_of c.idx) i (mask-lt c.idx), mask_bit c.idx i (omega arith))
      (ground (arith, test_bit_above 53 s.bits i v)))

-- `has` on a card is membership.
pub has-member : (s : CardSet) (c : Card) → IsCard c → has s c ≡ member s c.idx
unfolding member has
has-member s c h = elim (Bool-cases (test_bit s.bits c.idx)) [
  | inl there ↦ ground (arith, there, at_card, test_bit-zero c.idx)
  | inr absent ↦
      ground (arith, absent, zero_of_bits (bit_and s.bits (mask_of c.idx)) (nowhere absent))
]
  where
    at_card : test_bit (bit_and s.bits (mask_of c.idx)) c.idx ≡ test_bit s.bits c.idx
    at_card =
        rw (test_bit-and s.bits (mask_of c.idx) c.idx, mask_bit c.idx c.idx (omega arith))
          (ground arith)

    nowhere :
        test_bit s.bits c.idx ≡ false
        → (i : ℕ) → test_bit (bit_and s.bits (mask_of c.idx)) i ≡ false
    nowhere absent i =
        rw (test_bit-and s.bits (mask_of c.idx) i, mask_bit c.idx i (omega arith))
          (by_place i absent)
      where
        by_place :
            (i : ℕ) → test_bit s.bits c.idx ≡ false → (test_bit s.bits i && c.idx == i) ≡ false
        by_place i absent = elim (Bool-cases (c.idx == i)) [
          | inl e ↦ rw (e, ← (==_iff c.idx i).0 e, absent)
          | inr e ↦ rw e (ground arith)
        ]

-- `has` on a set is inclusion.
pub has_set_iff :
    (s t : CardSet) → (has_set s t ≡ true) ↔ ((i : ℕ) → member t i ≡ true → member s i ≡ true)
unfolding member has_set
has_set_iff s t = (
  λ h i k. ground (
    arith,
    test_bit-and s.bits t.bits i,
    ap (λ x. test_bit x i) ((==_iff (bit_and s.bits t.bits) t.bits).0 h),
  ),
  λ h. (==_iff (bit_and s.bits t.bits) t.bits).1 (
      bits_ext (bit_and s.bits t.bits + t.bits) _ _ (omega arith) (omega arith)
        (λ i. rw (test_bit-and s.bits t.bits i) (ground (arith, h i)))),
)

-- `communion` is false exactly for sets with no card in common.
pub communion_iff :
    (s t : CardSet) → (communion s t ≡ false) ↔ ((i : ℕ) → (member s i && member t i) ≡ false)
unfolding member communion
communion_iff s t = (
  λ h i.
      sym (test_bit-and s.bits t.bits i) ∙ ap (λ x. test_bit x i) (none_left h) ∙ test_bit-zero i,
  λ h.
      ground
        (arith, zero_of_bits (bit_and s.bits t.bits) (λ i. test_bit-and s.bits t.bits i ∙ h i)),
)
  where
    none_left : not (bit_and s.bits t.bits == 0) ≡ false → bit_and s.bits t.bits ≡ 0
    none_left h = ground arith
