-- ===== src/CardSet/Numbers.antt =====
-- `hasNumOf`, `extractJoker` and `allCards` against the cards of the set.
use neof5client.Base.{
  ℕ, zero, suc, ◌+◌, ◌-◌, ◌*◌, ◌/◌, ◌%◌, ◌^◌, ◌≤◌, ◌≡◌, ◌≢◌, refl, sym, ap, ◌∙◌, bit_or, true,
  false, not, ◌&&◌, ◌==◌, ltb, ◌↔◌, arith, ==_iff, Bool-cases, inl, inr, ok, if◌then◌else◌,
}
use neof5client.Base.Bits.{
  shl64, test_bit, test_bit-or, test_bit-and, test_bit-zero, test_bit-not, test_bit_above,
  test_bit-shift, test_bit-wrap,
}
use neof5client.Base.Int.{pos}
use neof5client.Card.{Card, get_num, jkr, card_strength_max, make_card}
use neof5client.Card
use neof5client.Card.Table.{IsCard, get_num_lem}
use neof5client.CardSet.{CardSet, remove_card, num_of_bits, has_num_of, extract_joker, all_cards}
use neof5client.CardSet.Members.{IsValid, member, member_above, has-member}

-- A word other than 0 has a bit set.
find_bit : (n x : ℕ) → x ≤ n → x ≢ 0 → (i : ℕ) × (test_bit x i ≡ true)
unfolding test_bit
find_bit zero x h ne = absurd (ne (omega arith))
find_bit (suc n) x h ne = elim (Bool-cases (x % 2 == 1)) [
  | inl e ↦ (0, e)
  | inr e ↦ (let (i, here) = find_bit n (x / 2) (omega arith) (halved e) in (suc i, here))
]
  where
    halved : (x % 2 == 1) ≡ false → x / 2 ≢ 0
    halved e z = ne (ground arith)

fifteen : (j : ℕ) → test_bit 15 j ≡ ltb j 4
unfolding test_bit
fifteen zero = refl
fifteen (suc zero) = refl
fifteen (suc (suc zero)) = refl
fifteen (suc (suc (suc zero))) = refl
fifteen (suc (suc (suc (suc j)))) = test_bit-zero j ∙ ground arith

-- The bits that `hasNumOf(num)` looks at: the four cards of one rank.
pub num_of_bits-member :
    (s : CardSet) (num i : ℕ)
    → IsValid s
    → test_bit (num_of_bits s num) i ≡ (i / 4 == (num + 10) % 13 && member s i)
unfolding num_of_bits member
num_of_bits-member s num i v =
    let r = (num + 10) % 13 in
    rw
      (
        test_bit-and (bit_or 0 (shl64 0x0f (4 * r))) s.bits i,
        test_bit-or 0 (shl64 0x0f (4 * r)) i,
        test_bit-zero i,
      )
      (unfold shl64 in
        rw
          (
            test_bit-wrap 64 (0x0f * 2 ^ (4 * r)) i,
            test_bit-shift 0x0f (4 * r) i,
            fifteen (i - 4 * r),
          )
          (ground (arith, test_bit_above 53 s.bits i v)))

abbrev pub at_index : ℕ → Card
at_index i = record { idx = i }

-- `hasNumOf` says whether the set holds a card of the rank that it looks at.
pub has_num_of_iff :
    (s : CardSet) (num : ℕ)
    → IsValid s
    → (has_num_of s num ≡ true)
      ↔ ((c : Card) × IsCard c × (member s c.idx ≡ true) × (c.idx / 4 ≡ (num + 10) % 13))
unfolding has_num_of
has_num_of_iff s num v = (
  λ h.
      let (i, here) =
        find_bit (num_of_bits s num) (num_of_bits s num) (omega arith) (ground arith) in
      let both : (i / 4 == (num + 10) % 13 && member s i) ≡ true =
        sym (num_of_bits-member s num i v) ∙ here in
      (at_index i, ground (arith, member_above s i v), ground arith, ground arith),
  λ (c, lt, there, rank). present c there rank,
)
  where
    present :
        (c : Card)
        → member s c.idx ≡ true
        → c.idx / 4 ≡ (num + 10) % 13
        → not (num_of_bits s num == 0) ≡ true
    present c there rank = elim (Bool-cases (num_of_bits s num == 0)) [
      | inr e ↦ rw e
      | inl e ↦
          let nothing : num_of_bits s num ≡ 0 = (==_iff _ 0).0 e in
          ground (
            arith,
            num_of_bits-member s num c.idx v,
            ap (λ x. test_bit x c.idx) nothing,
            test_bit-zero c.idx,
          )
    ]

-- For a set of the 53 cards and a number from A to K, `hasNumOf` is true exactly if the set has a
-- card with that number printed on it.
pub has_num_of_printed :
    (s : CardSet) (num : ℕ)
    → IsValid s
    → 1 ≤ num
    → num ≤ 13
    → (has_num_of s num ≡ true)
      ↔ ((c : Card) × IsCard c × (member s c.idx ≡ true) × (get_num c ≡ num))
has_num_of_printed s num v low high = (
  λ h.
      let (c, lt, there, rank) = (has_num_of_iff s num v).0 h in
      (c, lt, there, ground (arith, get_num_lem c lt)),
  λ (c, lt, there, printed).
      (has_num_of_iff s num v).1 (c, lt, there, ground (arith, get_num_lem c lt)),
)

-- For a set of the 53 cards, `hasNumOf(CARD_STRENGTH_MAX)`, which is `hasNumOf(14)`, is true
-- exactly if the set has an ace.
pub has_num_of_strength_max :
    (s : CardSet)
    → IsValid s
    → (has_num_of s card_strength_max ≡ true)
      ↔ ((c : Card) × IsCard c × (member s c.idx ≡ true) × (get_num c ≡ 1))
unfolding has_num_of
has_num_of_strength_max s v = has_num_of_printed s 1 v (omega arith) (omega arith)

abbrev pub joker : Card
joker = record { idx = 52 }

get-joker : Card.get jkr (pos 0) ≡ ok joker
unfolding Card.get
get-joker = refl

-- `extractJoker` never throws: it counts the joker and takes it out.
pub extract_joker_lem :
    (s : CardSet) → extract_joker s ≡ ok (if member s 52 then (1, remove_card s joker) else (0, s))
unfolding extract_joker
extract_joker_lem s = ground (arith, get-joker, has-member s joker (omega arith))

pub all_cards-member : (i : ℕ) → member all_cards i ≡ ltb i 53
unfolding all_cards member
all_cards-member i = test_bit-not 53 0 i (omega arith) ∙ ground (arith, test_bit-zero i)
