-- ===== src/CardSet/Count.antt =====
-- `size` counts the cards: what adding and removing one card does to it.
use neof5client.Base.{
  ℕ, zero, suc, ◌+◌, ◌/◌, ◌<◌, ◌≤◌, ◌≡◌, refl, sym, ap, ◌∙◌, Bool, true, false, ◌||◌, ◌==◌,
  if◌then◌else◌, arith, ==_iff, Bool-cases, inl, inr,
}
use neof5client.Base.Bits.{test_bit, bit_and-low}
use neof5client.Card.{Card, card_count}
use neof5client.Card.Table.{IsCard}
use neof5client.CardSet.{CardSet, size, size_loop, add_card, remove_card, empty_set}
use neof5client.CardSet.Members.{IsValid, member, member-add_card, member-remove_card}

abbrev one_if : Bool → ℕ
one_if true = 1
one_if false = 0

-- How many numbers below `n` a test admits.
unfoldable pub count : (ℕ → Bool) → ℕ → ℕ
count f zero = 0
count f (suc n) = one_if (f 0) + count (λ i. f (suc i)) n

size_loop-count : (n b k : ℕ) → size_loop n b k ≡ k + count (test_bit b) n
unfolding size_loop count test_bit
size_loop-count zero b k = omega arith
size_loop-count (suc n) b k =
    let even : size_loop n (b / 2) k ≡ k + count (λ i. test_bit b (suc i)) n =
      size_loop-count n (b / 2) k in
    let odd : size_loop n (b / 2) (k + 1) ≡ k + 1 + count (λ i. test_bit b (suc i)) n =
      size_loop-count n (b / 2) (k + 1) in
    ground (arith, bit_and-low b, even, odd)

size_loop-member : (n : ℕ) (s : CardSet) → size_loop n s.bits 0 ≡ count (member s) n
unfolding member
size_loop-member n s =
    let counted : size_loop n s.bits 0 ≡ 0 + count (λ i. test_bit s.bits i) n =
      size_loop-count n s.bits 0 in
    omega (arith, counted)

pub size-count : (s : CardSet) → size s ≡ count (member s) 53
unfolding size
size-count s = size_loop-member card_count s

count-same : (n : ℕ) (f g : ℕ → Bool) → ((i : ℕ) → f i ≡ g i) → count f n ≡ count g n
unfolding count
count-same zero f g same = refl
count-same (suc n) f g same =
    ground (arith, same 0, count-same n (λ i. f (suc i)) (λ i. g (suc i)) (λ i. same (suc i)))

-- Where `g` admits one number more than `f`, the count is one more.
count-one_more :
    (n k : ℕ) (f g : ℕ → Bool)
    → k < n
    → f k ≡ false
    → ((i : ℕ) → g i ≡ (f i || k == i))
    → count g n ≡ suc (count f n)
unfolding count
count-one_more zero k f g lt fk more = absurd (omega arith)
count-one_more (suc n) zero f g lt fk more = ground (
  arith,
  more 0,
  count-same n (λ i. g (suc i)) (λ i. f (suc i)) (λ i. ground (arith, more (suc i))),
)
count-one_more (suc n) (suc k) f g lt fk more = ground (
  arith,
  more 0,
  count-one_more n k (λ i. f (suc i)) (λ i. g (suc i)) (omega arith) fk
      (λ i. ground (arith, more (suc i))),
)

-- A card that is not there counts one more when it is added, one that is there counts as before.
pub size-add_card :
    (s : CardSet) (c : Card)
    → IsCard c
    → size (add_card s c) ≡ (if member s c.idx then size s else suc (size s))
size-add_card s c h = elim (Bool-cases (member s c.idx)) [
  | inl there ↦
      let same = count-same 53 (member (add_card s c)) (member s) (λ i.
        elim (Bool-cases (c.idx == i)) [
          | inl e ↦
              let m : member s i ≡ true = ap (member s) (sym ((==_iff c.idx i).0 e)) ∙ there in
              ground (arith, member-add_card s c i h, m)
          | inr e ↦ ground (arith, member-add_card s c i h, e)
        ]) in
      ground (arith, size-count s, size-count (add_card s c), same, there)
  | inr absent ↦
      let more =
        count-one_more 53 c.idx (member s) (member (add_card s c)) h absent
          (λ i. member-add_card s c i h) in
      ground (arith, size-count s, size-count (add_card s c), more, absent)
]

pub size-add_card-le : (s : CardSet) (c : Card) → IsCard c → size (add_card s c) ≤ suc (size s)
size-add_card-le s c h = ground (arith, size-add_card s c h)

-- A card that is there counts one less when it is removed.
pub size-remove_card :
    (s : CardSet) (c : Card)
    → IsValid s
    → IsCard c
    → member s c.idx ≡ true
    → size s ≡ suc (size (remove_card s c))
size-remove_card s c v h there =
    let gone : member (remove_card s c) c.idx ≡ false =
      ground (arith, member-remove_card s c c.idx v h) in
    let more = count-one_more 53 c.idx (member (remove_card s c)) (member s) h gone (λ i.
      elim (Bool-cases (c.idx == i)) [
        | inl e ↦
            let m : member s i ≡ true = ap (member s) (sym ((==_iff c.idx i).0 e)) ∙ there in
            ground (arith, member-remove_card s c i v h, m, e)
        | inr e ↦ ground (arith, member-remove_card s c i v h, e)
      ]) in
    ground (arith, size-count s, size-count (remove_card s c), more)

pub size-empty : size empty_set ≡ 0
unfolding size size_loop
size-empty = refl
