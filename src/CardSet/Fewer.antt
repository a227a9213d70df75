-- ===== src/CardSet/Fewer.antt =====
-- A part of a set has no more cards than the set, and fewer if a card is missing.
use neof5client.Base.{
  ℕ, zero, suc, ◌<◌, ◌≤◌, ◌≡◌, refl, sym, ap, ◌∙◌, List, [], ◌∷◌, length, Bool, true, false, ok,
  arith, Bool-cases, ==_iff, inl, inr,
}
use neof5client.Card.{Card}
use neof5client.Card.Table.{IsCard}
use neof5client.CardSet.{CardSet, size, remove_set, has_set, is_empty, at, add_card, empty_set}
use neof5client.CardSet.Members.{
  IsValid, member, member-add_card, member-empty, member_above, member-remove_set, has_set_iff,
}
use neof5client.CardSet.Count.{count, size-count}
use neof5client.CardSet.Elements.{elements, size-length, at_lem, at_or_throw}
use neof5client.CardSet.Vector.{in_cards, in_cards-elements, is_empty-size}

abbrev pub Holds : CardSet → Card → Type 0
Holds s c = IsCard c × (member s c.idx ≡ true)

-- A set that is not empty holds a card.
pub some_card : (s : CardSet) → IsValid s → is_empty s ≡ false → (c : Card) × Holds s c
some_card s v e = go (elements s) refl
  where
    go : (cs : List Card) → elements s ≡ cs → (c : Card) × Holds s c
    go [] p = absurd (ground (arith, is_empty-size s v, size-length s, ap length p))
    go (c ∷ cs) p =
        let on : in_cards (elements s) c.idx ≡ true =
          ap (λ l. in_cards l c.idx) p ∙ unfold in_cards in ground arith in
        (
          c,
          (
            ground (arith, in_cards-elements s c.idx v, member_above s c.idx v),
            sym (in_cards-elements s c.idx v) ∙ on,
          ),
        )

count-part : (n : ℕ) (f g : ℕ → Bool) → ((i : ℕ) → f i ≡ true → g i ≡ true) → count f n ≤ count g n
unfolding count
count-part zero f g part = omega arith
count-part (suc n) f g part =
    let rest = count-part n (λ i. f (suc i)) (λ i. g (suc i)) (λ i. part (suc i)) in
    elim (Bool-cases (f 0)) [
      | inl e ↦ ground (arith, e, part 0 e, rest)
      | inr e ↦ elim (Bool-cases (g 0)) [
        | inl k ↦ ground (arith, e, k, rest)
        | inr k ↦ ground (arith, e, k, rest)
      ]
    ]

count-less :
    (n k : ℕ) (f g : ℕ → Bool)
    → ((i : ℕ) → f i ≡ true → g i ≡ true)
    → k < n
    → f k ≡ false
    → g k ≡ true
    → count f n < count g n
unfolding count
count-less zero k f g part small missing there = absurd (omega (arith, small))
count-less (suc n) zero f g part small missing there =
    ground
      (arith, missing, there, count-part n (λ i. f (suc i)) (λ i. g (suc i)) (λ i. part (suc i)))
count-less (suc n) (suc k) f g part small missing there =
    let rest =
      count-less n k (λ i. f (suc i)) (λ i. g (suc i)) (λ i. part (suc i)) (omega (arith, small))
        missing there in
    elim (Bool-cases (f 0)) [
      | inl e ↦ ground (arith, e, part 0 e, rest)
      | inr e ↦ elim (Bool-cases (g 0)) [
        | inl j ↦ ground (arith, e, j, rest)
        | inr j ↦ ground (arith, e, j, rest)
      ]
    ]

remove_set-part :
    (s t : CardSet) (i : ℕ) → IsValid t → member (remove_set s t) i ≡ true → member s i ≡ true
remove_set-part s t i w there = ground (arith, member-remove_set s t i w, there)

pub size-remove_set-le : (s t : CardSet) → IsValid t → size (remove_set s t) ≤ size s
size-remove_set-le s t w =
    let part = count-part 53 (member (remove_set s t)) (member s) (λ i. remove_set-part s t i w) in
    omega (arith, part, size-count s, size-count (remove_set s t))

-- A part that is not empty leaves fewer cards.
pub size-remove_set-lt :
    (s t : CardSet)
    → IsValid t
    → has_set s t ≡ true
    → is_empty t ≡ false
    → size (remove_set s t) < size s
size-remove_set-lt s t w part some_there =
    let (c, (h, there)) = some_card t w some_there in
    let gone : member (remove_set s t) c.idx ≡ false =
      ground (arith, member-remove_set s t c.idx w, there) in
    let less =
      count-less 53 c.idx (member (remove_set s t)) (member s) (λ i. remove_set-part s t i w) h gone
        ((has_set_iff s t).0 part c.idx there) in
    omega (arith, less, size-count s, size-count (remove_set s t))

-- The first card of a set that is not empty.
pub first_of : (s : CardSet) → IsValid s → is_empty s ≡ false → (c : Card) × (at s 0 ≡ ok c)
first_of s v e = go (elements s) refl
  where
    go : (cs : List Card) → elements s ≡ cs → (c : Card) × (at s 0 ≡ ok c)
    go [] p = absurd (ground (arith, is_empty-size s v, size-length s, ap length p))
    go (c ∷ cs) p = (c, at_lem s 0 ∙ ap (λ l. at_or_throw l 0) p)

is_empty-eq : (s : CardSet) → is_empty s ≡ true → s ≡ empty_set
unfolding is_empty
is_empty-eq s e = ground (arith, (==_iff s.bits 0).0 e)

pub not_empty-add :
    (s : CardSet) (c : Card) → IsValid s → IsCard c → is_empty (add_card s c) ≡ false
not_empty-add s c v h =
    let there : member (add_card s c) c.idx ≡ true = ground (arith, member-add_card s c c.idx h) in
    elim (Bool-cases (is_empty (add_card s c))) [
      | inr e ↦ e
      | inl e ↦
          let none_there : add_card s c ≡ empty_set = is_empty-eq (add_card s c) e in
          let gone : member (add_card s c) c.idx ≡ false =
            ap (λ (t : CardSet). member t c.idx) none_there ∙ member-empty c.idx in
          cc (there, gone)
    ]
