-- ===== src/PoorPlayer/Window.antt =====
-- The windows of a hand that `PoorPlayer::think` tries.
use neof5client.Base.{
  ℕ, zero, suc, ◌+◌, ◌≤◌, ◌<◌, ◌≡◌, refl, sym, ap, ◌∙◌, true, List, [], ◌∷◌, ok, arith, length,
  take, drop, bit_or,
}
use neof5client.Card.{Card}
use neof5client.CardSet.{
  CardSet, empty_set, add_card, from_vector, from_vector_loop, has_set, mask_of,
}
use neof5client.CardSet.Members.{IsValid, member, has_set_iff}
use neof5client.CardSet.Vector.{AllCards, in_cards, member-from_vector, from_vector-IsValid}
use neof5client.PoorPlayer.{collect, element}

-- The `n` cards from place `i` on.
abbrev pub window : List Card → ℕ → ℕ → List Card
window cs n i = take n (drop i cs)

pub drop-cons :
    (cs : List Card) (i : ℕ)
    → i < length cs
    → (c : Card) × (element cs i ≡ ok c) × (drop i cs ≡ c ∷ drop (suc i) cs)
drop-cons [] i h = absurd (omega arith)
drop-cons (c ∷ cs) zero h = (c, refl, drop-zero cs)
  where
    drop-zero : (cs : List Card) → c ∷ cs ≡ c ∷ drop 0 cs
    drop-zero cs = refl
drop-cons (c ∷ cs) (suc i) h = drop-cons cs i (omega arith)

collect_step :
    (cs : List Card) (n i bits : ℕ) (c : Card)
    → element cs i ≡ ok c
    → collect cs (suc n) i (record { bits = bits })
      ≡ collect cs n (i + 1) (record { bits = bit_or bits (mask_of c.idx) })
unfolding collect add_card
collect_step cs n i bits c h = rw h refl

collect-window :
    (cs : List Card) (n i bits : ℕ)
    → i + n ≤ length cs
    → collect cs n i (record { bits = bits })
      ≡ ok (record { bits = from_vector_loop bits (window cs n i) })
collect-window cs zero i bits h = unfold collect from_vector_loop in refl
collect-window cs (suc n) i bits h =
    let (c, read, rest) = drop-cons cs i (omega arith) in
    let next : i + 1 ≡ suc i = omega arith in
    collect_step cs n i bits c read
    ∙ ap (λ k. collect cs n k (record { bits = bit_or bits (mask_of c.idx) })) next
    ∙ collect-window cs n (suc i) (bit_or bits (mask_of c.idx)) (omega arith)
    ∙ ap (λ l. ok (record { bits = l })) (window_bits c rest)
  where
    window_bits :
        (c : Card)
        → drop i cs ≡ c ∷ drop (suc i) cs
        → from_vector_loop (bit_or bits (mask_of c.idx)) (window cs n (suc i))
          ≡ from_vector_loop bits (window cs (suc n) i)
    window_bits c rest = rw rest (unfold from_vector_loop in refl)

-- The set of the window at `i`.
abbrev pub hand_at : List Card → ℕ → ℕ → CardSet
hand_at cs n i = from_vector (window cs n i)

pub collect-hand_at :
    (cs : List Card) (n i : ℕ) → i + n ≤ length cs → collect cs n i empty_set ≡ ok (hand_at cs n i)
unfolding from_vector
collect-hand_at cs n i h = collect-window cs n i 0 h

take-in_cards :
    (n : ℕ) (cs : List Card) (j : ℕ) → in_cards (take n cs) j ≡ true → in_cards cs j ≡ true
unfolding in_cards
take-in_cards zero cs j h = cc
take-in_cards (suc n) [] j h = cc
take-in_cards (suc n) (c ∷ cs) j h = ground (arith, take-in_cards n cs j)

drop-in_cards :
    (i : ℕ) (cs : List Card) (j : ℕ) → in_cards (drop i cs) j ≡ true → in_cards cs j ≡ true
unfolding in_cards
drop-in_cards zero cs j h = h
drop-in_cards (suc i) [] j h = cc
drop-in_cards (suc i) (c ∷ cs) j h = ground (arith, drop-in_cards i cs j)

take-AllCards : (n : ℕ) (cs : List Card) → AllCards cs → AllCards (take n cs)
take-AllCards zero cs h = refl
take-AllCards (suc n) [] h = refl
take-AllCards (suc n) (c ∷ cs) (hc, h) = (hc, take-AllCards n cs h)

drop-AllCards : (i : ℕ) (cs : List Card) → AllCards cs → AllCards (drop i cs)
drop-AllCards zero cs h = h
drop-AllCards (suc i) [] h = refl
drop-AllCards (suc i) (c ∷ cs) (hc, h) = drop-AllCards i cs h

window-AllCards : (cs : List Card) (n i : ℕ) → AllCards cs → AllCards (window cs n i)
window-AllCards cs n i h = take-AllCards n (drop i cs) (drop-AllCards i cs h)

pub hand_at-IsValid : (cs : List Card) (n i : ℕ) → AllCards cs → IsValid (hand_at cs n i)
hand_at-IsValid cs n i h = from_vector-IsValid (window cs n i) (window-AllCards cs n i h)

-- A window of the sorted hand is a part of the deck.
pub has_set-hand_at :
    (deck : CardSet) (cs : List Card) (n i : ℕ)
    → AllCards cs
    → ((j : ℕ) → in_cards cs j ≡ member deck j)
    → has_set deck (hand_at cs n i) ≡ true
has_set-hand_at deck cs n i h same = (has_set_iff deck (hand_at cs n i)).1 λ j there.
    sym (same j)
    ∙ drop-in_cards i cs j (
        take-in_cards n (drop i cs) j
          (sym (member-from_vector (window cs n i) j (window-AllCards cs n i h)) ∙ there))
