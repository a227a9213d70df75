-- ===== src/CardSet/Reading.antt =====
-- The constructor from a text on any text at all.
use neof5client.Base.{
  ℕ, ◌<◌, ◌^◌, ◌≡◌, refl, sym, ◌∙◌, false, ◌||◌, ◌==◌, List, [], ◌∷◌, Outcome, ok, thrown,
  undefined, ◌>>=◌, arith, bit_or, Bool-cases, inl, inr, out_of_fuel,
}
use neof5client.Base.Int.{ℤ, pos, negsuc}
use neof5client.Card.{calc_card_id_from_string, checked_id}
use neof5client.CardSet.{CardSet, from_text, from_text_loop, add_card, mask_of, mask_of_int}
use neof5client.CardSet.Members.{IsValid}
use neof5client.CardSet.Contract.{add_card-IsValid}

-- An id that passes the check and is no negative number is below 53.
checked-lt : (i : ℤ) (id : ℕ) → checked_id i ≡ ok (pos id) → id < 53
checked-lt (pos n) id h = ground arith
checked-lt (negsuc n) id h = ground arith

calc_id-lt : (c d id : ℕ) → calc_card_id_from_string c d ≡ ok (pos id) → id < 53
unfolding calc_card_id_from_string
calc_id-lt c d id h = checked-lt _ id h

add_mask-IsValid : (bits id : ℕ) → bits < 2 ^ 53 → id < 53 → bit_or bits (mask_of id) < 2 ^ 53
add_mask-IsValid bits id v lt =
    unfold add_card in add_card-IsValid (record { bits = bits }) (record { idx = id }) v lt

-- A card read in the middle of a text: its id is that of a card, or the shift is undefined.
read_card-IsValid :
    (bits c d : ℕ) (next : ℕ → Outcome CardSet) (s : CardSet)
    → bits < 2 ^ 53
    → ((more : ℕ) → more < 2 ^ 53 → next more ≡ ok s → IsValid s)
    → (do id ← calc_card_id_from_string c d; mask ← mask_of_int id; next (bit_or bits mask)) ≡ ok s
    → IsValid s
read_card-IsValid bits c d next s v ih h = go (calc_card_id_from_string c d) refl h
  where
    go :
        (r : Outcome ℤ)
        → calc_card_id_from_string c d ≡ r
        → (do id ← r; mask ← mask_of_int id; next (bit_or bits mask)) ≡ ok s
        → IsValid s
    go (ok (pos id)) e k =
        ih (bit_or bits (mask_of id)) (add_mask-IsValid bits id v (calc_id-lt c d id e))
          (unfold mask_of_int in k)
    go (ok (negsuc n)) e k = unfold mask_of_int in cc
    go (thrown x) e k = cc
    go undefined e k = cc
    go out_of_fuel e k = cc

reads_card :
    (bits c d : ℕ) (cs : List ℕ)
    → (c == 0) ≡ false
    → (c == b' ') ≡ false
    → from_text_loop bits (c ∷ d ∷ cs) ≡ (do
      id ← calc_card_id_from_string c d
      mask ← mask_of_int id
      from_text_loop (bit_or bits mask) cs)
unfolding from_text_loop
reads_card bits c d cs e e' = rw (e, from_text_loop) (rw e' refl)

reads_letter :
    (bits c : ℕ)
    → (c == 0 || c == b' ') ≡ false
    → from_text_loop bits (c ∷ [])
      ≡ (do id ← calc_card_id_from_string c 0; mask ← mask_of_int id; undefined)
unfolding from_text_loop
reads_letter bits c e = rw e refl

-- A lone last letter gives no set.
no_lone_letter :
    (r : Outcome ℤ) (s : CardSet) → ¬ ((do id ← r; mask ← mask_of_int id; undefined) ≡ ok s)
unfolding mask_of_int
no_lone_letter (ok (pos id)) s = cc
no_lone_letter (ok (negsuc n)) s = cc
no_lone_letter (thrown x) s = cc
no_lone_letter undefined s = cc
no_lone_letter out_of_fuel s = cc

from_text_loop-IsValid :
    (bits : ℕ) (text : List ℕ) (s : CardSet)
    → bits < 2 ^ 53
    → from_text_loop bits text ≡ ok s
    → IsValid s
unfolding from_text_loop
from_text_loop-IsValid bits [] s v h = ground arith
from_text_loop-IsValid bits (c ∷ []) s v h = elim (Bool-cases (c == 0 || c == b' ')) [
  | inl e ↦ ground arith
  | inr e ↦
      absurd (no_lone_letter (calc_card_id_from_string c 0) s (sym (reads_letter bits c e) ∙ h))
]
from_text_loop-IsValid bits (c ∷ d ∷ cs) s v h = elim (Bool-cases (c == 0)) [
  | inl e ↦ ground arith
  | inr e ↦ elim (Bool-cases (c == b' ')) [
    | inl e' ↦ from_text_loop-IsValid bits (d ∷ cs) s v (ground arith)
    | inr e' ↦
        read_card-IsValid bits c d (λ more. from_text_loop more cs) s v
          (λ more lt k. from_text_loop-IsValid more cs s lt k)
          (sym (reads_card bits c d cs e e') ∙ h)
  ]
]

-- Whatever the text, a set that the constructor returns is a set of the 53 cards.
pub from_text-IsValid : (text : List ℕ) (s : CardSet) → from_text text ≡ ok s → IsValid s
unfolding from_text
from_text-IsValid text s h = from_text_loop-IsValid 0 text s (omega arith) h
