-- ===== src/CardSet/Text.antt =====
-- `toString` and the constructor from a text.
use neof5client.Base.{
  ℕ, suc, ◌+◌, ◌≡◌, refl, sym, ap, ◌∙◌, bit_or, false, ◌==◌, arith, ok, List, [], ◌∷◌, ◌++◌, length,
  append_assoc, append-nil,
}
use neof5client.Card.{Card}
use neof5client.Card.Table.{IsCard}
use neof5client.Card.Text.{suit_byte, num_byte, two_bytes, letters}
use neof5client.CardSet.{
  CardSet, at, from_vector, from_vector_loop, mask_of, from_text, from_text_loop, to_string,
  to_string_loop,
}
use neof5client.CardSet.Members.{IsValid}
use neof5client.CardSet.Elements.{elements, at_lem, at_or_throw, size-length}
use neof5client.CardSet.Vector.{AllCards, elements-AllCards, from_vector-elements}

-- The cards' texts, each behind a space.
abbrev spaced : List Card → List ℕ
spaced [] = []
spaced (c ∷ cs) = b' ' ∷ suit_byte c ∷ num_byte c ∷ spaced cs

-- The cards' texts with a space between them.
abbrev pub joined : List Card → List ℕ
joined [] = []
joined (c ∷ cs) = suit_byte c ∷ num_byte c ∷ spaced cs

to_string_loop_lem :
    (s : CardSet) (cs : List Card) (i : ℕ) (text : List ℕ)
    → ((k : ℕ) → at s (suc i + k) ≡ at_or_throw cs k)
    → to_string_loop s (length cs) (suc i) text ≡ ok (text ++ spaced cs)
unfolding to_string_loop
to_string_loop_lem s [] i text h = ground (arith, append-nil text)
to_string_loop_lem s (c ∷ cs) i text h =
    let here : suc i + 0 ≡ suc i = omega arith in
    let rest : (k : ℕ) → at s (suc (i + 1) + k) ≡ at_or_throw cs k =
      λ k. ap (at s) (omega arith) ∙ h (suc k) in
    let next : suc i + 1 ≡ suc (i + 1) = omega arith in
    let later : (suc i == 0) ≡ false = ground arith in
    rw (sym (ap (at s) here) ∙ h 0, two_bytes c, next, later)
      (to_string_loop_lem s cs (i + 1) _ rest ∙ ap ok (simp append_assoc))

to_string_lem : (s : CardSet) → to_string s ≡ ok (joined (elements s))
unfolding to_string
to_string_lem s = rw (size-length s) (first (elements s) (at_lem s))
  where
    first :
        (cs : List Card)
        → ((k : ℕ) → at s k ≡ at_or_throw cs k)
        → to_string_loop s (length cs) 0 [] ≡ ok (joined cs)
    first [] h = refl
    first (c ∷ cs) h =
        rw (h 0, two_bytes c)
          (to_string_loop_lem s cs 0 _ (λ k. ap (at s) (omega arith) ∙ h (suc k)))

-- The constructor reads one card.
from_text_loop-card :
    (bits : ℕ) (c : Card) (text : List ℕ)
    → IsCard c
    → from_text_loop bits (suit_byte c ∷ num_byte c ∷ text)
      ≡ from_text_loop (bit_or bits (mask_of c.idx)) text
unfolding from_text_loop
from_text_loop-card bits c text h = ground (arith, letters c h)

from_text_loop-spaced :
    (bits : ℕ) (cs : List Card)
    → AllCards cs
    → from_text_loop bits (spaced cs) ≡ ok (record { bits = from_vector_loop bits cs })
from_text_loop-spaced bits [] h = unfold from_text_loop from_vector_loop in refl
from_text_loop-spaced bits (c ∷ cs) (hc, h) =
    skip_space
    ∙ from_text_loop-card bits c (spaced cs) hc
    ∙ from_text_loop-spaced (bit_or bits (mask_of c.idx)) cs h
    ∙ unfold from_vector_loop in refl
  where
    skip_space :
        from_text_loop bits (spaced (c ∷ cs))
        ≡ from_text_loop bits (suit_byte c ∷ num_byte c ∷ spaced cs)
    skip_space = unfold from_text_loop in refl

from_text-joined : (cs : List Card) → AllCards cs → from_text (joined cs) ≡ ok (from_vector cs)
unfolding from_text from_vector
from_text-joined [] h = refl
from_text-joined (c ∷ cs) (hc, h) =
    from_text_loop-card 0 c (spaced cs) hc ∙ from_text_loop-spaced _ cs h

-- Printing a set of the 53 cards throws nothing, and the constructor from a text reads the set
-- back from it.
pub from_text-to_string :
    (s : CardSet) → IsValid s → (text : List ℕ) × (to_string s ≡ ok text) × (from_text text ≡ ok s)
from_text-to_string s v = (
  joined (elements s),
  to_string_lem s,
  from_text-joined (elements s) (elements-AllCards s) ∙ ap ok (from_vector-elements s v),
)
