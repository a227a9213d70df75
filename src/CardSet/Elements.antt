-- ===== src/CardSet/Elements.antt =====
-- `conv2Vector`, `size` and `at` are three readings of one list: the indices of the set's cards
-- in ascending order.
use neof5client.Base.{
  ℕ, zero, suc, ◌+◌, ◌/◌, ◌%◌, ◌^◌, ◌≤◌, ◌<◌, ◌≡◌, refl, ap, ◌∙◌, ◌==◌, arith, ok, Outcome,
  if◌then◌else◌, List, [], ◌∷◌, ◌++◌, map, append-nil, append_assoc, length, thrown,
  index_out_of_range,
}
use neof5client.Base.Bits.{bit_and-low}
use native.Mathlib.Nat.{pow-suc}
use neof5client.Card.{Card, card_count, make_card}
use neof5client.CardSet.{CardSet, size, size_loop, conv2_vector, conv2_vector_loop, at, at_loop}
use neof5client.CardSet.Members.{IsValid}

-- The set bits of `b` among the lowest `n`, as indices counted from `i`.
unfoldable pub indices : ℕ → ℕ → ℕ → List ℕ
indices zero b i = []
indices (suc n) b i =
    if b % 2 == 1 then i ∷ indices n (b / 2) (i + 1) else indices n (b / 2) (i + 1)

abbrev pub card_at : ℕ → Card
card_at i = record { idx = i }

-- The cards of a set, from the weakest to the strongest.
unfoldable pub elements : CardSet → List Card
elements s = map card_at (indices card_count s.bits 0)

pub length-map_card : (xs : List ℕ) → length (map card_at xs) ≡ length xs
length-map_card [] = refl
length-map_card (x ∷ xs) = ap suc (length-map_card xs)

size_loop_lem : (n b i count : ℕ) → size_loop n b count ≡ count + length (indices n b i)
unfolding size_loop indices
size_loop_lem zero b i count = omega arith
size_loop_lem (suc n) b i count = ground (
  arith,
  bit_and-low b,
  size_loop_lem n (b / 2) (i + 1) count,
  size_loop_lem n (b / 2) (i + 1) (count + 1),
)

-- `size` is the number of cards.
pub size-length : (s : CardSet) → size s ≡ length (elements s)
unfolding size elements
size-length s =
    size_loop_lem card_count s.bits 0 0
    ∙ omega (arith, length-map_card (indices card_count s.bits 0))

make_card_lem : (i : ℕ) → i < 53 → make_card (i % 256) ≡ ok (card_at i)
unfolding make_card
make_card_lem i h = ground arith

-- A word with no bit set has no indices.
indices-zero : (n i : ℕ) → indices n 0 i ≡ []
unfolding indices
indices-zero zero i = refl
indices-zero (suc n) i = indices-zero n (i + 1)

conv2_vector_loop_lem :
    (n fuel b i : ℕ) (v : List Card)
    → n ≤ fuel
    → b < 2 ^ n
    → i + n ≤ 53
    → conv2_vector_loop fuel b i v ≡ ok (v ++ map card_at (indices n b i))
unfolding conv2_vector_loop indices
conv2_vector_loop_lem zero zero b i v h lt le = ground (arith, append-nil v)
conv2_vector_loop_lem zero (suc fuel) b i v h lt le = ground (arith, append-nil v)
conv2_vector_loop_lem (suc n) zero b i v h lt le = absurd (omega arith)
conv2_vector_loop_lem (suc n) (suc fuel) b i v h lt le = ground (
  arith,
  bit_and-low b,
  append-nil v,
  append_assoc v (card_at i ∷ []) (map card_at (indices n (b / 2) (i + 1))),
  indices-zero n (i + 1),
  make_card_lem i (omega arith),
  pow-suc 2 n,
  conv2_vector_loop_lem n fuel (b / 2) (i + 1) v,
  conv2_vector_loop_lem n fuel (b / 2) (i + 1) (v ++ card_at i ∷ []),
)

-- The loop of `conv2Vector` ends within its 64 rounds, throws nothing, and lists the cards.
pub conv2_vector_lem : (s : CardSet) → IsValid s → conv2_vector s ≡ ok (elements s)
unfolding conv2_vector elements
conv2_vector_lem s v = conv2_vector_loop_lem 53 64 s.bits 0 [] (omega arith) v (omega arith)

-- The card at a place of a list, or the exception of `at`.
abbrev pub at_or_throw : List Card → ℕ → Outcome Card
at_or_throw [] k = thrown index_out_of_range
at_or_throw (c ∷ cs) zero = ok c
at_or_throw (c ∷ cs) (suc k) = at_or_throw cs k

at_loop_lem :
    (n b i k hit index : ℕ)
    → i + n ≤ 53
    → hit + k ≡ index
    → at_loop n index b hit i ≡ at_or_throw (map card_at (indices n b i)) k
unfolding at_loop indices
at_loop_lem zero b i k hit index le e = refl
at_loop_lem (suc n) b i zero hit index le e =
    ground (
      arith,
      bit_and-low b,
      make_card_lem i (omega arith),
      at_loop_lem n (b / 2) (i + 1) 0 hit index,
    )
at_loop_lem (suc n) b i (suc k) hit index le e = ground (
  arith,
  bit_and-low b,
  at_loop_lem n (b / 2) (i + 1) (suc k) hit index,
  at_loop_lem n (b / 2) (i + 1) k (hit + 1) index,
)

pub at_lem : (s : CardSet) (k : ℕ) → at s k ≡ at_or_throw (elements s) k
unfolding at elements
at_lem s k = at_loop_lem 53 s.bits 0 k 0 k (omega arith) (omega arith)

length-indices-le : (n b i : ℕ) → length (indices n b i) ≤ n
unfolding indices
length-indices-le zero b i = omega arith
length-indices-le (suc n) b i = ground (arith, length-indices-le n (b / 2) (i + 1))

-- There are 53 cards.
pub size-le : (s : CardSet) → size s ≤ 53
unfolding elements
size-le s =
    omega
      (arith, size-length s, length-map_card (indices 53 s.bits 0), length-indices-le 53 s.bits 0)
