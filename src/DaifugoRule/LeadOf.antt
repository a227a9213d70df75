-- ===== src/DaifugoRule/LeadOf.antt =====
-- The loop of `_tryGetFirstCard` over a list of cards.
use neof5client.Base.{
  ℕ, suc, ◌+◌, ◌≡◌, ◌≢◌, refl, ap, subst, ◌∙◌, true, false, ◌==◌, ◌⊎◌, inl, inr, arith,
  if◌then◌else◌, List, [], ◌∷◌, length, Option, none, some, ok, Bool-cases,
}
use neof5client.Card.{Card, get_num, is_joker}
use neof5client.CardSet.{CardSet, at}
use neof5client.CardSet.Elements.{at_or_throw}
use neof5client.CardSet.Vector.{in_cards}
use neof5client.DaifugoRule.{first_card_loop}

-- The loop over a list.
pub lead_of : Option Card → List Card → Option (Option Card)
lead_of check [] = some check
lead_of check (c ∷ cs) = elim (is_joker c) [
  | true ↦ lead_of check cs
  | false ↦ elim check [
    | none ↦ lead_of (some c) cs
    | some d ↦ elim (get_num d == get_num c) [ true ↦ lead_of (some d) cs | false ↦ none ]
  ]
]

at_here :
    (s : CardSet) (c : Card) (cs : List Card) (i : ℕ)
    → ((k : ℕ) → at s (i + k) ≡ at_or_throw (c ∷ cs) k)
    → at s i ≡ ok c
at_here s c cs i h = let here : i ≡ i + 0 = omega arith in ap (at s) here ∙ h 0

at_rest :
    (s : CardSet) (c : Card) (cs : List Card) (i : ℕ)
    → ((k : ℕ) → at s (i + k) ≡ at_or_throw (c ∷ cs) k)
    → (k : ℕ) → at s (i + 1 + k) ≡ at_or_throw cs k
at_rest s c cs i h k =
    let later : i + 1 + k ≡ i + suc k = omega arith in ap (at s) later ∙ h (suc k)

pub loop_lem :
    (s : CardSet) (cs : List Card) (i : ℕ) (check : Option Card)
    → ((k : ℕ) → at s (i + k) ≡ at_or_throw cs k)
    → first_card_loop s (length cs) i check ≡ ok (lead_of check cs)
unfolding first_card_loop lead_of
loop_lem s [] i check h = refl
loop_lem s (c ∷ cs) i none h = rw (at_here s c cs i h) (
    ground (
      arith,
      loop_lem s cs (i + 1) none (at_rest s c cs i h),
      loop_lem s cs (i + 1) (some c) (at_rest s c cs i h),
    ))
loop_lem s (c ∷ cs) i (some d) h =
    rw (at_here s c cs i h) (ground (arith, loop_lem s cs (i + 1) (some d) (at_rest s c cs i h)))

-- The card `e` is on the list.
abbrev pub On : List Card → Card → Type 0
On cs e = in_cards cs e.idx ≡ true

abbrev pub OneRank : Card → List Card → Type 0
OneRank d cs = (e : Card) → On cs e → is_joker e ≡ false → get_num e ≡ get_num d

abbrev pub Plain : List Card → Card → Type 0
Plain cs e = On cs e × (is_joker e ≡ false)

pub On-cons : (c : Card) (cs : List Card) (e : Card) → On (c ∷ cs) e → (c ≡ e) ⊎ On cs e
unfolding in_cards
On-cons c cs e h = ground arith

pub On-head : (c : Card) (cs : List Card) → On (c ∷ cs) c
unfolding in_cards
On-head c cs = ground arith

pub On-tail : (c : Card) (cs : List Card) (e : Card) → On cs e → On (c ∷ cs) e
unfolding in_cards
On-tail c cs e h = ground arith

OneRank-cons :
    (d c : Card) (cs : List Card)
    → (is_joker c ≡ false → get_num c ≡ get_num d)
    → OneRank d cs
    → OneRank d (c ∷ cs)
OneRank-cons d c cs h rest e on plain = elim (On-cons c cs e on) [
  | inl p ↦ subst (λ x. is_joker x ≡ false → get_num x ≡ get_num d) p h plain
  | inr q ↦ rest e q plain
]

lead_of_joker :
    (check : Option Card) (c : Card) (cs : List Card)
    → is_joker c ≡ true
    → lead_of check (c ∷ cs) ≡ lead_of check cs
unfolding lead_of
lead_of_joker check c cs h = ground arith

lead_of_new :
    (c : Card) (cs : List Card) → is_joker c ≡ false → lead_of none (c ∷ cs) ≡ lead_of (some c) cs
unfolding lead_of
lead_of_new c cs h = ground arith

lead_of_next :
    (d c : Card) (cs : List Card)
    → is_joker c ≡ false
    → lead_of (some d) (c ∷ cs) ≡ (if get_num d == get_num c then lead_of (some d) cs else none)
unfolding lead_of
lead_of_next d c cs h = ground arith

-- With a card in hand, the loop keeps it to the end or meets another number.
lead_of-some :
    (d : Card) (cs : List Card)
    → ((lead_of (some d) cs ≡ some (some d)) × OneRank d cs)
      ⊎ ((lead_of (some d) cs ≡ none) × (e : Card) × Plain cs e × (get_num d ≢ get_num e))
lead_of-some d [] = inl (unfold lead_of in refl, λ e on plain. unfold in_cards in cc)
lead_of-some d (c ∷ cs) = elim (Bool-cases (is_joker c)) [
  | inl j ↦ elim (lead_of-some d cs) [
    | inl (p, q) ↦ inl (lead_of_joker (some d) c cs j ∙ p, OneRank-cons d c cs (λ f. cc) q)
    | inr (p, e, (on, plain), ne) ↦
        inr (lead_of_joker (some d) c cs j ∙ p, e, (On-tail c cs e on, plain), ne)
  ]
  | inr f ↦ elim (Bool-cases (get_num d == get_num c)) [
    | inr ne ↦ inr (ground (arith, lead_of_next d c cs f), c, (On-head c cs, f), ground arith)
    | inl eq ↦ elim (lead_of-some d cs) [
      | inl (p, q) ↦
          inl (ground (arith, lead_of_next d c cs f), OneRank-cons d c cs (λ g. ground arith) q)
      | inr (p, e, (on, plain), ne) ↦
          inr (ground (arith, lead_of_next d c cs f), e, (On-tail c cs e on, plain), ne)
    ]
  ]
]

-- With none in hand, it meets jokers only, or takes up the first other card.
pub lead_of-none :
    (cs : List Card)
    → ((lead_of none cs ≡ some none) × ((e : Card) → On cs e → is_joker e ≡ true))
      ⊎ ((d : Card) × Plain cs d × (lead_of none cs ≡ some (some d)) × OneRank d cs)
      ⊎ ((lead_of none cs ≡ none)
          × (d : Card) × (e : Card) × Plain cs d
          × Plain cs e
          × (get_num d ≢ get_num e))
lead_of-none [] = inl (unfold lead_of in refl, λ e on. unfold in_cards in cc)
lead_of-none (c ∷ cs) = elim (Bool-cases (is_joker c)) [
  | inl j ↦ elim (lead_of-none cs) [
    | inl (p, q) ↦ inl (
      lead_of_joker none c cs j ∙ p,
      λ e on. elim (On-cons c cs e on) [
        | inl here ↦ subst (λ x. is_joker x ≡ true) here j
        | inr later ↦ q e later
      ],
    )
    | inr (inl (d, (on, plain), p, q)) ↦ inr (
        inl (
          d,
          (On-tail c cs d on, plain),
          lead_of_joker none c cs j ∙ p,
          OneRank-cons d c cs (λ f. cc) q,
        ))
    | inr (inr (p, d, e, (on, plain), (on', plain'), ne)) ↦ inr (
        inr (
          lead_of_joker none c cs j ∙ p,
          d,
          e,
          (On-tail c cs d on, plain),
          (On-tail c cs e on', plain'),
          ne,
        ))
  ]
  | inr f ↦ elim (lead_of-some c cs) [
    | inl (p, q) ↦
        inr (inl (c, (On-head c cs, f), lead_of_new c cs f ∙ p, OneRank-cons c c cs (λ g. refl) q))
    | inr (p, e, (on, plain), ne) ↦
        inr (inr (lead_of_new c cs f ∙ p, c, e, (On-head c cs, f), (On-tail c cs e on, plain), ne))
  ]
]
