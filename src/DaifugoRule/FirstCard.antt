-- ===== src/DaifugoRule/FirstCard.antt =====
-- `_tryGetFirstCard`: the card that stands for a set of one rank.
use neof5client.Base.{
  ℕ, suc, ◌+◌, ◌≡◌, ◌≢◌, refl, sym, ap, subst, ◌∙◌, true, false, ◌==◌, ◌⊎◌, inl, inr, arith, List,
  [], ◌∷◌, length, Option, none, some, Outcome, ok,
}
use neof5client.Card.{Card, get_num, is_joker}
use neof5client.Card.Table.{IsCard, is_joker_lem}
use neof5client.CardSet.{CardSet, size, at}
use neof5client.CardSet.Members.{IsValid, member, member_above}
use neof5client.CardSet.Elements.{elements, at_lem, at_or_throw, size-length}
use neof5client.CardSet.Vector.{
  in_cards, AllCards, Ascending, elements-AllCards, elements-Ascending, in_cards-elements,
}
use neof5client.DaifugoRule.{first_card_loop, try_get_first_card}
use neof5client.DaifugoRule.LeadOf.{
  On, On-cons, On-head, On-tail, Plain, lead_of, lead_of-none, loop_lem,
}

-- `c` stands for the set: it is one of its cards, it is the joker only if it is alone, and every
-- card but the joker has its number.
pub record Leads (s : CardSet) (c : Card) : Type 0 where
  pub card : IsCard c
  pub there : member s c.idx ≡ true
  pub alone : is_joker c ≡ true → size s ≡ 1
  pub one_rank :
      (e : Card) → IsCard e → member s e.idx ≡ true → is_joker e ≡ false → get_num e ≡ get_num c

-- Two cards of the set, neither the joker, have different numbers.
abbrev pub TwoRanks : CardSet → Type 0
TwoRanks s =
    (c : Card) × (d : Card) × (IsCard c × (member s c.idx ≡ true) × (is_joker c ≡ false))
    × (IsCard d × (member s d.idx ≡ true) × (is_joker d ≡ false))
    × (get_num c ≢ get_num d)

On-IsCard : (s : CardSet) (e : Card) → IsValid s → On (elements s) e → IsCard e
On-IsCard s e v on = ground (arith, in_cards-elements s e.idx v, member_above s e.idx v)

-- Two jokers cannot be on an ascending list.
not-all_jokers :
    (c d : Card) (cs : List Card)
    → AllCards (c ∷ d ∷ cs)
    → Ascending 0 (c ∷ d ∷ cs)
    → ¬ ((e : Card) → On (c ∷ d ∷ cs) e → is_joker e ≡ true)
not-all_jokers c d cs (hc, (hd, h)) (lo, (lt, a)) all = ground (
  arith,
  is_joker_lem c hc,
  is_joker_lem d hd,
  all c (On-head c (d ∷ cs)),
  all d (On-tail c (d ∷ cs) d (On-head d cs)),
)

-- What `_tryGetFirstCard` can do with a set: nothing on it, a card that stands for it, or two
-- ranks. It never hands out a null pointer.
abbrev pub FirstCard : CardSet → Outcome (Option (Option Card)) → Type 0
FirstCard s r =
    ((size s ≡ 0) × (r ≡ ok none))
    ⊎ ((c : Card) × Leads s c × (r ≡ ok (some (some c))))
    ⊎ (TwoRanks s × (r ≡ ok none))

Plain-card :
    (s : CardSet) (e : Card)
    → IsValid s
    → Plain (elements s) e
    → IsCard e × (member s e.idx ≡ true) × (is_joker e ≡ false)
Plain-card s e v (on, plain) = (On-IsCard s e v on, sym (in_cards-elements s e.idx v) ∙ on, plain)

many_cards :
    (s : CardSet) (c d : Card) (cs : List Card)
    → IsValid s
    → elements s ≡ c ∷ d ∷ cs
    → FirstCard s (ok (lead_of none (elements s)))
many_cards s c d cs v e = elim (lead_of-none (elements s)) [
  | inl (p, all) ↦ absurd (
      not-all_jokers c d cs (subst AllCards e (elements-AllCards s))
        (subst (Ascending 0) e (elements-Ascending s))
        (subst (λ l. (x : Card) → On l x → is_joker x ≡ true) e all))
  | inr (inl (x, plain, p, rank)) ↦ inr (
      inl (
        x,
        (let facts = Plain-card s x v plain in
            record {
              card = facts.0;
              there = facts.1;
              alone = λ j. ground arith;
              one_rank = λ y hy there. rank y (in_cards-elements s y.idx v ∙ there);
            }),
        ap ok p,
      ))
  | inr (inr (p, x, y, plain, plain', ne)) ↦
      inr (inr ((x, y, Plain-card s x v plain, Plain-card s y v plain', ne), ap ok p))
]

one_card : (s : CardSet) (c : Card) → IsValid s → elements s ≡ c ∷ [] → Leads s c
one_card s c v e = record {
  card = On-IsCard s c v on;
  there = sym (in_cards-elements s c.idx v) ∙ on;
  alone = λ j. size-length s ∙ ap length e;
  one_rank = λ y hy there plain. ap get_num (same y (sym (on_list y there)));
}
  where
    on : On (elements s) c
    on = subst (λ l. On l c) (sym e) (On-head c [])

    on_list : (y : Card) → member s y.idx ≡ true → true ≡ in_cards (c ∷ []) y.idx
    on_list y there = sym (subst (λ l. On l y) e (in_cards-elements s y.idx v ∙ there))

    same : (y : Card) → in_cards (c ∷ []) y.idx ≡ true → y ≡ c
    same y h = elim (On-cons c [] y h) [ inl p ↦ sym p | inr q ↦ absurd (unfold in_cards in (cc)) ]

try_empty : (s : CardSet) → size s ≡ 0 → try_get_first_card s ≡ ok none
unfolding try_get_first_card
try_empty s h = rw (h, try_get_first_card) refl

try_single :
    (s : CardSet) (c : Card)
    → size s ≡ 1
    → at s 0 ≡ ok c
    → try_get_first_card s ≡ ok (some (some c))
unfolding try_get_first_card
try_single s c h k =
    let some_left : (size s == 0) ≡ false = ground arith in
    let single : (size s == 1) ≡ true = ground arith in
    rw (some_left, single, try_get_first_card) (rw k refl)

try_many :
    (s : CardSet) (n : ℕ)
    → size s ≡ suc (suc n)
    → try_get_first_card s ≡ first_card_loop s (size s) 0 none
unfolding try_get_first_card
try_many s n h =
    let some_left : (size s == 0) ≡ false = ground arith in
    let not_single : (size s == 1) ≡ false = ground arith in
    rw (some_left, not_single, try_get_first_card) refl

loop_on_elements :
    (s : CardSet) → first_card_loop s (size s) 0 none ≡ ok (lead_of none (elements s))
loop_on_elements s = rw (size-length s) (loop_lem s (elements s) 0 none starts)
  where
    starts : (k : ℕ) → at s (0 + k) ≡ at_or_throw (elements s) k
    starts k = let here : 0 + k ≡ k = omega arith in ap (at s) here ∙ at_lem s k

pub first_card : (s : CardSet) → IsValid s → FirstCard s (try_get_first_card s)
first_card s v = go (elements s) refl
  where
    go : (cs : List Card) → elements s ≡ cs → FirstCard s (try_get_first_card s)
    go [] e = let count : size s ≡ 0 = size-length s ∙ ap length e in inl (count, try_empty s count)
    go (c ∷ []) e =
        let count : size s ≡ 1 = size-length s ∙ ap length e in
        let here : at s 0 ≡ ok c = at_lem s 0 ∙ ap (λ l. at_or_throw l 0) e in
        inr (inl (c, one_card s c v e, try_single s c count here))
    go (c ∷ d ∷ cs) e =
        let count : size s ≡ suc (suc (length cs)) = size-length s ∙ ap length e in
        subst (FirstCard s) (sym (try_many s (length cs) count ∙ loop_on_elements s))
          (many_cards s c d cs v e)
