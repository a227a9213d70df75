-- ===== src/DaifugoRule/Legal.antt =====
-- `DaifugoRuleA::canPut` decides when a play is legal.
use neof5client.Base.{
  ◌≡◌, ◌≢◌, refl, sym, ap, ◌∙◌, Bool, true, false, ◌==◌, ◌↔◌, ◌⊎◌, inl, inr, arith, if◌then◌else◌,
  none, some, ok, Bool-cases, ==_iff,
}
use neof5client.Card.{Card, is_joker, get_strength}
use neof5client.Card.Table.{IsCard, is_joker_lem, get_num_lem, get_strength_lem}
use neof5client.CardSet.{CardSet, size, is_empty}
use neof5client.CardSet.Members.{IsValid}
use neof5client.CardSet.Vector.{is_empty-size, single_member}
use neof5client.DaifugoRule.{
  Rule, ChkResult, chk_ok, err_different_num, err_count_unmatch, err_invalid_ba, err_not_strong,
  can_put_a, try_get_first_card,
}
use neof5client.DaifugoRule.Strength.{beats, compare_cards_lem}
use neof5client.DaifugoRule.FirstCard.{Leads, TwoRanks, first_card}

-- `c` takes the lead over the set on the table.
abbrev pub Takes : Bool → CardSet → CardSet → Card → Type 0
Takes kakumei cards ba_last c =
    (size ba_last ≡ size cards) × ((b : Card) × Leads ba_last b × (beats kakumei b c ≡ true))

-- A legal play: a pass, or a set of one rank that opens, or takes the lead with as many cards.
abbrev pub LegalPlay : Bool → CardSet → CardSet → Type 0
LegalPlay kakumei cards ba_last =
    (is_empty cards ≡ true)
    ⊎ ((c : Card) × Leads cards c × ((is_empty ba_last ≡ true) ⊎ Takes kakumei cards ba_last c))

-- All cards that stand for a set have one strength.
Leads-strength :
    (s : CardSet) (c d : Card) → IsValid s → Leads s c → Leads s d → get_strength c ≡ get_strength d
Leads-strength s c d v lc ld = elim (Bool-cases (is_joker c)) [
  | inl j ↦ ap get_strength (single_member s c d v (lc.alone j) lc.there ld.there)
  | inr f ↦ elim (Bool-cases (is_joker d)) [
    | inl j ↦ ap get_strength (single_member s c d v (ld.alone j) lc.there ld.there)
    | inr g ↦ ground (
      arith,
      ld.one_rank c lc.card lc.there f,
      get_num_lem c lc.card,
      get_num_lem d ld.card,
      get_strength_lem c lc.card,
      get_strength_lem d ld.card,
      is_joker_lem c lc.card,
      is_joker_lem d ld.card,
    )
  ]
]

beats-strength :
    (k : Bool) (a b c d : Card)
    → IsCard a
    → IsCard b
    → IsCard c
    → IsCard d
    → get_strength a ≡ get_strength c
    → get_strength b ≡ get_strength d
    → beats k a b ≡ beats k c d
beats-strength k a b c d ha hb hc hd p q = ground (
  arith,
  get_strength_lem a ha,
  get_strength_lem b hb,
  get_strength_lem c hc,
  get_strength_lem d hd,
  is_joker_lem a ha,
  is_joker_lem b hb,
  is_joker_lem c hc,
  is_joker_lem d hd,
)

-- A set that a card stands for has no two ranks.
Leads-one_rank : (s : CardSet) (c : Card) → Leads s c → ¬ TwoRanks s
Leads-one_rank s c l (d, e, (hd, td, fd), (he, te, fe), ne) =
    ne (l.one_rank d hd td fd ∙ sym (l.one_rank e he te fe))

-- Why `DaifugoRuleA::canPut` refuses a set.
abbrev pub Refusal : Bool → CardSet → CardSet → ChkResult → Type 0
Refusal kakumei cards ba_last res =
    (TwoRanks cards × (res ≡ err_different_num))
    ⊎ ((size ba_last ≢ size cards) × (is_empty ba_last ≡ false) × (res ≡ err_count_unmatch))
    ⊎ (TwoRanks ba_last × (is_empty ba_last ≡ false) × (res ≡ err_invalid_ba))
    ⊎ ((c : Card) × (b : Card) × Leads cards c
        × Leads ba_last b
        × (beats kakumei b c ≡ false)
        × (is_empty ba_last ≡ false)
        × (res ≡ err_not_strong))

abbrev pub Verdict : Bool → CardSet → CardSet → ChkResult → Type 0
Verdict kakumei cards ba_last res =
    (LegalPlay kakumei cards ba_last × (res ≡ chk_ok))
    ⊎ ((is_empty cards ≡ false) × Refusal kakumei cards ba_last res)

module _ (r : Rule) (cards ba_last : CardSet) where
  passes : is_empty cards ≡ true → can_put_a r cards ba_last ≡ ok chk_ok
  unfolding can_put_a
  passes h = rw h

  two_ranks :
      is_empty cards ≡ false
      → try_get_first_card cards ≡ ok none
      → can_put_a r cards ba_last ≡ ok err_different_num
  unfolding can_put_a
  two_ranks h p = rw (h, p)

  opens :
      (c : Card)
      → is_empty cards ≡ false
      → try_get_first_card cards ≡ ok (some (some c))
      → is_empty ba_last ≡ true
      → can_put_a r cards ba_last ≡ ok chk_ok
  unfolding can_put_a
  opens c h p e = rw (h, p, e)

  other_count :
      (c : Card)
      → is_empty cards ≡ false
      → try_get_first_card cards ≡ ok (some (some c))
      → is_empty ba_last ≡ false
      → (size ba_last == size cards) ≡ false
      → can_put_a r cards ba_last ≡ ok err_count_unmatch
  unfolding can_put_a
  other_count c h p e n = rw (h, p, e, n)

  table_ranks :
      (c : Card)
      → is_empty cards ≡ false
      → try_get_first_card cards ≡ ok (some (some c))
      → is_empty ba_last ≡ false
      → (size ba_last == size cards) ≡ true
      → try_get_first_card ba_last ≡ ok none
      → can_put_a r cards ba_last ≡ ok err_invalid_ba
  unfolding can_put_a
  table_ranks c h p e n q = rw (h, p, e, n, q)

  compares :
      (b c : Card)
      → IsCard b
      → IsCard c
      → is_empty cards ≡ false
      → try_get_first_card cards ≡ ok (some (some c))
      → is_empty ba_last ≡ false
      → (size ba_last == size cards) ≡ true
      → try_get_first_card ba_last ≡ ok (some (some b))
      → can_put_a r cards ba_last ≡ ok (if beats r.is_kakumei b c then chk_ok else err_not_strong)
  unfolding can_put_a
  compares b c hb hc h p e n q = rw (h, p, e, n, q) (ground (arith, compare_cards_lem r b c hb hc))

module _ (r : Rule) (cards ba_last : CardSet) (v : IsValid cards) (w : IsValid ba_last) where
  abbrev Answer : Type 0
  Answer =
      (res : ChkResult) × (can_put_a r cards ba_last ≡ ok res)
      × Verdict r.is_kakumei cards ba_last res

  -- A set of one rank against a set on the table.
  against :
      (c : Card)
      → Leads cards c
      → is_empty cards ≡ false
      → try_get_first_card cards ≡ ok (some (some c))
      → is_empty ba_last ≡ false
      → (size ba_last == size cards) ≡ true
      → Answer
  against c lc h p e n = elim (first_card ba_last w) [
    | inl (none_there, q) ↦ absurd (ground (arith, is_empty-size ba_last w))
    | inr (inl (b, lb, q)) ↦ elim (Bool-cases (beats r.is_kakumei b c)) [
      | inl yes_it_does ↦ (
        chk_ok,
        (compares r cards ba_last b c lb.card lc.card h p e n q ∙ rw yes_it_does),
        inl (inr (c, lc, inr ((==_iff _ _).0 n, (b, lb, yes_it_does))), refl),
      )
      | inr it_does_not ↦ (
        err_not_strong,
        (compares r cards ba_last b c lb.card lc.card h p e n q ∙ rw it_does_not),
        inr (h, inr (inr (inr (c, b, lc, lb, it_does_not, e, refl)))),
      )
    ]
    | inr (inr (ranks, q)) ↦ (
      err_invalid_ba,
      table_ranks r cards ba_last c h p e n q,
      inr (h, inr (inr (inl (ranks, e, refl)))),
    )
  ]

  plays : is_empty cards ≡ false → Answer
  plays h = elim (first_card cards v) [
    | inl (none_there, p) ↦ absurd (ground (arith, is_empty-size cards v))
    | inr (inr (ranks, p)) ↦
        (err_different_num, two_ranks r cards ba_last h p, inr (h, inl (ranks, refl)))
    | inr (inl (c, lc, p)) ↦ elim (Bool-cases (is_empty ba_last)) [
      | inl e ↦ (chk_ok, opens r cards ba_last c h p e, inl (inr (c, lc, inl e), refl))
      | inr e ↦ elim (Bool-cases (size ba_last == size cards)) [
        | inl n ↦ against c lc h p e n
        | inr n ↦ (
          err_count_unmatch,
          other_count r cards ba_last c h p e n,
          inr (h, inr (inl (ground arith, e, refl))),
        )
      ]
    ]
  ]

  -- For two sets of the 53 cards, `DaifugoRuleA::canPut` throws nothing and reads no null pointer.
  -- It answers OK for a legal play, and otherwise one of its four errors, each with its reason: two
  -- ranks played, another number of cards than on the table, two ranks on the table, or a card that
  -- does not beat the one on the table.
  pub can_put_a_verdict : Answer
  can_put_a_verdict = elim (Bool-cases (is_empty cards)) [
    | inl e ↦ (chk_ok, passes r cards ba_last e, inl (inl e, refl))
    | inr h ↦ plays h
  ]

  -- A legal play meets none of the reasons for a refusal.
  not_refused :
      (c : Card)
      → Leads cards c
      → (is_empty ba_last ≡ true) ⊎ Takes r.is_kakumei cards ba_last c
      → (res : ChkResult) → ¬ Refusal r.is_kakumei cards ba_last res
  not_refused c lc way res (inl (ranks, p)) = Leads-one_rank cards c lc ranks
  not_refused c lc (inl e) res (inr (inl (n, f, p))) = cc
  not_refused c lc (inr (n', rest)) res (inr (inl (n, f, p))) = n n'
  not_refused c lc (inl e) res (inr (inr (inl (ranks, f, p)))) = cc
  not_refused c lc (inr (n, (b, lb, win))) res (inr (inr (inl (ranks, f, p)))) =
      Leads-one_rank ba_last b lb ranks
  not_refused c lc (inl e) res (inr (inr (inr (d, b, ld, lb, lose, f, p)))) = cc
  not_refused c lc (inr (n, (b', lb', win))) res (inr (inr (inr (d, b, ld, lb, lose, f, p)))) = cc (
      beats-strength r.is_kakumei b' c b d lb'.card lc.card lb.card ld.card
        (Leads-strength ba_last b' b w lb' lb) (Leads-strength cards c d v lc ld))

  accepted :
      (res : ChkResult)
      → Verdict r.is_kakumei cards ba_last res
      → LegalPlay r.is_kakumei cards ba_last
      → res ≡ chk_ok
  accepted res (inl (l, p)) legal = p
  accepted res (inr (h, reason)) (inl e) = cc
  accepted res (inr (h, reason)) (inr (c, lc, way)) = absurd (not_refused c lc way res reason)

  refused :
      (res : ChkResult)
      → Verdict r.is_kakumei cards ba_last res
      → res ≡ chk_ok
      → LegalPlay r.is_kakumei cards ba_last
  refused res (inl (l, p)) e = l
  refused res (inr (h, inl (ranks, p))) e = cc
  refused res (inr (h, inr (inl (n, f, p)))) e = cc
  refused res (inr (h, inr (inr (inl (ranks, f, p))))) e = cc
  refused res (inr (h, inr (inr (inr (d, b, ld, lb, lose, f, p))))) e = cc

  -- For two sets of the 53 cards, `DaifugoRuleA::canPut` answers OK exactly for a legal play.
  pub can_put_a_iff : (can_put_a r cards ba_last ≡ ok chk_ok) ↔ LegalPlay r.is_kakumei cards ba_last
  can_put_a_iff =
      let (res, answers, verdict) = can_put_a_verdict in
      (
        λ h. refused res verdict (ground arith),
        λ legal. answers ∙ ap ok (accepted res verdict legal),
      )
