-- ===== src/SagePlayer/Answer.antt =====
-- The answer of `SagePlayer::think2` and `think`.
use neof5client.Base.{
  ℕ, ◌+◌, ◌≡◌, refl, sym, subst, [], ◌∷◌, Outcome, ok, undefined, arith, Option, none, some, ◌⊎◌,
  inl, inr, Bool-cases,
}
use neof5client.CardSet.{CardSet, empty_set, size}
use neof5client.CardSet.Contract.{empty-IsValid}
use neof5client.CardSet.Elements.{size-le}
use neof5client.DaifugoContext.{DaifugoContext, ba_last, last_of}
use neof5client.DaifugoContext.Text.{AllValid, last_of-IsValid, IsContext, ba_last-IsValid}
use neof5client.Double.{Double}
use neof5client.EvalNode.{Heap, new_node}
use neof5client.SagePlayer.Search.{Sage}
use neof5client.SagePlayer.Level.{no_elements}
use neof5client.SagePlayer.Estimates.{ExactUpTo64}
use neof5client.SagePlayer.Sound.{Good}
use neof5client.SagePlayer.SortHand.{Late}
use neof5client.SagePlayer.Ends.{Found, think_recursive-Found}
use neof5client.SagePlayer.Entry.{
  play_found, play_best, think2, think, not_appears_cards, appears_cards, potential_max,
  think_time_limit,
}
use neof5client.SagePlayer.Saved.{greet-keeps, Usable, after_greeting, think-anew, think-UsesSaved}
use neof5client.SagePlayer.Heir.{one-Good}
use neof5client.SagePlayer.Played.{drop_last-AllValid, play_found-Answers, play_best-Answers}

-- From the reading `first` of the clock to a later one more than the limit of the search went by.
abbrev pub Slow : (ℕ → ℕ) → ℕ → Type 0
Slow clock first = Late clock (first + 1) (clock first + think_time_limit)

module _ (D : Double) (exact : ExactUpTo64 D) (clock address random : ℕ → ℕ) (ctx : DaifugoContext)
    (valid : IsContext ctx) where
  open D use {R}

  -- The call returns a part of the hand that may be put on the table, or it reads through a null
  -- pointer, and then the search was slow.
  abbrev pub Plays : ℕ → Outcome (CardSet × Sage R) → Type 0
  Plays first o =
      ((hand : CardSet) × (s' : Sage R) × (o ≡ ok (hand, s'))
        × Usable D clock address random ctx hand
        × AllValid s'.saved_hands_tree)
      ⊎ ((o ≡ undefined) × Slow clock first)

  -- What `think2` does with the end of the search.
  abbrev answer_of : Option ℕ → Heap R → Sage R → Outcome (CardSet × Sage R)
  answer_of found h s = elim found [
    | some i ↦ play_found D clock address random h i s
    | none ↦ play_best D clock address random h s
  ]

  Found-Plays :
      (first : ℕ) (found : Option ℕ) (h : Heap R) (s : Sage R)
      → Good ctx.deck (ba_last ctx) ctx.is_kakumei h
      → Found D exact clock address
          (ba_last ctx)
          (ba_last-IsValid ctx valid)
          (first + 1)
          (clock first + think_time_limit)
          ctx
          h
          found
      → AllValid s.saved_hands_tree
      → Plays first (answer_of found h s)
  Found-Plays first (some i) h s good (x, e) kept = inl (
      play_found-Answers D clock address random ctx.deck (ba_last ctx) ctx.is_kakumei h good s i x
        e)
  Found-Plays first none h s good why kept =
      elim (play_best-Answers D clock address random ctx.deck (ba_last ctx) ctx.is_kakumei h good s
        kept) [
          | inl answer ↦ inl answer
          | inr (bad, childless) ↦ elim why [
            | inl late ↦ inr (bad, late)
            | inr kids ↦ absurd (childless kids)
          ]
        ]

  -- For a turn whose sets are of the 53 cards, saved hands of the 53 cards, and doubles that are
  -- exact up to 64: `think2` returns a part of the hand that is a legal play, with saved hands of
  -- the 53 cards, or else it reads through a null pointer, and then more than the limit of the
  -- search went by from the first reading of the clock in this call to a later one.
  think2-Plays :
      (s : Sage R)
      → AllValid s.saved_hands_tree
      → Plays s.clock_reads (think2 D clock address random ctx (ba_last ctx) s)
  unfolding think2
  think2-Plays s all =
      let few = size-le ctx.deck in
      let (found, h, s2, run, good, is_found, kept) =
        think_recursive-Found D exact clock address (ba_last ctx) (ba_last-IsValid ctx valid)
          (s.clock_reads + 1) (clock s.clock_reads + think_time_limit) ctx 55
          (new_node (D.of_ℕ 0) ctx.deck ctx.is_kakumei ∷ [])
          (record s {
            clock_reads = s.clock_reads + 1;
            not_appears_cards = not_appears_cards ctx;
            hand_potential_max = potential_max D clock address random (size (appears_cards ctx));
          })
          (one-Good D clock address random ctx.deck (ba_last ctx) ctx.is_kakumei (D.of_ℕ 0)
            valid.deck_valid)
          (omega (arith, few)) (omega arith) in
      rw run (Found-Plays s.clock_reads found h s2 good is_found (subst AllValid (sym kept.0) all))

  as_think2 :
      (s s' : Sage R)
      → think D clock address random ctx s ≡ think2 D clock address random ctx (ba_last ctx) s'
      → AllValid s'.saved_hands_tree
      → s'.clock_reads ≡ s.clock_reads
      → Plays s.clock_reads (think D clock address random ctx s)
  as_think2 s s' same all reads =
      subst (λ (n : ℕ). Plays n (think D clock address random ctx s)) reads
        (subst (Plays s'.clock_reads) (sym same) (think2-Plays s' all))

  -- For a turn whose sets are of the 53 cards, saved hands of the 53 cards, and doubles that are
  -- exact up to 64: `think` returns a part of the hand that is a legal play, and what it saves is
  -- of the 53 cards again; or else it reads through a null pointer, and then more than the limit of
  -- the search went by from the first reading of the clock in this call to a later one.
  pub think-Plays :
      (s : Sage R)
      → AllValid s.saved_hands_tree
      → Plays s.clock_reads (think D clock address random ctx s)
  think-Plays s all = elim (Bool-cases (no_elements s.saved_hands_tree)) [
    | inl nothing ↦
        let (same, reads) = greet-keeps D clock address random ctx s in
        as_think2 s (after_greeting D clock address random ctx s)
          (think-anew D clock address random ctx s nothing) (subst AllValid (sym same) all) reads
    | inr some_left ↦
        elim (think-UsesSaved D clock address random ctx s (last_of empty_set s.saved_hands_tree)
          valid some_left refl (last_of-IsValid empty_set s.saved_hands_tree empty-IsValid all)) [
            | inl (usable, (s', run, left)) ↦ inl (
              _,
              s',
              run,
              usable,
              subst AllValid (sym left) (drop_last-AllValid s.saved_hands_tree all),
            )
            | inr (unusable, (s', run, left, reads)) ↦
                as_think2 s s' run (subst AllValid (sym left) refl) reads
          ]
  ]
