-- ===== src/SagePlayer/Children.antt =====
-- The loops over the better and the poor hands of a node: they return, keep the invariant of the
-- tree, and the nodes of the next level have few cards left.
use neof5client.Base.{
  ℕ, ◌+◌, ◌≤◌, ◌≡◌, refl, sym, ap, subst, ◌∙◌, Bool, true, false, not, ◌&&◌, ◌==◌, List, [], ◌∷◌,
  ok, arith, length, some, inl, inr, Bool-cases, leb, if◌then◌else◌,
}
use neof5client.CardSet.{CardSet, size, is_empty, communion}
use neof5client.Card.{get_strength}
use neof5client.CardSet.Members.{IsValid}
use neof5client.CardSet.Fewer.{first_of}
use neof5client.DaifugoRule.{Rule, is_ok}
use neof5client.DaifugoRule.Finish.{can_agari_answers}
use neof5client.Double.{Double}
use neof5client.EvalNode.{EvalNode, EvalHand, Heap, node_at}
use neof5client.EvalNode.Erased.{Erased}
use neof5client.SagePlayer.Search.{
  Sage, Part, result, go_on, insert_node, can_follow, is_strong_hand,
}
use neof5client.SagePlayer.Level.{poor_loop, better_loop, no_elements}
use neof5client.SagePlayer.Sound.{Good, Stays, Stays-refl, Stays-at, HasKids}
use neof5client.SagePlayer.SortHand.{GoodEntry, GoodEntries, GoodEntry-Offer}
use neof5client.SagePlayer.Born.{
  NodeBelow, AllBelow, NodeBelow-Grows, AllBelow-Grows, AllBelow-insert, Room, born, NextOk, Grew,
  Grew-after, Part-cases,
}

module _ (D : Double) (clock address : ℕ → ℕ) (deck ba : CardSet) (kakumei : Bool) where
  open D use {R, of_ℕ}

  abbrev Sane : Heap R → Type 0
  Sane h = Good deck ba kakumei h

  abbrev Grows : Heap R → Heap R → Type 0
  Grows h h' = Stays deck ba kakumei h h'

  poor_loop-Grew :
      (rule : Rule) (h : Heap R) (i b : ℕ) (x : EvalNode R) (tefda : CardSet) (beh : EvalHand R)
      (child : ℕ) (pehs : List (EvalHand R)) (next : List ℕ)
      → Sane h
      → node_at h i ≡ ok x
      → x.eval.tefda ≡ tefda
      → GoodEntries deck ba kakumei i tefda pehs
      → Room D clock address deck ba kakumei i tefda b
      → NodeBelow D clock address deck ba kakumei h b child
      → AllBelow D clock address deck ba kakumei h b next
      → (part : Part (List ℕ)) × (h' : Heap R) × (poor_loop D clock address rule i beh child pehs
            next h
          ≡ ok (part, h'))
        × Grew D clock address deck ba kakumei h b part h'
  unfolding poor_loop
  poor_loop-Grew rule h i b x tefda beh child [] next good e cards ok_all room below all = (
    go_on next,
    h,
    refl,
    record { good = good; stays = Stays-refl deck ba kakumei h; next_ok = all },
  )
  poor_loop-Grew rule h i b x tefda beh child (peh ∷ pehs) next good e cards (entry, entries) room
        below all =
      elim (Bool-cases (communion peh.hand beh.hand)) [
        | inl common ↦
            let (part, h', run, grew) =
              poor_loop-Grew rule h i b x tefda beh child pehs
                (insert_node D clock address child next) good e cards entries room below
                (AllBelow-insert D clock address deck ba kakumei h b child next below all) in
            (part, h', ground (arith, common, run), grew)
        | inr apart ↦
            let offer =
              GoodEntry-Offer deck ba kakumei h i x good e peh
                (subst (λ (t : CardSet). GoodEntry deck ba kakumei i t peh) (sym cards) entry) in
            let (c, h1, made, new) = born D clock address deck ba kakumei h i b x peh good e offer (
              subst (λ (t : CardSet). Room D clock address deck ba kakumei i t b) (sym cards)
                room) in
            let (x1, e1, same) = Stays-at deck ba kakumei h h1 i x new.stays e in
            let cards1 = ap (λ (z : Erased). z.eval.tefda) same ∙ cards in
            let below1 =
              NodeBelow-Grows D clock address deck ba kakumei h h1 b child new.stays below in
            let all1 = AllBelow-Grows D clock address deck ba kakumei h h1 b next new.stays all in
            elim (Bool-cases (is_empty new.child.eval.tefda)) [
              | inr left ↦
                  let (part, h2, run, grew) =
                    poor_loop-Grew rule h1 i b x1 tefda beh child pehs
                      (insert_node D clock address c next) new.good e1 cards1 entries room below1
                      (AllBelow-insert D clock address deck ba kakumei h1 b c next new.below
                        all1) in
                  (
                    part,
                    h2,
                    ground (arith, apart, made, new.at_child, left, run),
                    Grew-after D clock address deck ba kakumei h h1 h2 b part new.stays grew,
                  )
              | inl played_out ↦
                  let (chk, answers) = can_agari_answers rule new.child.eval.hand new.hand_valid in
                  elim (Bool-cases (is_ok chk)) [
                    | inl out ↦ (
                      result (some c),
                      h1,
                      ground (arith, apart, made, new.at_child, played_out, answers, out),
                      record {
                        good = new.good;
                        stays = new.stays;
                        next_ok = (new.child, new.at_child);
                      },
                    )
                    | inr banned ↦
                        let (part, h2, run, grew) =
                          poor_loop-Grew rule h1 i b x1 tefda beh child pehs next new.good e1 cards1
                            entries room below1 all1 in
                        (
                          part,
                          h2,
                          ground
                              (arith, apart, made, new.at_child, played_out, answers, banned, run),
                          Grew-after D clock address deck ba kakumei h h1 h2 b part new.stays grew,
                        )
                  ]
            ]
      ]

  -- Whether a hand may follow is decided, and after no hand any may.
  can_follow-answers :
      (s : Sage R) (x : EvalNode R) (hand : CardSet)
      → IsValid x.eval.hand
      → IsValid hand
      → is_empty hand ≡ false
      → (f : Bool) × (can_follow D clock address s x hand ≡ ok f)
        × (is_empty x.eval.hand ≡ true → f ≡ true)
  unfolding can_follow
  can_follow-answers s x hand v w some_card =
      elim (Bool-cases
        (not (is_empty x.eval.hand) && not (is_strong_hand D clock address s x.eval.p1))) [
          | inr free ↦ (true, ground (arith, free), λ z. refl)
          | inl bound ↦ elim (Bool-cases (size x.eval.hand == size hand)) [
            | inr other ↦ (false, ground (arith, bound, other), λ z. ground (arith, bound, z))
            | inl alike ↦
                let (a, at_a) = first_of x.eval.hand v (ground (arith, bound)) in
                let (c, at_c) = first_of hand w some_card in
                (
                  if x.is_kakumei
                      then leb (get_strength a) (get_strength c + 2)
                      else leb (get_strength a + 2) (get_strength c),
                  ground (arith, bound, alike, at_a, at_c),
                  λ z. ground (arith, bound, z),
                )
          ]
        ]

  pub better_loop-Grew :
      (s : Sage R) (h : Heap R) (i b : ℕ) (x x0 : EvalNode R) (tefda : CardSet)
      (behs poors : List (EvalHand R)) (next : List ℕ)
      → Sane h
      → node_at h i ≡ ok x0
      → x0.eval.tefda ≡ tefda
      → IsValid x.eval.hand
      → (i ≡ 0 → is_empty x.eval.hand ≡ true)
      → GoodEntries deck ba kakumei i tefda behs
      → GoodEntries deck ba kakumei i tefda poors
      → Room D clock address deck ba kakumei i tefda b
      → AllBelow D clock address deck ba kakumei h b next
      → (part : Part (List ℕ)) × (h' : Heap R) × (better_loop D clock address s i x behs poors next
            h
          ≡ ok (part, h'))
        × Grew D clock address deck ba kakumei h b part h'
        × (i ≡ 0 → 1 ≤ length behs → HasKids deck ba kakumei h')
  unfolding better_loop
  better_loop-Grew s h i b x x0 tefda [] poors next good e cards v at_root entries ps room all = (
    go_on next,
    h,
    refl,
    record { good = good; stays = Stays-refl deck ba kakumei h; next_ok = all },
    λ z some_entry. absurd (omega (arith, some_entry)),
  )
  better_loop-Grew s h i b x x0 tefda (beh ∷ behs) poors next good e cards v at_root
        (entry, entries) ps room all =
      let ((w, part, some_card, first), rest) = entry in
      let (f, follows, at_once) = can_follow-answers s x beh.hand v w some_card in
      elim (Bool-cases f) [
        | inr stops ↦
            let (part, h1, run, grew, kids) =
              better_loop-Grew s h i b x x0 tefda behs poors next good e cards v at_root entries ps
                room all in
            (
              part,
              h1,
              ground (arith, follows, stops, run),
              grew,
              λ z some_entry. absurd (ground (arith, at_once (at_root z), stops)),
            )
        | inl may ↦
            let offer =
              GoodEntry-Offer deck ba kakumei h i x0 good e beh
                (subst (λ (t : CardSet). GoodEntry deck ba kakumei i t beh) (sym cards) entry) in
            let (c, h1, made, new) =
              born D clock address deck ba kakumei h i b x0 beh good e offer (
                subst (λ (t : CardSet). Room D clock address deck ba kakumei i t b) (sym cards)
                  room) in
            let (x1, e1, same) = Stays-at deck ba kakumei h h1 i x0 new.stays e in
            let cards1 = ap (λ (z : Erased). z.eval.tefda) same ∙ cards in
            let all1 = AllBelow-Grows D clock address deck ba kakumei h h1 b next new.stays all in
            elim (Bool-cases (no_elements poors)) [
              | inl alone ↦
                  let (part, h2, run, grew, kids) =
                    better_loop-Grew s h1 i b x x1 tefda behs poors
                      (insert_node D clock address c next) new.good e1 cards1 v at_root entries ps
                      room
                      (AllBelow-insert D clock address deck ba kakumei h1 b c next new.below
                        all1) in
                  (
                    part,
                    h2,
                    ground (arith, follows, may, made, alone, run),
                    Grew-after D clock address deck ba kakumei h h1 h2 b part new.stays grew,
                    λ z some_entry. grew.stays.kids (new.kids z),
                  )
              | inr with_poor ↦
                  let (part1, h2, run1, grew1) =
                    poor_loop-Grew s.rule h1 i b x1 tefda beh c poors next new.good e1 cards1 ps
                      room new.below all1 in
                  elim (Part-cases part1) [
                    | inl (r, is) ↦ (
                      part1,
                      h2,
                      ground (arith, follows, may, made, with_poor, run1, is),
                      Grew-after D clock address deck ba kakumei h h1 h2 b part1 new.stays grew1,
                      λ z some_entry. grew1.stays.kids (new.kids z),
                    )
                    | inr (next', is) ↦
                        let all2 =
                          subst (NextOk D clock address deck ba kakumei h2 b) is grew1.next_ok in
                        let (x2, e2, same2) = Stays-at deck ba kakumei h1 h2 i x1 grew1.stays e1 in
                        let (part, h3, run, grew, kids) =
                          better_loop-Grew s h2 i b x x2 tefda behs poors next' grew1.good e2
                            (ap (λ (z : Erased). z.eval.tefda) same2 ∙ cards1) v at_root entries ps
                            room all2 in
                        (
                          part,
                          h3,
                          ground (arith, follows, may, made, with_poor, run1, is, run),
                          Grew-after D clock address deck ba kakumei h h1 h3 b part new.stays (
                              Grew-after D clock address deck ba kakumei h1 h2 h3 b part grew1.stays
                                grew),
                          λ z some_entry. grew.stays.kids (grew1.stays.kids (new.kids z)),
                        )
                  ]
            ]
      ]
