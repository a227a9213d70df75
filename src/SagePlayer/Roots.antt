-- ===== src/SagePlayer/Roots.antt =====
-- What is done for the root only: its poor hands, and the pass.
use neof5client.Base.{
  ℕ, ◌≤◌, ◌≡◌, refl, sym, ap, subst, ◌∙◌, Bool, true, List, [], ◌∷◌, ok, arith, length, some, inl,
  inr, Bool-cases,
}
use neof5client.CardSet.{CardSet, empty_set, size, is_empty}
use neof5client.CardSet.Members.{IsValid}
use neof5client.CardSet.Contract.{empty-IsValid}
use neof5client.Double.{Double}
use neof5client.EvalNode.{EvalNode, EvalHand, Heap, node_at, is_root}
use neof5client.EvalNode.Erased.{Erased}
use neof5client.SagePlayer.Search.{Part, result, go_on, insert_node}
use neof5client.SagePlayer.Level.{root_loop, expand_root}
use neof5client.SagePlayer.Sound.{
  Good, Stays, Stays-refl, Stays-trans, Stays-at, node_ok, Offer, HasKids,
}
use neof5client.SagePlayer.SortHand.{GoodEntry, GoodEntries, GoodEntry-Offer}
use neof5client.SagePlayer.Born.{
  AllBelow, AllBelow-Grows, AllBelow-insert, Room, born, NextOk, Grew, Grew-after, Part-cases,
  pass-FirstPlay,
}

module _ (D : Double) (clock address : ℕ → ℕ) (deck ba : CardSet) (kakumei : Bool) where
  open D use {R, of_ℕ}

  abbrev Sane : Heap R → Type 0
  Sane h = Good deck ba kakumei h

  abbrev Grows : Heap R → Heap R → Type 0
  Grows h h' = Stays deck ba kakumei h h'

  root_loop-Grew :
      (h : Heap R) (i b : ℕ) (x : EvalNode R) (tefda : CardSet) (pehs : List (EvalHand R))
      (next : List ℕ)
      → Sane h
      → node_at h i ≡ ok x
      → x.eval.tefda ≡ tefda
      → GoodEntries deck ba kakumei i tefda pehs
      → Room D clock address deck ba kakumei i tefda b
      → AllBelow D clock address deck ba kakumei h b next
      → (part : Part (List ℕ)) × (h' : Heap R) × (root_loop D clock address i pehs next h
          ≡ ok (part, h'))
        × Grew D clock address deck ba kakumei h b part h'
        × (i ≡ 0 → 1 ≤ length pehs → HasKids deck ba kakumei h')
  unfolding root_loop
  root_loop-Grew h i b x tefda [] next good e cards entries room all = (
    go_on next,
    h,
    refl,
    record { good = good; stays = Stays-refl deck ba kakumei h; next_ok = all },
    λ z some_entry. absurd (omega (arith, some_entry)),
  )
  root_loop-Grew h i b x tefda (peh ∷ pehs) next good e cards (entry, entries) room all =
      let offer =
        GoodEntry-Offer deck ba kakumei h i x good e peh
          (subst (λ (t : CardSet). GoodEntry deck ba kakumei i t peh) (sym cards) entry) in
      let (c, h1, made, new) =
        born D clock address deck ba kakumei h i b x peh good e offer
          (subst (λ (t : CardSet). Room D clock address deck ba kakumei i t b) (sym cards) room) in
      let (x1, e1, same) = Stays-at deck ba kakumei h h1 i x new.stays e in
      let all1 = AllBelow-Grows D clock address deck ba kakumei h h1 b next new.stays all in
      elim (Bool-cases (is_empty new.child.eval.tefda)) [
        | inl played_out ↦ (
          result (some c),
          h1,
          ground (arith, made, new.at_child, played_out),
          record { good = new.good; stays = new.stays; next_ok = (new.child, new.at_child) },
          λ z some_entry. new.kids z,
        )
        | inr left ↦
            let (part, h2, run, grew, kids) =
              root_loop-Grew h1 i b x1 tefda pehs (insert_node D clock address c next) new.good e1
                (ap (λ (z : Erased). z.eval.tefda) same ∙ cards) entries room
                (AllBelow-insert D clock address deck ba kakumei h1 b c next new.below all1) in
            (
              part,
              h2,
              ground (arith, made, new.at_child, left, run),
              Grew-after D clock address deck ba kakumei h h1 h2 b part new.stays grew,
              λ z some_entry. grew.stays.kids (new.kids z),
            )
      ]

  -- A pass may be the first play.
  pub expand_root-Grew :
      (h : Heap R) (i b : ℕ) (x x0 : EvalNode R) (tefda ba_cards : CardSet)
      (poors : List (EvalHand R)) (next : List ℕ)
      → Sane h
      → node_at h i ≡ ok x0
      → x.eval.tefda ≡ tefda
      → x0.eval.tefda ≡ tefda
      → (is_root x ≡ true → i ≡ 0)
      → (i ≡ 0 → is_root x ≡ true)
      → GoodEntries deck ba kakumei i tefda poors
      → Room D clock address deck ba kakumei i tefda b
      → AllBelow D clock address deck ba kakumei h b next
      → (part : Part (List ℕ)) × (h' : Heap R) × (expand_root D clock address i x ba_cards poors
            next h
          ≡ ok (part, h'))
        × Grew D clock address deck ba kakumei h b part h'
        × (i ≡ 0 → 1 ≤ length poors → HasKids deck ba kakumei h')
  unfolding expand_root
  expand_root-Grew h i b x x0 tefda ba_cards poors next good e given cards is_zero is_top ps room
        all =
      elim (Bool-cases (is_root x)) [
        | inr below ↦ (
          go_on next,
          h,
          ground (arith, below),
          record { good = good; stays = Stays-refl deck ba kakumei h; next_ok = all },
          λ z some_entry. cc (is_top z, below),
        )
        | inl top ↦
            let (part1, h1, run1, grew1, kids1) =
              root_loop-Grew h i b x0 tefda poors next good e cards ps room all in
            elim (Part-cases part1) [
              | inl (r, is) ↦ (part1, h1, ground (arith, top, run1, is), grew1, kids1)
              | inr (next', is) ↦ elim (Bool-cases (is_empty ba_cards)) [
                | inl open_table ↦
                    (part1, h1, ground (arith, top, run1, is, open_table), grew1, kids1)
                | inr covered ↦
                    let (x1, e1, same) = Stays-at deck ba kakumei h h1 i x0 grew1.stays e in
                    let cards1 = ap (λ (z : Erased). z.eval.tefda) same ∙ cards in
                    let (v, w, place) = node_ok deck ba kakumei h1 i x1 grew1.good e1 in
                    let eh : EvalHand R = record {
                      hand = empty_set;
                      tefda = x.eval.tefda;
                      p1 = of_ℕ 0;
                      p2 = of_ℕ 0;
                    } in
                    let as_many : x.eval.tefda ≡ x1.eval.tefda = given ∙ sym cards1 in
                    let counted = ap size as_many in
                    let offer : Offer deck ba kakumei h1 i x1 grew1.good e1 eh = record {
                      hand_valid = empty-IsValid;
                      tefda_valid = subst IsValid (sym as_many) w;
                      no_more = omega (arith, counted);
                      fewer = λ ne. absurd (ne (is_zero top));
                      first = λ z. pass-FirstPlay deck ba kakumei;
                    } in
                    let (c, h2, made, new) =
                      born D clock address deck ba kakumei h1 i b x1 eh grew1.good e1 offer (
                        subst (λ (t : CardSet). Room D clock address deck ba kakumei i t b)
                          (sym cards1) room) in
                    let all2 =
                      AllBelow-Grows D clock address deck ba kakumei h1 h2 b next' new.stays
                        (subst (NextOk D clock address deck ba kakumei h1 b) is grew1.next_ok) in
                    (
                      go_on (insert_node D clock address c next'),
                      h2,
                      ground (arith, top, run1, is, covered, made),
                      record {
                        good = new.good;
                        stays = Stays-trans deck ba kakumei h h1 h2 grew1.stays new.stays;
                        next_ok =
                            AllBelow-insert D clock address deck ba kakumei h2 b c next' new.below
                              all2;
                      },
                      λ z some_entry. new.kids z,
                    )
              ]
            ]
      ]
