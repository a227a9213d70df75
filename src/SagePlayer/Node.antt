-- ===== src/SagePlayer/Node.antt =====
-- One node of a level: `_think_recursive` works on it and returns, or makes children of it.
use neof5client.Base.{
  ℕ, ◌+◌, ◌≤◌, ◌≡◌, refl, subst, false, List, [], ◌∷◌, ok, arith, length, some, inl, inr,
  Bool-cases,
}
use neof5client.CardSet.{CardSet}
use neof5client.CardSet.Members.{IsValid}
use neof5client.DaifugoRule.{set_kakumei}
use neof5client.DaifugoContext.{DaifugoContext}
use neof5client.Double.{Double}
use neof5client.EvalNode.{EvalNode, EvalHand, Heap, node_at}
use neof5client.SagePlayer.Enumerate.{enumerate-AllPlays}
use neof5client.SagePlayer.Estimates.{ExactUpTo64}
use neof5client.SagePlayer.Search.{Sage, Part, result}
use neof5client.SagePlayer.Level.{think_node, no_elements}
use neof5client.SagePlayer.Sound.{Good, Stays-refl, Stays-trans, node_ok}
use neof5client.SagePlayer.SortHand.{Kept, Kept-refl}
use neof5client.SagePlayer.Sorting.{ListsOk, sort_hands-Sorts, After-at}
use neof5client.SagePlayer.Born.{AllBelow, AllBelow-Grows, Room, Part-cases}
use neof5client.SagePlayer.Levels.{Worked, plays-GoodHands, children-Worked}

module _ (D : Double) (exact : ExactUpTo64 D) (clock address : ℕ → ℕ) (ba : CardSet)
    (ba_valid : IsValid ba) (first timelimit : ℕ) (ctx : DaifugoContext) where
  open D use {R}

  abbrev Sane : Heap R → Type 0
  Sane h = Good ctx.deck ba ctx.is_kakumei h

  abbrev Few : Heap R → ℕ → List ℕ → Type 0
  Few h b cs = AllBelow D clock address ctx.deck ba ctx.is_kakumei h b cs

  abbrev WorkedOn : Heap R → ℕ → ℕ → Part (List ℕ) → Heap R → Type 0
  WorkedOn h b i part h' =
      Worked D exact clock address ba ba_valid first timelimit ctx h b i part h'

  pub think_node-Worked :
      (h : Heap R) (s : Sage R) (i b : ℕ) (x : EvalNode R) (ba_cards : CardSet) (next : List ℕ)
      → IsValid ba_cards
      → Sane h
      → node_at h i ≡ ok x
      → (i ≡ 0 → ba_cards ≡ ba)
      → Room D clock address ctx.deck ba ctx.is_kakumei i x.eval.tefda b
      → Few h b next
      → first ≤ s.clock_reads
      → (part : Part (List ℕ)) × (h' : Heap R) × (s' : Sage R) × (think_node D clock address
            timelimit ctx ba_cards i next h s
          ≡ ok (part, h', s'))
        × WorkedOn h b i part h'
        × Kept s s'
  unfolding think_node
  think_node-Worked h s i b x ba_cards next v good e table room all started =
      let (hand_valid, tefda_valid, place) = node_ok ctx.deck ba ctx.is_kakumei h i x good e in
      let (hands, listed, plays) =
        enumerate-AllPlays s.rule x.eval.tefda ba_cards x.is_kakumei tefda_valid v in
      elim (Bool-cases (no_elements hands)) [
        | inl no_play ↦ (
          result (some i),
          h,
          record s { rule = set_kakumei s.rule x.is_kakumei },
          ground (arith, e, listed, no_play),
          record { good = good; stays = Stays-refl ctx.deck ba ctx.is_kakumei h; goes = (x, e) },
          Kept-refl s,
        )
        | inr some_play ↦
            let s1 : Sage R = record s {
              rule = set_kakumei (set_kakumei s.rule x.is_kakumei) x.is_kakumei;
            } in
            let (part, h2, s2, sorted, after, lists) =
              sort_hands-Sorts D exact clock address ctx.deck ba ctx.is_kakumei first timelimit ctx
                h s1 i x x.eval.tefda hands [] [] good e refl
                (plays-GoodHands D exact clock address ba ba_valid first timelimit ctx s.rule h i x
                  ba_cards v hands good e table plays)
                tt tt started in
            let (y, ye, same) =
              After-at D exact clock address ctx.deck ba ctx.is_kakumei first timelimit ctx h h2 s1
                s2 i x after e in
            elim (Part-cases part) [
              | inl (r, is) ↦ (
                result r,
                h2,
                s2,
                ground (arith, e, listed, some_play, sorted, is),
                record {
                  good = after.good;
                  stays = after.stays;
                  goes =
                      subst
                        (ListsOk D exact clock address ctx.deck ba ctx.is_kakumei first timelimit
                          ctx h2 i x.eval.tefda (length hands + (0 + 0)))
                        is lists;
                },
                after.kept,
              )
              | inr (both, is) ↦
                  let (bs, ps, count) =
                    subst
                      (ListsOk D exact clock address ctx.deck ba ctx.is_kakumei first timelimit ctx
                        h2 i x.eval.tefda (length hands + (0 + 0)))
                      is lists in
                  let (part', h3, run, worked) =
                    children-Worked D exact clock address ba ba_valid first timelimit ctx s2 h2 i b
                      y x.eval.tefda ba_cards both.0 both.1 next after.good ye same bs ps
                      (λ z. entries hands (both.0) (both.1) some_play (count z)) room
                      (AllBelow-Grows D clock address ctx.deck ba ctx.is_kakumei h h2 b next
                        after.stays all) in
                  (
                    part',
                    h3,
                    s2,
                    ground (arith, e, listed, some_play, sorted, is, ye, run),
                    record {
                      good = worked.good;
                      stays =
                          Stays-trans ctx.deck ba ctx.is_kakumei h h2 h3 after.stays worked.stays;
                      goes = worked.goes;
                    },
                    after.kept,
                  )
            ]
      ]
    where
      entries :
          (hands : List CardSet) (betters poors : List (EvalHand R))
          → no_elements hands ≡ false
          → length hands + (0 + 0) ≤ length betters + length poors
          → 1 ≤ length betters + length poors
      entries [] betters poors some_play count = cc
      entries (hand ∷ hands) betters poors some_play count = omega (arith, count)
