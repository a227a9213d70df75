-- ===== src/SagePlayer/Sorting.antt =====
-- The loop over the hands of a node: it returns, and all hands are on the lists or the search ended.
use neof5client.Base.{
  ℕ, ◌+◌, ◌≤◌, ◌≡◌, ◌≢◌, refl, sym, ap, subst, ◌∙◌, Bool, List, [], ◌∷◌, ◌++◌, Outcome, ok, arith,
  length, Option,
}
use neof5client.CardSet.{CardSet}
use neof5client.DaifugoContext.{DaifugoContext}
use neof5client.Double.{Double}
use neof5client.EvalNode.{EvalNode, EvalHand, Heap, node_at}
use neof5client.EvalNode.Erased.{Erased}
use neof5client.SagePlayer.Estimates.{ExactUpTo64}
use neof5client.SagePlayer.Search.{
  Sage, Sorted, ends, passed_over, better, poor, Part, result, go_on, sort_hand, sort_hands, Lists,
}
use neof5client.SagePlayer.Sound.{Good, Stays-refl, Stays-trans, Stays-at}
use neof5client.SagePlayer.SortHand.{
  Ended, SortedOk, After, sort_hand-Sorts, GoodEntry, GoodEntries, GoodHand, GoodHands,
  GoodEntries-end, length-end, Kept-refl, Kept-trans, started_still,
}

module _ (D : Double) (exact : ExactUpTo64 D) (clock address : ℕ → ℕ) (deck ba : CardSet)
    (kakumei : Bool) (first timelimit : ℕ) (ctx : DaifugoContext) where
  open D use {R, of_ℕ, add, sub}

  -- The four ways in which a hand is sorted.
  data SortsTo (h : Heap R) (s : Sage R) (i : ℕ) (tefda : CardSet)
      (o : Outcome (Sorted R × Heap R × Sage R)) : Type 0 where
    to_end :
        (r : Option ℕ) (h' : Heap R) (s' : Sage R)
        → o ≡ ok (ends r, h', s')
        → After D exact clock address deck ba kakumei first timelimit ctx h s h' s'
        → Ended D exact clock address deck ba kakumei first timelimit ctx h' r
        → SortsTo h s i tefda o
    to_none :
        (h' : Heap R) (s' : Sage R)
        → o ≡ ok (passed_over, h', s')
        → After D exact clock address deck ba kakumei first timelimit ctx h s h' s'
        → i ≢ 0
        → SortsTo h s i tefda o
    to_better :
        (eh : EvalHand R) (h' : Heap R) (s' : Sage R)
        → o ≡ ok (better eh, h', s')
        → After D exact clock address deck ba kakumei first timelimit ctx h s h' s'
        → GoodEntry deck ba kakumei i tefda eh
        → SortsTo h s i tefda o
    to_poor :
        (eh : EvalHand R) (h' : Heap R) (s' : Sage R)
        → o ≡ ok (poor eh, h', s')
        → After D exact clock address deck ba kakumei first timelimit ctx h s h' s'
        → GoodEntry deck ba kakumei i tefda eh
        → SortsTo h s i tefda o

  sorts_to :
      (h : Heap R) (s : Sage R) (i : ℕ) (tefda : CardSet) (o : Outcome (Sorted R × Heap R × Sage R))
      (kind : Sorted R) (h' : Heap R) (s' : Sage R)
      → o ≡ ok (kind, h', s')
      → After D exact clock address deck ba kakumei first timelimit ctx h s h' s'
      → SortedOk D exact clock address deck ba kakumei first timelimit ctx h' i tefda kind
      → SortsTo h s i tefda o
  sorts_to h s i tefda o (ends r) h' s' run after done = to_end r h' s' run after done
  sorts_to h s i tefda o passed_over h' s' run after done = to_none h' s' run after done
  sorts_to h s i tefda o (better eh) h' s' run after done = to_better eh h' s' run after done
  sorts_to h s i tefda o (poor eh) h' s' run after done = to_poor eh h' s' run after done

  pub After-trans :
      (f g h : Heap R) (s s1 s2 : Sage R)
      → After D exact clock address deck ba kakumei first timelimit ctx f s g s1
      → After D exact clock address deck ba kakumei first timelimit ctx g s1 h s2
      → After D exact clock address deck ba kakumei first timelimit ctx f s h s2
  After-trans f g h s s1 s2 a b = record {
    good = b.good;
    stays = Stays-trans deck ba kakumei f g h a.stays b.stays;
    kept = Kept-trans s s1 s2 a.kept b.kept;
  }

  -- The node is still there, with the same cards.
  pub After-at :
      (h h' : Heap R) (s s' : Sage R) (i : ℕ) (x : EvalNode R)
      → After D exact clock address deck ba kakumei first timelimit ctx h s h' s'
      → node_at h i ≡ ok x
      → (x' : EvalNode R) × (node_at h' i ≡ ok x') × (x'.eval.tefda ≡ x.eval.tefda)
  After-at h h' s s' i x a e =
      let (x', e', same) = Stays-at deck ba kakumei h h' i x a.stays e in
      (x', e', ap (λ (st : Erased). st.eval.tefda) same)

  -- All hands are on the lists, unless the search ended; at the root none is passed over.
  abbrev pub ListsOk : Heap R → ℕ → CardSet → ℕ → Part (Lists D clock address) → Type 0
  ListsOk h i tefda n (result r) =
      Ended D exact clock address deck ba kakumei first timelimit ctx h r
  ListsOk h i tefda n (go_on (betters, poors)) =
      GoodEntries deck ba kakumei i tefda betters
      × GoodEntries deck ba kakumei i tefda poors
      × (i ≡ 0 → n ≤ length betters + length poors)

  ListsOk-fewer :
      (h : Heap R) (i : ℕ) (tefda : CardSet) (n m : ℕ) (part : Part (Lists D clock address))
      → (i ≡ 0 → n ≤ m)
      → ListsOk h i tefda m part
      → ListsOk h i tefda n part
  ListsOk-fewer h i tefda n m (result r) le done = done
  ListsOk-fewer h i tefda n m (go_on (betters, poors)) le (bs, ps, all) =
      (bs, ps, λ z. omega (arith, le z, all z))

  pub sort_hands-Sorts :
      (h : Heap R) (s : Sage R) (i : ℕ) (x : EvalNode R) (tefda : CardSet) (hands : List CardSet)
      (betters poors : List (EvalHand R))
      → Good deck ba kakumei h
      → node_at h i ≡ ok x
      → x.eval.tefda ≡ tefda
      → GoodHands deck ba kakumei i tefda hands
      → GoodEntries deck ba kakumei i tefda betters
      → GoodEntries deck ba kakumei i tefda poors
      → first ≤ s.clock_reads
      → (part : Part (Lists D clock address)) × (h' : Heap R) × (s' : Sage R) × (sort_hands D clock
            address timelimit ctx i hands
            (betters, poors)
            h
            s
          ≡ ok (part, h', s'))
        × After D exact clock address deck ba kakumei first timelimit ctx h s h' s'
        × ListsOk h' i tefda (length hands + (length betters + length poors)) part
  unfolding sort_hands
  sort_hands-Sorts h s i x tefda [] betters poors good e cards hs bs ps started = (
    go_on (betters, poors),
    h,
    s,
    refl,
    record { good = good; stays = Stays-refl deck ba kakumei h; kept = Kept-refl s },
    (bs, ps, λ z. omega arith),
  )
  sort_hands-Sorts h s i x tefda (hand ∷ hands) betters poors good e cards (g, hs) bs ps started =
      let (kind, h0, s0, run0, after0, sorted0) =
        sort_hand-Sorts D exact clock address deck ba kakumei first timelimit ctx h s i x hand good
          e (subst (λ (t : CardSet). GoodHand deck ba kakumei i t hand) (sym cards) g) started in
      elim (sorts_to h s i tefda (sort_hand D clock address timelimit ctx i hand h s) kind h0 s0
        run0 after0
        (subst
          (λ (t : CardSet).
            SortedOk D exact clock address deck ba kakumei first timelimit ctx h0 i t kind)
          cards sorted0)) [
            | to_end r h1 s1 run after done ↦ (result r, h1, s1, rw run refl, after, done)
            | to_none h1 s1 run after ne ↦
                let (x1, e1, same) = After-at h h1 s s1 i x after e in
                let (part, h2, s2, run2, after2, lists) =
                  sort_hands-Sorts h1 s1 i x1 tefda hands betters poors after.good e1 (same ∙ cards)
                    hs bs ps (started_still s s1 first after.kept started) in
                (
                  part,
                  h2,
                  s2,
                  ground (arith, run, run2),
                  After-trans h h1 h2 s s1 s2 after after2,
                  ListsOk-fewer h2 i tefda _ _ part (λ z. absurd (ne z)) lists,
                )
            | to_better eh h1 s1 run after entry ↦
                let (x1, e1, same) = After-at h h1 s s1 i x after e in
                let (part, h2, s2, run2, after2, lists) =
                  sort_hands-Sorts h1 s1 i x1 tefda hands (betters ++ eh ∷ []) poors after.good e1
                    (same ∙ cards) hs (GoodEntries-end deck ba kakumei i tefda betters eh bs entry)
                    ps (started_still s s1 first after.kept started) in
                (
                  part,
                  h2,
                  s2,
                  ground (arith, run, run2),
                  After-trans h h1 h2 s s1 s2 after after2,
                  ListsOk-fewer h2 i tefda _ _ part
                      (λ z. omega (arith, length-end deck ba kakumei betters eh)) lists,
                )
            | to_poor eh h1 s1 run after entry ↦
                let (x1, e1, same) = After-at h h1 s s1 i x after e in
                let (part, h2, s2, run2, after2, lists) =
                  sort_hands-Sorts h1 s1 i x1 tefda hands betters (poors ++ eh ∷ []) after.good e1
                    (same ∙ cards) hs bs (GoodEntries-end deck ba kakumei i tefda poors eh ps entry)
                    (started_still s s1 first after.kept started) in
                (
                  part,
                  h2,
                  s2,
                  ground (arith, run, run2),
                  After-trans h h1 h2 s s1 s2 after after2,
                  ListsOk-fewer h2 i tefda _ _ part
                      (λ z. omega (arith, length-end deck ba kakumei poors eh)) lists,
                )
          ]
