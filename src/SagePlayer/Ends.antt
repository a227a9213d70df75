-- ===== src/SagePlayer/Ends.antt =====
-- `_think_recursive` returns: with a node of the tree, or with none because it is late or because
-- no node is left, and then the root has a child.
use neof5client.Base.{
  ℕ, zero, suc, ◌<◌, ◌≤◌, ◌≡◌, refl, sym, ap, subst, false, List, [], ◌∷◌, Outcome, ok, arith,
  Option, none, some, ◌⊎◌, inl, inr, Bool-cases,
}
use neof5client.CardSet.{CardSet, empty_set, size}
use neof5client.CardSet.Members.{IsValid}
use neof5client.CardSet.Contract.{empty-IsValid}
use neof5client.DaifugoContext.{DaifugoContext}
use neof5client.Double.{Double}
use neof5client.EvalNode.{EvalNode, Heap, node_at}
use neof5client.EvalNode.Erased.{Erased}
use neof5client.EvalNode.Tree.{Among}
use neof5client.SagePlayer.Estimates.{ExactUpTo64}
use neof5client.SagePlayer.Search.{Sage, Part, result, go_on}
use neof5client.SagePlayer.Level.{think_level, think_recursive, no_elements}
use neof5client.SagePlayer.Sound.{Good, Stays, Stays-refl, Stays-trans, Stays-at, HasKids}
use neof5client.SagePlayer.SortHand.{Late, Kept, Kept-refl, Kept-trans, started_still}
use neof5client.SagePlayer.Born.{AllBelow, Room, Part-cases}
use neof5client.SagePlayer.Levels.{Done, Goes}
use neof5client.SagePlayer.Node.{think_node-Worked}

module _ (D : Double) (exact : ExactUpTo64 D) (clock address : ℕ → ℕ) (ba : CardSet)
    (ba_valid : IsValid ba) (first timelimit : ℕ) (ctx : DaifugoContext) where
  open D use {R}

  abbrev Sane : Heap R → Type 0
  Sane h = Good ctx.deck ba ctx.is_kakumei h

  abbrev Few : Heap R → ℕ → List ℕ → Type 0
  Few h b cs = AllBelow D clock address ctx.deck ba ctx.is_kakumei h b cs

  -- The nodes of a level: with enough room for `b`, and the root only where the table is the turn's.
  abbrev pub AllRoom : Heap R → ℕ → CardSet → List ℕ → Type 0
  AllRoom h b ba_cards [] = Unit {0}
  AllRoom h b ba_cards (i ∷ is) =
      ((x : EvalNode R) × (node_at h i ≡ ok x)
        × (i ≡ 0 → ba_cards ≡ ba)
        × Room D clock address ctx.deck ba ctx.is_kakumei i x.eval.tefda b)
      × AllRoom h b ba_cards is

  AllRoom-grows :
      (h h' : Heap R) (b : ℕ) (ba_cards : CardSet) (is : List ℕ)
      → Stays ctx.deck ba ctx.is_kakumei h h'
      → AllRoom h b ba_cards is
      → AllRoom h' b ba_cards is
  AllRoom-grows h h' b ba_cards [] st all = tt
  AllRoom-grows h h' b ba_cards (i ∷ is) st ((x, e, table, room), all) =
      let (x', e', same) = Stays-at ctx.deck ba ctx.is_kakumei h h' i x st e in
      (
        (
          x',
          e',
          table,
          subst (λ (t : CardSet). Room D clock address ctx.deck ba ctx.is_kakumei i t b)
              (sym (ap (λ (z : Erased). z.eval.tefda) same)) room,
        ),
        AllRoom-grows h h' b ba_cards is st all,
      )

  -- Nodes that are not the root, with fewer than `suc b` cards.
  Few-AllRoom :
      (h : Heap R) (b : ℕ) (ba_cards : CardSet) (is : List ℕ)
      → Few h (suc b) is
      → AllRoom h b ba_cards is
  Few-AllRoom h b ba_cards [] all = tt
  Few-AllRoom h b ba_cards (i ∷ is) ((x, e, few, ne), all) = (
    (x, e, (λ z. absurd (ne z)), ((λ z. absurd (ne z)), λ k. omega (arith, few))),
    Few-AllRoom h b ba_cards is all,
  )

  -- What a level leaves: a result, or the nodes of the next level, and a child of the root if the
  -- root was on the level.
  abbrev pub LevelGoes : Heap R → ℕ → List ℕ → Part (List ℕ) → Type 0
  LevelGoes h b is (result r) = Done D exact clock address ba ba_valid first timelimit ctx h r
  LevelGoes h b is (go_on next) = Few h b next × (Among 0 is → HasKids ctx.deck ba ctx.is_kakumei h)

  abbrev Level : Heap R → Sage R → ℕ → List ℕ → Outcome (Part (List ℕ) × Heap R × Sage R) → Type 0
  Level h s b is o =
      (part : Part (List ℕ)) × (h' : Heap R) × (s' : Sage R) × (o ≡ ok (part, h', s'))
      × Sane h'
      × Stays ctx.deck ba ctx.is_kakumei h h'
      × LevelGoes h' b is part
      × Kept s s'

  think_level-Level :
      (h : Heap R) (s : Sage R) (b : ℕ) (ba_cards : CardSet) (is next : List ℕ)
      → IsValid ba_cards
      → Sane h
      → AllRoom h b ba_cards is
      → Few h b next
      → first ≤ s.clock_reads
      → Level h s b is (think_level D clock address timelimit ctx ba_cards is next h s)
  unfolding think_level
  think_level-Level h s b ba_cards [] next v good rooms all started = (
    go_on next,
    h,
    s,
    refl,
    good,
    Stays-refl ctx.deck ba ctx.is_kakumei h,
    (all, λ m. absurd m),
    Kept-refl s,
  )
  think_level-Level h s b ba_cards (i ∷ is) next v good ((x, e, table, room), rooms) all started =
      let (part, h1, s1, run, worked, kept) =
        think_node-Worked D exact clock address ba ba_valid first timelimit ctx h s i b x ba_cards
          next v good e table room all started in
      elim (Part-cases part) [
        | inl (r, is_r) ↦ (
          result r,
          h1,
          s1,
          ground (arith, run, is_r),
          worked.good,
          worked.stays,
          subst (Goes D exact clock address ba ba_valid first timelimit ctx h1 b i) is_r
              worked.goes,
          kept,
        )
        | inr (next', is_next) ↦
            let (few, kids) =
              subst (Goes D exact clock address ba ba_valid first timelimit ctx h1 b i) is_next
                worked.goes in
            let (part2, h2, s2, run2, good2, stays2, goes2, kept2) =
              think_level-Level h1 s1 b ba_cards is next' v worked.good
                (AllRoom-grows h h1 b ba_cards is worked.stays rooms) few
                (started_still s s1 first kept started) in
            (
              part2,
              h2,
              s2,
              ground (arith, run, is_next, run2),
              good2,
              Stays-trans ctx.deck ba ctx.is_kakumei h h1 h2 worked.stays stays2,
              level-cons h2 b i is part2 (λ z. stays2.kids (kids z)) goes2,
              Kept-trans s s1 s2 kept kept2,
            )
      ]
    where
      level-cons :
          (h : Heap R) (b i : ℕ) (is : List ℕ) (part : Part (List ℕ))
          → (i ≡ 0 → HasKids ctx.deck ba ctx.is_kakumei h)
          → LevelGoes h b is part
          → LevelGoes h b (i ∷ is) part
      level-cons h b i is (result r) kids goes = goes
      level-cons h b i is (go_on next) kids (few, others) =
          (few, λ m. elim m [ inl z ↦ kids z | inr k ↦ others k ])

  abbrev IsNode : Heap R → Option ℕ → Type 0
  IsNode h none = Unit {0}
  IsNode h (some c) = (y : EvalNode R) × (node_at h c ≡ ok y)

  Done-IsNode :
      (h : Heap R) (r : Option ℕ)
      → Done D exact clock address ba ba_valid first timelimit ctx h r
      → IsNode h r
  Done-IsNode h none late = tt
  Done-IsNode h (some c) node = node

  -- The levels below the root's: on each the nodes have fewer cards, so that the rounds suffice.
  levels_below :
      (fuel : ℕ) (h : Heap R) (s : Sage R) (nodes : List ℕ)
      → Sane h
      → Few h fuel nodes
      → no_elements nodes ≡ false
      → first ≤ s.clock_reads
      → (r : Option ℕ) × (h' : Heap R) × (s' : Sage R) × (think_recursive D clock address fuel
            timelimit ctx empty_set nodes h s
          ≡ ok (r, h', s'))
        × Sane h'
        × Stays ctx.deck ba ctx.is_kakumei h h'
        × IsNode h' r
        × Kept s s'
  unfolding think_recursive
  levels_below zero h s [] good few some_node started = cc
  levels_below zero h s (i ∷ is) good ((x, e, few, ne), all) some_node started =
      absurd (omega (arith, few))
  levels_below (suc fuel) h s nodes good few some_node started =
      let (part, h1, s1, run, good1, stays1, goes, kept) =
        think_level-Level h s fuel empty_set nodes [] empty-IsValid good
          (Few-AllRoom h fuel empty_set nodes few) tt started in
      elim (Part-cases part) [
        | inl (r, is) ↦ (
          r,
          h1,
          s1,
          ground (arith, run, is),
          good1,
          stays1,
          Done-IsNode h1 r (subst (LevelGoes h1 fuel nodes) is goes),
          kept,
        )
        | inr (next, is) ↦
            let (few1, kids) = subst (LevelGoes h1 fuel nodes) is goes in
            elim (Bool-cases (no_elements next)) [
              | inl last ↦ (none, h1, s1, ground (arith, run, is, last), good1, stays1, tt, kept)
              | inr more ↦
                  let (r, h2, s2, run2, good2, stays2, node, kept2) =
                    levels_below fuel h1 s1 next good1 few1 more
                      (started_still s s1 first kept started) in
                  (
                    r,
                    h2,
                    s2,
                    ground (arith, run, is, more, run2),
                    good2,
                    Stays-trans ctx.deck ba ctx.is_kakumei h h1 h2 stays1 stays2,
                    node,
                    Kept-trans s s1 s2 kept kept2,
                  )
            ]
      ]

  -- The end of the search: a node, or none; then it was late, or the root has a child.
  abbrev pub Found : Heap R → Option ℕ → Type 0
  Found h none = Late clock first timelimit ⊎ HasKids ctx.deck ba ctx.is_kakumei h
  Found h (some c) = (y : EvalNode R) × (node_at h c ≡ ok y)

  Done-Found :
      (h : Heap R) (r : Option ℕ)
      → Done D exact clock address ba ba_valid first timelimit ctx h r
      → Found h r
  Done-Found h none late = inl late
  Done-Found h (some c) node = node

  IsNode-Found :
      (h : Heap R) (r : Option ℕ) → IsNode h r → HasKids ctx.deck ba ctx.is_kakumei h → Found h r
  IsNode-Found h none node kids = inr kids
  IsNode-Found h (some c) node kids = node

  pub think_recursive-Found :
      (fuel : ℕ) (h : Heap R) (s : Sage R)
      → Sane h
      → size ctx.deck < fuel
      → first ≤ s.clock_reads
      → (r : Option ℕ) × (h' : Heap R) × (s' : Sage R) × (think_recursive D clock address
            (suc fuel)
            timelimit
            ctx
            ba
            (0 ∷ [])
            h
            s
          ≡ ok (r, h', s'))
        × Sane h'
        × Found h' r
        × Kept s s'
  unfolding think_recursive
  think_recursive-Found fuel h s good enough started =
      let cards : good.root.eval.tefda ≡ ctx.deck =
        ap (λ (z : Erased). z.eval.tefda) good.is_root in
      let counted = ap size cards in
      let (part, h1, s1, run, good1, stays1, goes, kept) =
        think_level-Level h s fuel ba (0 ∷ []) [] ba_valid good
          (
            (
              good.root,
              good.at_root,
              (λ z. refl),
              ((λ z. omega (arith, counted, enough)), λ ne. absurd (ne refl)),
            ),
            tt,
          )
          tt started in
      elim (Part-cases part) [
        | inl (r, is) ↦ (
          r,
          h1,
          s1,
          ground (arith, run, is),
          good1,
          Done-Found h1 r (subst (LevelGoes h1 fuel (0 ∷ [])) is goes),
          kept,
        )
        | inr (next, is) ↦
            let (few1, kids) = subst (LevelGoes h1 fuel (0 ∷ [])) is goes in
            elim (Bool-cases (no_elements next)) [
              | inl last ↦
                  (none, h1, s1, ground (arith, run, is, last), good1, inr (kids (inl refl)), kept)
              | inr more ↦
                  let (r, h2, s2, run2, good2, stays2, node, kept2) =
                    levels_below fuel h1 s1 next good1 few1 more
                      (started_still s s1 first kept started) in
                  (
                    r,
                    h2,
                    s2,
                    ground (arith, run, is, more, run2),
                    good2,
                    IsNode-Found h2 r node (stays2.kids (kids (inl refl))),
                    Kept-trans s s1 s2 kept kept2,
                  )
            ]
      ]
