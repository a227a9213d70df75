-- ===== src/SagePlayer/Level.antt =====
-- The rest of `SagePlayer::_think_recursive`: the children of a node, and one level after another.
use neof5client.Base.{
  ℕ, zero, suc, Bool, true, false, List, [], ◌∷◌, Option, none, some, Outcome, ok, out_of_fuel,
  ◌>>=◌,
}
use neof5client.CardSet.{CardSet, empty_set, is_empty, communion}
use neof5client.DaifugoRule.{Rule, set_kakumei, can_agari, is_ok}
use neof5client.DaifugoContext.{DaifugoContext}
use neof5client.Double.{Double}
use neof5client.EvalNode.{EvalHand, EvalNode, Heap, node_at, is_root, create_child}
use neof5client.SagePlayer.{enumerate_available_hands}
use neof5client.SagePlayer.Search.{
  Sage, Part, result, go_on, insert_node, sort_hands, looks_ahead, can_follow,
}

-- `empty()` of a container.
abbrev pub no_elements {ℓ} : {A : Type ℓ} → List A → Bool
no_elements [] = true
no_elements (x ∷ xs) = false

module _ (D : Double) (clock : ℕ → ℕ) (address : ℕ → ℕ) where
  open D use {R, of_ℕ, literal, neg, sub, div}

  -- The loop over the poor hands after the better hand `beh`, whose node is `child`.
  unfoldable pub poor_loop :
      Rule
      → ℕ
      → EvalHand R
      → ℕ
      → List (EvalHand R)
      → List ℕ
      → Heap R
      → Outcome (Part (List ℕ) × Heap R)
  poor_loop rule i beh child [] next h = ok (go_on next, h)
  poor_loop rule i beh child (peh ∷ pehs) next h = elim (communion peh.hand beh.hand) [
    | true ↦ poor_loop rule i beh child pehs (insert_node D clock address child next) h
    | false ↦ do
      made ← create_child h i peh
      let (child2, h') = made
      y ← node_at h' child2
      elim (is_empty y.eval.tefda) [
        | false ↦ poor_loop rule i beh child pehs (insert_node D clock address child2 next) h'
        | true ↦ do
          agari ← can_agari rule y.eval.hand
          elim (is_ok agari) [
            | true ↦ ok (result (some child2), h')
            | false ↦ poor_loop rule i beh child pehs next h'
          ]
      ]
  ]

  -- The loop over the better hands of the node `i`, which is `x`.
  unfoldable pub better_loop :
      Sage R
      → ℕ
      → EvalNode R
      → List (EvalHand R)
      → List (EvalHand R)
      → List ℕ
      → Heap R
      → Outcome (Part (List ℕ) × Heap R)
  unfolding poor_loop
  better_loop s i x [] poors next h = ok (go_on next, h)
  better_loop s i x (beh ∷ behs) poors next h = do
    follows ← can_follow D clock address s x beh.hand
    elim follows [
      | false ↦ better_loop s i x behs poors next h
      | true ↦ do
        made ← create_child h i beh
        let (child, h1) = made
        elim (no_elements poors) [
          | true ↦ better_loop s i x behs poors (insert_node D clock address child next) h1
          | false ↦ do
            tried ← poor_loop s.rule i beh child poors next h1
            let (part, h2) = tried
            elim part [
              | result r ↦ ok (result r, h2)
              | go_on next' ↦ better_loop s i x behs poors next' h2
            ]
        ]
    ]

  -- The loop over the poor hands of the root.
  unfoldable pub root_loop :
      ℕ → List (EvalHand R) → List ℕ → Heap R → Outcome (Part (List ℕ) × Heap R)
  root_loop i [] next h = ok (go_on next, h)
  root_loop i (peh ∷ pehs) next h = do
    made ← create_child h i peh
    let (child2, h') = made
    y ← node_at h' child2
    elim (is_empty y.eval.tefda) [
      | true ↦ ok (result (some child2), h')
      | false ↦ root_loop i pehs (insert_node D clock address child2 next) h'
    ]

  -- What is done for the root only: its poor hands, and a pass if there are cards on the table.
  unfoldable pub expand_root :
      ℕ
      → EvalNode R
      → CardSet
      → List (EvalHand R)
      → List ℕ
      → Heap R
      → Outcome (Part (List ℕ) × Heap R)
  unfolding root_loop
  expand_root i x ba_cards poors next h = elim (is_root x) [
    | false ↦ ok (go_on next, h)
    | true ↦ do
      looped ← root_loop i poors next h
      let (part, h') = looped
      elim part [
        | result r ↦ ok (result r, h')
        | go_on next' ↦ elim (is_empty ba_cards) [
          | true ↦ ok (go_on next', h')
          | false ↦ do
            let eh : EvalHand R = record {
              hand = empty_set;
              tefda = x.eval.tefda;
              p1 = of_ℕ 0;
              p2 = of_ℕ 0;
            }
            made ← create_child h' i eh
            ok (go_on (insert_node D clock address made.0 next'), made.1)
        ]
      ]
  ]

  -- The body of the loop over the nodes of a level.
  unfoldable pub think_node :
      ℕ
      → DaifugoContext
      → CardSet
      → ℕ
      → List ℕ
      → Heap R
      → Sage R
      → Outcome (Part (List ℕ) × Heap R × Sage R)
  unfolding better_loop expand_root
  think_node timelimit ctx ba_cards i next h s = do
    x ← node_at h i
    listed ← enumerate_available_hands s.rule [] x.eval.tefda ba_cards x.is_kakumei
    let (hands, rule) = listed
    let s1 = record s { rule = set_kakumei rule x.is_kakumei }
    elim (no_elements hands) [
      | true ↦ ok (result (some i), h, record s { rule = rule })
      | false ↦ do
        sorted ← sort_hands D clock address timelimit ctx i hands ([], []) h s1
        let (part, h2, s2) = sorted
        elim part [
          | result r ↦ ok (result r, h2, s2)
          | go_on lists ↦ do
            let (betters, poors) = lists
            y ← node_at h2 i
            ahead ← looks_ahead D clock address h2 i y
            tried ← elim ahead [
              | true ↦ better_loop s2 i y betters poors next h2
              | false ↦ ok (go_on next, h2)
            ]
            let (part3, h3) = tried
            elim part3 [
              | result r ↦ ok (result r, h3, s2)
              | go_on next3 ↦ do
                expanded ← expand_root i y ba_cards poors next3 h3
                ok (expanded.0, expanded.1, s2)
            ]
        ]
    ]

  -- The loop over the nodes of a level.
  unfoldable pub think_level :
      ℕ
      → DaifugoContext
      → CardSet
      → List ℕ
      → List ℕ
      → Heap R
      → Sage R
      → Outcome (Part (List ℕ) × Heap R × Sage R)
  unfolding think_node
  think_level timelimit ctx ba_cards [] next h s = ok (go_on next, h, s)
  think_level timelimit ctx ba_cards (i ∷ is) next h s = do
    done ← think_node timelimit ctx ba_cards i next h s
    let (part, h', s') = done
    elim part [
      | result r ↦ ok (result r, h', s')
      | go_on next' ↦ think_level timelimit ctx ba_cards is next' h' s'
    ]

  -- `_think_recursive`: each level below the first is for an empty table.
  unfoldable pub think_recursive :
      ℕ
      → ℕ
      → DaifugoContext
      → CardSet
      → List ℕ
      → Heap R
      → Sage R
      → Outcome (Option ℕ × Heap R × Sage R)
  unfolding think_level
  think_recursive zero timelimit ctx ba_cards nodes h s = out_of_fuel
  think_recursive (suc fuel) timelimit ctx ba_cards nodes h s = do
    done ← think_level timelimit ctx ba_cards nodes [] h s
    let (part, h', s') = done
    elim part [
      | result r ↦ ok (r, h', s')
      | go_on next ↦ elim (no_elements next) [
        | true ↦ ok (none, h', s')
        | false ↦ think_recursive fuel timelimit ctx empty_set next h' s'
      ]
    ]
