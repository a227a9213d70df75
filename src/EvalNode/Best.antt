-- ===== src/EvalNode/Best.antt =====
-- The search `findBestParamChild`.
use neof5client.Base.{
  ℕ, zero, suc, ◌+◌, ◌<◌, ◌≤◌, ◌≡◌, refl, true, false, List, [], ◌∷◌, Outcome, ok, arith, length,
  inl, inr, Option, none, some, Bool-cases,
}
use neof5client.Double.{Double}
use neof5client.EvalNode.{
  better, EvalNode, Heap, node_at, child_list, best_of_children, find_best_param_child,
}
use neof5client.EvalNode.Heap.{inside_of_node_at}
use neof5client.EvalNode.Tree.{Among, IsTree}

module _ (D : Double) (h : Heap (D.R)) (tree : IsTree h) where
  open D use {R, of_ℕ, eq}

  -- Nothing, or a node that stands after `i`, with its `p2`, which is not 0.
  abbrev pub Judged : ℕ → Option (ℕ × R) → Type 0
  Judged i none = Unit {0}
  Judged i (some (c, p2)) =
      (i < c)
      × ((y : EvalNode R) × (node_at h c ≡ ok y) × (y.eval.p2 ≡ p2))
      × (eq p2 (of_ℕ 0) ≡ false)

  Judged-up : (i j : ℕ) (r : Option (ℕ × R)) → i < j → Judged j r → Judged i r
  Judged-up i j none lt k = tt
  Judged-up i j (some (c, p2)) lt (below, k, nz) = (omega (arith, below), k, nz)

  Judged-better :
      (i : ℕ) (best found : Option (ℕ × R))
      → Judged i best
      → Judged i found
      → Judged i (better D best found)
  Judged-better i best none kb kf = kb
  Judged-better i none (some (c, p2)) kb kf = kf
  Judged-better i (some (b, q2)) (some (c, p2)) kb kf = elim (Bool-cases (D.lt p2 q2)) [
    | inl e ↦ rw e kf
    | inr e ↦ rw e kb
  ]

  better-none :
      (best found : Option (ℕ × R)) → better D best found ≡ none → (best ≡ none) × (found ≡ none)
  better-none none none e = (refl, refl)
  better-none (some (b, q2)) none e = cc
  better-none none (some (c, p2)) e = cc
  better-none (some (b, q2)) (some (c, p2)) e = elim (Bool-cases (D.lt p2 q2)) [
    | inl t ↦ absurd (ground (arith, e, t))
    | inr t ↦ absurd (ground (arith, e, t))
  ]

  -- The children on the list have not been judged themselves.
  abbrev pub Unjudged : List ℕ → Type 0
  Unjudged [] = Unit {0}
  Unjudged (c ∷ cs) =
      ((y : EvalNode R) × (node_at h c ≡ ok y) × (eq y.eval.p2 (of_ℕ 0) ≡ true)) × Unjudged cs

  abbrev Searched : ℕ → List ℕ → Option (ℕ × R) → Outcome (Option (ℕ × R)) → Type 0
  Searched i cs best o =
      (r : Option (ℕ × R)) × (o ≡ ok r) × Judged i r × (r ≡ none → (best ≡ none) × Unjudged cs)

  -- The child `c` of `i` is a node, and the search below it returns.
  abbrev BelowAnswers : (ℕ → Outcome (Option (ℕ × R))) → ℕ → ℕ → Type 0
  BelowAnswers below i c =
      (y : EvalNode R) × (node_at h c ≡ ok y)
      × (i < c)
      × ((r : Option (ℕ × R)) × (below c ≡ ok r) × Judged c r)

  best_of_children-Searched :
      (below : ℕ → Outcome (Option (ℕ × R))) (i : ℕ) (cs : List ℕ) (best : Option (ℕ × R))
      → ((c : ℕ) → Among c cs → BelowAnswers below i c)
      → Judged i best
      → Searched i cs best (best_of_children D below h cs best)
  unfolding best_of_children
  best_of_children-Searched below i [] best each kb = (best, refl, kb, λ e. (e, tt))
  best_of_children-Searched below i (c ∷ cs) best each kb =
      let (y, ye, lt, answer) = each c (inl refl) in
      let (found, run, kf) = answer in
      elim (Bool-cases (eq y.eval.p2 (of_ℕ 0))) [
        | inl z ↦
            let kf' = Judged-up i c found lt kf in
            let (r, run', kr, empty) =
              best_of_children-Searched below i cs (better D best found) (λ d m. each d (inr m))
                (Judged-better i best found kb kf') in
            (
              r,
              ground (arith, ye, z, run, run'),
              kr,
              λ e.
                  let (b, rest) = empty e in
                  let (best_none, found_none) = better-none best found b in
                  (best_none, ((y, ye, z), rest)),
            )
        | inr nz ↦
            let (r, run', kr, empty) =
              best_of_children-Searched below i cs (better D best (some (c, y.eval.p2)))
                (λ d m. each d (inr m))
                (Judged-better i best (some (c, y.eval.p2)) kb (lt, (y, ye, refl), nz)) in
            (
              r,
              ground (arith, ye, nz, run'),
              kr,
              λ e.
                  let (b, rest) = empty e in
                  let (best_none, bad) = better-none best (some (c, y.eval.p2)) b in
                  absurd (cc bad),
            )
      ]

  -- On a tree, with as many rounds as nodes from `i` on, `findBestParamChild` of the node `i`
  -- returns: nothing, and then every child of the node has the `p2` 0, or a node after it on the
  -- heap with the `p2` that stands there, which is not 0.
  pub find_best_param_child-Judged :
      (fuel i : ℕ) (x : EvalNode R)
      → node_at h i ≡ ok x
      → length h ≤ i + fuel
      → (r : Option (ℕ × R)) × (find_best_param_child D fuel h i ≡ ok r)
        × Judged i r
        × (r ≡ none → Unjudged (child_list x.children))
  unfolding find_best_param_child
  find_best_param_child-Judged zero i x e enough = absurd (omega (arith, inside_of_node_at h i x e))
  find_best_param_child-Judged (suc fuel) i x e enough =
      let each : (c : ℕ)
          → Among c (child_list x.children)
          → BelowAnswers (find_best_param_child D fuel h) i c =
        λ c m.
          let (y, ye, pe) = tree.children_below i c x e m in
          let lt = tree.parent_before c i y ye pe in
          let (r, run, kr, empty) = find_best_param_child-Judged fuel c y ye (omega (arith, lt)) in
          (y, ye, lt, (r, run, kr)) in
      let (r, run, kr, empty) =
        best_of_children-Searched (find_best_param_child D fuel h) i (child_list x.children) none
          each tt in
      (r, rw e run, kr, λ q. let (b, rest) = empty q in rest)
