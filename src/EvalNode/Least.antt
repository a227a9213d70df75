-- ===== src/EvalNode/Least.antt =====
-- `findBestParamChild` finds the least `p2`.
use neof5client.Base.{
  ℕ, zero, suc, ◌+◌, ◌≤◌, ◌≡◌, refl, sym, ap, subst, ◌∙◌, true, false, List, [], ◌∷◌, Outcome, ok,
  arith, length, ◌⊎◌, inl, inr, Option, none, some, Bool-cases,
}
use neof5client.Double.{Double}
use neof5client.EvalNode.{
  better, EvalNode, Heap, node_at, child_list, best_of_children, find_best_param_child,
}
use neof5client.EvalNode.Heap.{inside_of_node_at}
use neof5client.EvalNode.Tree.{Among, IsTree}

-- `<` orders the numbers by size, as it does for doubles none of which is a NaN.
pub record IsStrict (D : Double) : Type 0 where
  pub irreflexive : (p : D.R) → D.lt p p ≡ false
  pub transitive : (p q r : D.R) → D.lt p q ≡ true → D.lt q r ≡ true → D.lt p r ≡ true
  pub apart : (p q r : D.R) → D.lt p q ≡ false → D.lt q r ≡ false → D.lt p r ≡ false

module _ (D : Double) where
  open D use {R, of_ℕ, lt, eq}

  -- The nodes below `i` that stand for judgement, with their `p2`: a child whose `p2` is not 0, and
  -- in place of a child whose `p2` is 0 the nodes below it.
  pub data Candidate (h : Heap R) : ℕ → ℕ → R → Type 0 where
    judged :
        {i c : ℕ} {p : R} (x y : EvalNode R)
        → node_at h i ≡ ok x
        → Among c (child_list x.children)
        → node_at h c ≡ ok y
        → eq y.eval.p2 (of_ℕ 0) ≡ false
        → p ≡ y.eval.p2
        → Candidate h i c p
    deeper :
        {i c : ℕ} {p : R} (d : ℕ) (x y : EvalNode R)
        → node_at h i ≡ ok x
        → Among d (child_list x.children)
        → node_at h d ≡ ok y
        → eq y.eval.p2 (of_ℕ 0) ≡ true
        → Candidate h d c p
        → Candidate h i c p

  -- The least of what `P` allows, or that it allows nothing.
  abbrev pub Least : (ℕ → R → Type 0) → Option (ℕ × R) → Type 0
  Least P none = (c : ℕ) (p : R) → ¬ P c p
  Least P (some (b, q)) = P b q × ((c : ℕ) (p : R) → P c p → lt p q ≡ false)

  Least-same :
      (P Q : ℕ → R → Type 0) (r : Option (ℕ × R))
      → ((c : ℕ) (p : R) → P c p → Q c p)
      → ((c : ℕ) (p : R) → Q c p → P c p)
      → Least P r
      → Least Q r
  Least-same P Q none to from empty = λ c p k. empty c p (from c p k)
  Least-same P Q (some (b, q)) to from (k, least) = (to b q k, λ c p k'. least c p (from c p k'))

  module _ (strict : IsStrict D) where
    Least-better :
        (P Q : ℕ → R → Type 0) (best found : Option (ℕ × R))
        → Least P best
        → Least Q found
        → Least (λ c p. P c p ⊎ Q c p) (better D best found)
    Least-better P Q none none a b = λ c p k. elim k [ inl u ↦ a c p u | inr u ↦ b c p u ]
    Least-better P Q (some (c0, p0)) none (k, least) b =
        (inl k, λ c p u. elim u [ inl v ↦ least c p v | inr v ↦ absurd (b c p v) ])
    Least-better P Q none (some (c0, p0)) a (k, least) =
        (inr k, λ c p u. elim u [ inl v ↦ absurd (a c p v) | inr v ↦ least c p v ])
    Least-better P Q (some (b, q)) (some (c0, p0)) (k, least) (k0, least0) =
        elim (Bool-cases (lt p0 q)) [
          | inl less ↦ rw less (
            inr k0,
            λ c p u. elim u [ inl v ↦ not_below c p (least c p v) less | inr v ↦ least0 c p v ],
          )
          | inr not_less ↦ rw not_less (
            inl k,
            λ c p u. elim u [
              | inl v ↦ least c p v
              | inr v ↦ strict.apart p p0 q (least0 c p v) not_less
            ],
          )
        ]
      where
        not_below : (c : ℕ) (p : R) → lt p q ≡ false → lt p0 q ≡ true → lt p p0 ≡ false
        not_below c p out less = elim (Bool-cases (lt p p0)) [
          | inr e ↦ e
          | inl e ↦ absurd (cc (strict.transitive p p0 q e less, out))
        ]

    -- `c` stands for judgement if it is the child `d`, or below the child `d`.
    abbrev Via : Heap R → ℕ → ℕ → R → Type 0
    Via h d c p =
        (y : EvalNode R) × (node_at h d ≡ ok y)
        × (((eq y.eval.p2 (of_ℕ 0) ≡ false) × (c ≡ d) × (p ≡ y.eval.p2))
            ⊎ ((eq y.eval.p2 (of_ℕ 0) ≡ true) × Candidate h d c p))

    abbrev ViaSome : Heap R → List ℕ → ℕ → R → Type 0
    ViaSome h cs c p = (d : ℕ) × Among d cs × Via h d c p

    -- The child `d` is a node, and the search below it returns the least.
    abbrev Finds : Heap R → (ℕ → Outcome (Option (ℕ × R))) → ℕ → Type 0
    Finds h below d =
        (y : EvalNode R) × (node_at h d ≡ ok y)
        × ((found : Option (ℕ × R)) × (below d ≡ ok found) × Least (Candidate h d) found)

    -- What one round of the loop over the children finds.
    child-Least :
        (h : Heap R) (d : ℕ) (y : EvalNode R) (found : Option (ℕ × R))
        → node_at h d ≡ ok y
        → Least (Candidate h d) found
        → ((eq y.eval.p2 (of_ℕ 0) ≡ true) × Least (Via h d) found)
          ⊎ ((eq y.eval.p2 (of_ℕ 0) ≡ false) × Least (Via h d) (some (d, y.eval.p2)))
    child-Least h d y found e least = elim (Bool-cases (eq y.eval.p2 (of_ℕ 0))) [
      | inl zero_p2 ↦ inl (
        zero_p2,
        Least-same (Candidate h d) (Via h d) found (λ c p k. (y, e, inr (zero_p2, k)))
            (λ c p (z, ze, k). elim k [
              | inr (was_zero, below) ↦ below
              | inl (nz, same_c, same_p) ↦
                  let q : y ≡ z = ground (arith, e, ze) in absurd (cc (zero_p2, nz, q))
            ])
            least,
      )
      | inr nz ↦ inr (
        nz,
        (
          (y, e, inl (nz, refl, refl)),
          λ c p (z, ze, k).
              let q : y ≡ z = ground (arith, e, ze) in
              elim k [
                | inl (z_nz, same_c, same_p) ↦
                    let r : p ≡ y.eval.p2 = same_p ∙ ap (λ (w : EvalNode R). w.eval.p2) (sym q) in
                    rw r (strict.irreflexive y.eval.p2)
                | inr (was_zero, below) ↦ absurd (cc (was_zero, nz, q))
              ],
        ),
      )
    ]

    best_of_children-Least :
        (h : Heap R) (below : ℕ → Outcome (Option (ℕ × R))) (cs : List ℕ) (P : ℕ → R → Type 0)
        (best : Option (ℕ × R))
        → ((d : ℕ) → Among d cs → Finds h below d)
        → Least P best
        → (r : Option (ℕ × R)) × (best_of_children D below h cs best ≡ ok r)
          × Least (λ c p. P c p ⊎ ViaSome h cs c p) r
    unfolding best_of_children
    best_of_children-Least h below [] P best each least = (
      best,
      refl,
      Least-same P (λ c p. P c p ⊎ ViaSome h [] c p) best (λ c p k. inl k)
          (λ c p k. elim k [ inl u ↦ u | inr (d, m, v) ↦ absurd m ]) least,
    )
    best_of_children-Least h below (d ∷ ds) P best each least =
        let (y, ye, answer) = each d (inl refl) in
        let (found, run, least_found) = answer in
        elim (child-Least h d y found ye least_found) [
          | inl (zero_p2, here) ↦
              let (r, runs, least_r) =
                best_of_children-Least h below ds (λ c p. P c p ⊎ Via h d c p) (better D best found)
                  (λ c m. each c (inr m)) (Least-better P (Via h d) best found least here) in
              (r, ground (arith, ye, zero_p2, run, runs), regroup r least_r)
          | inr (nz, here) ↦
              let (r, runs, least_r) =
                best_of_children-Least h below ds (λ c p. P c p ⊎ Via h d c p)
                  (better D best (some (d, y.eval.p2))) (λ c m. each c (inr m))
                  (Least-better P (Via h d) best (some (d, y.eval.p2)) least here) in
              (r, ground (arith, ye, nz, runs), regroup r least_r)
        ]
      where
        regroup :
            (r : Option (ℕ × R))
            → Least (λ c p. (P c p ⊎ Via h d c p) ⊎ ViaSome h ds c p) r
            → Least (λ c p. P c p ⊎ ViaSome h (d ∷ ds) c p) r
        regroup r =
            Least-same (λ c p. (P c p ⊎ Via h d c p) ⊎ ViaSome h ds c p)
              (λ c p. P c p ⊎ ViaSome h (d ∷ ds) c p) r
              (λ c p k. elim k [
                | inl (inl u) ↦ inl u
                | inl (inr v) ↦ inr (d, inl refl, v)
                | inr (c', m, v) ↦ inr (c', inr m, v)
              ])
              (λ c p k. elim k [
                | inl u ↦ inl (inl u)
                | inr (c', inl same, v) ↦ inl (inr (subst (λ (e : ℕ). Via h e c p) (sym same) v))
                | inr (c', inr m, v) ↦ inr (c', m, v)
              ])

    none-Least : Least (λ c p. ⊥) none
    none-Least = λ c p k. k

    -- The candidates of a node are those of its children.
    to_via :
        (h : Heap R) (i c : ℕ) (p : R) (x : EvalNode R)
        → node_at h i ≡ ok x
        → Candidate h i c p
        → ViaSome h (child_list x.children) c p
    to_via h i c p x e (judged x' y xe m ye nz same) =
        let q : x' ≡ x = ground (arith, e, xe) in
        (
          c,
          subst (λ (z : EvalNode R). Among c (child_list z.children)) q m,
          (y, ye, inl (nz, refl, same)),
        )
    to_via h i c p x e (deeper d x' y xe m ye zero_p2 below) =
        let q : x' ≡ x = ground (arith, e, xe) in
        (
          d,
          subst (λ (z : EvalNode R). Among d (child_list z.children)) q m,
          (y, ye, inr (zero_p2, below)),
        )

    of_via :
        (h : Heap R) (i c : ℕ) (p : R) (x : EvalNode R)
        → node_at h i ≡ ok x
        → ViaSome h (child_list x.children) c p
        → Candidate h i c p
    of_via h i c p x e (d, m, (y, ye, inr (zero_p2, below))) = deeper d x y e m ye zero_p2 below
    of_via h i c p x e (d, m, (y, ye, inl (nz, same_c, same_p))) =
        judged x y e (subst (λ (k : ℕ). Among k (child_list x.children)) (sym same_c) m)
          (ap (node_at h) same_c ∙ ye) nz same_p

    -- On a tree, with as many rounds as nodes from `i` on, and numbers that `<` orders:
    -- `findBestParamChild` of the node `i` returns a node with the least `p2` of all that stand for
    -- judgement, with that `p2`, or nothing if none does. A child stands for judgement if its `p2` is
    -- not 0; in place of a child whose `p2` is 0 stand the nodes that do so below it.
    pub find_best_param_child-Least :
        (h : Heap R) (tree : IsTree h) (fuel i : ℕ) (x : EvalNode R)
        → node_at h i ≡ ok x
        → length h ≤ i + fuel
        → (r : Option (ℕ × R)) × (find_best_param_child D fuel h i ≡ ok r) × Least (Candidate h i) r
    unfolding find_best_param_child
    find_best_param_child-Least h tree zero i x e enough =
        absurd (omega (arith, inside_of_node_at h i x e))
    find_best_param_child-Least h tree (suc fuel) i x e enough =
        let each : (d : ℕ)
            → Among d (child_list x.children)
            → Finds h (find_best_param_child D fuel h) d =
          λ d m.
            let (y, ye, pe) = tree.children_below i d x e m in
            let lt_d = tree.parent_before d i y ye pe in
            (y, ye, find_best_param_child-Least h tree fuel d y ye (omega (arith, lt_d))) in
        let (r, run, least) =
          best_of_children-Least h (find_best_param_child D fuel h) (child_list x.children)
            (λ c p. ⊥) none each none-Least in
        (
          r,
          rw e run,
          Least-same (λ c p. ⊥ ⊎ ViaSome h (child_list x.children) c p) (Candidate h i) r
              (λ c p k. elim k [ inl bad ↦ absurd bad | inr v ↦ of_via h i c p x e v ])
              (λ c p k. inr (to_via h i c p x e k)) least,
        )
