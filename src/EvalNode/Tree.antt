-- ===== src/EvalNode/Tree.antt =====
-- The heap of nodes stays a tree, in which a parent stands before its children.
use neof5client.Base.{
  ℕ, ◌<◌, ◌≡◌, ◌≢◌, refl, sym, ap, subst, ◌∙◌, true, false, List, [], ◌∷◌, ◌++◌, Outcome, ok, arith,
  length, ◌⊎◌, inl, inr, Option, none, some, Bool-cases,
}
use native.Mathlib.Decide.{ℕ_discrete}
use neof5client.CardSet.{CardSet, eq_set}
use neof5client.EvalNode.{
  EvalNode, EvalHand, Heap, node_at, set_node, child_list, find_child, make_child,
}
use neof5client.EvalNode.Heap.{
  inside_of_node_at, length-set_node, node_at-set_self, node_at-set_ne, node_at-append,
  node_at-append_end, node_at-append_cases, node_at-set_cases,
}

-- `c` is on the list.
abbrev pub Among : ℕ → List ℕ → Type 0
Among c [] = ⊥
Among c (d ∷ ds) = (d ≡ c) ⊎ Among c ds

Among-append : (c d : ℕ) (cs : List ℕ) → Among c (cs ++ d ∷ []) → Among c cs ⊎ (d ≡ c)
Among-append c d [] (inl e) = inr e
Among-append c d [] (inr m) = elim m [ ]
Among-append c d (x ∷ cs) (inl e) = inl (inl e)
Among-append c d (x ∷ cs) (inr m) = elim (Among-append c d cs m) [
  | inl k ↦ inl (inr k)
  | inr k ↦ inr k
]

pub Among-end : (c : ℕ) (cs : List ℕ) → Among c (cs ++ c ∷ [])
Among-end c [] = inl refl
Among-end c (x ∷ cs) = inr (Among-end c cs)

module _ {R : Type 0} where
  -- `c` is a node with parent `i`.
  abbrev pub IsChild : Heap R → ℕ → ℕ → Type 0
  IsChild h i c = (y : EvalNode R) × (node_at h c ≡ ok y) × (y.parent ≡ some i)

  pub record IsTree (h : Heap R) : Type 0 where
    pub parent_before : (i p : ℕ) (x : EvalNode R) → node_at h i ≡ ok x → x.parent ≡ some p → p < i
    pub only_root : (i : ℕ) (x : EvalNode R) → node_at h i ≡ ok x → x.parent ≡ none → i ≡ 0
    pub children_below :
        (i c : ℕ) (x : EvalNode R)
        → node_at h i ≡ ok x
        → Among c (child_list x.children)
        → IsChild h i c

  -- The search for a child with the same hand finds one with it, or there is none.
  abbrev pub Found : Heap R → List ℕ → CardSet → Outcome (Option ℕ) → Type 0
  Found h cs hand r =
      ((c : ℕ) × (x : EvalNode R) × (r ≡ ok (some c))
        × Among c cs
        × (node_at h c ≡ ok x)
        × (eq_set x.eval.hand hand ≡ true))
      ⊎ ((r ≡ ok none)
          × ((c : ℕ) (x : EvalNode R)
              → Among c cs
              → node_at h c ≡ ok x
              → eq_set x.eval.hand hand ≡ false))

  none_same_cons :
      (h : Heap R) (d : ℕ) (cs : List ℕ) (hand : CardSet) (x : EvalNode R)
      → node_at h d ≡ ok x
      → eq_set x.eval.hand hand ≡ false
      → ((c : ℕ) (y : EvalNode R)
          → Among c cs
          → node_at h c ≡ ok y
          → eq_set y.eval.hand hand ≡ false)
      → (c : ℕ) (y : EvalNode R) → Among c (d ∷ cs)
      → node_at h c ≡ ok y
      → eq_set y.eval.hand hand ≡ false
  none_same_cons h d cs hand x e other rest c y (inl same) e' =
      let p : node_at h d ≡ ok y = ap (node_at h) same ∙ e' in
      let q : x ≡ y = ground (arith, p, e) in rw (sym q) other
  none_same_cons h d cs hand x e other rest c y (inr m) e' = rest c y m e'

  pub find_child-Found :
      (h : Heap R) (cs : List ℕ) (hand : CardSet)
      → ((c : ℕ) → Among c cs → (x : EvalNode R) × (node_at h c ≡ ok x))
      → Found h cs hand (find_child h cs hand)
  unfolding find_child
  find_child-Found h [] hand present = inr (refl, λ c x m. absurd m)
  find_child-Found h (d ∷ cs) hand present =
      let (x, e) = present d (inl refl) in
      elim (Bool-cases (eq_set x.eval.hand hand)) [
        | inl same ↦ inl (d, x, rw e (ground arith), inl refl, e, same)
        | inr other ↦ elim (find_child-Found h cs hand (λ c m. present c (inr m))) [
          | inl (c, y, r, m, e', s) ↦ inl (c, y, rw e (ground arith), inr m, e', s)
          | inr (r, none_same) ↦
              inr (rw e (ground arith), none_same_cons h d cs hand x e other none_same)
        ]
      ]

module _ {R : Type 0} (h : Heap R) (i : ℕ) (x : EvalNode R) (eh : EvalHand R) (tree : IsTree h)
    (at_i : node_at h i ≡ ok x) where
  -- The node that gets the child, and the heap with the child.
  abbrev pub grown_parent : EvalNode R
  grown_parent = record x { children = some (child_list x.children ++ length h ∷ []) }

  abbrev pub grown : Heap R
  grown = set_node h i grown_parent ++ make_child i x eh ∷ []

  length-grown : length (set_node h i grown_parent) ≡ length h
  length-grown = length-set_node h i grown_parent

  grown_cases :
      (j : ℕ) (y : EvalNode R)
      → node_at grown j ≡ ok y
      → (node_at h j ≡ ok y)
        ⊎ (((i ≡ j) × (grown_parent ≡ y)) ⊎ ((j ≡ length h) × (make_child i x eh ≡ y)))
  grown_cases j y e =
      elim (node_at-append_cases (set_node h i grown_parent) j y (make_child i x eh) e) [
        | inl e1 ↦ elim (node_at-set_cases h i j y grown_parent e1) [
          | inl e2 ↦ inl e2
          | inr p ↦ inr (inl p)
        ]
        | inr (p, q) ↦ inr (inr (p ∙ length-grown, q))
      ]

  pub grown_at_new : node_at grown (length h) ≡ ok (make_child i x eh)
  grown_at_new =
      ap (node_at grown) (sym length-grown)
      ∙ node_at-append_end (set_node h i grown_parent) (make_child i x eh)

  pub grown_at_parent : node_at grown i ≡ ok grown_parent
  grown_at_parent =
      node_at-append (set_node h i grown_parent) i (make_child i x eh)
        (omega (arith, length-grown, inside_of_node_at h i x at_i))
      ∙ node_at-set_self h i grown_parent (inside_of_node_at h i x at_i)

  pub grown_at_other :
      (j : ℕ) (y : EvalNode R) → i ≢ j → node_at h j ≡ ok y → node_at grown j ≡ ok y
  grown_at_other j y ne e =
      node_at-append (set_node h i grown_parent) j (make_child i x eh)
        (omega (arith, length-grown, inside_of_node_at h j y e))
      ∙ node_at-set_ne h i j grown_parent ne
      ∙ e

  IsChild-grown : (j c : ℕ) → IsChild h j c → IsChild grown j c
  IsChild-grown j c (y, e, pe) = elim (ℕ_discrete i c) [
    | yes p ↦
        let q : x ≡ y = ground (arith, at_i, e, ap (node_at h) p) in
        (
          grown_parent,
          ap (node_at grown) (sym p) ∙ grown_at_parent,
          ap (λ (z : EvalNode R). z.parent) q ∙ pe,
        )
    | no ne ↦ (y, grown_at_other c y ne e, pe)
  ]

  grown_parent_before :
      (j p : ℕ) (y : EvalNode R) → node_at grown j ≡ ok y → y.parent ≡ some p → p < j
  unfolding make_child
  grown_parent_before j p y e pe = elim (grown_cases j y e) [
    | inl old ↦ tree.parent_before j p y old pe
    | inr (inl (ij, q)) ↦
        let r : x.parent ≡ some p = ap (λ (z : EvalNode R). z.parent) q ∙ pe in
        omega (arith, ij, tree.parent_before i p x at_i r)
    | inr (inr (jn, q)) ↦
        let r : some i ≡ some p = ap (λ (z : EvalNode R). z.parent) q ∙ pe in
        let ip : i ≡ p = cc in omega (arith, ip, jn, inside_of_node_at h i x at_i)
  ]

  grown_only_root : (j : ℕ) (y : EvalNode R) → node_at grown j ≡ ok y → y.parent ≡ none → j ≡ 0
  unfolding make_child
  grown_only_root j y e pe = elim (grown_cases j y e) [
    | inl old ↦ tree.only_root j y old pe
    | inr (inl (ij, q)) ↦
        sym ij ∙ tree.only_root i x at_i (ap (λ (z : EvalNode R). z.parent) q ∙ pe)
    | inr (inr (jn, q)) ↦ let r : some i ≡ none = ap (λ (z : EvalNode R). z.parent) q ∙ pe in cc
  ]

  pub grown_new-IsChild : IsChild grown i (length h)
  unfolding make_child
  grown_new-IsChild = (make_child i x eh, grown_at_new, refl)

  grown_children_below :
      (j c : ℕ) (y : EvalNode R)
      → node_at grown j ≡ ok y
      → Among c (child_list y.children)
      → IsChild grown j c
  unfolding make_child
  grown_children_below j c y e m = elim (grown_cases j y e) [
    | inl old ↦ IsChild-grown j c (tree.children_below j c y old m)
    | inr (inl (ij, q)) ↦
        let m' : Among c (child_list x.children ++ length h ∷ []) =
          subst (λ (z : EvalNode R). Among c (child_list z.children)) (sym q) m in
        subst (λ (k : ℕ). IsChild grown k c) ij
          (elim (Among-append c (length h) (child_list x.children) m') [
            | inl k ↦ IsChild-grown i c (tree.children_below i c x at_i k)
            | inr k ↦ subst (IsChild grown i) k grown_new-IsChild
          ])
    | inr (inr (jn, q)) ↦
        absurd (subst (λ (z : EvalNode R). Among c (child_list z.children)) (sym q) m)
  ]

  pub grown-IsTree : IsTree grown
  grown-IsTree = record {
    parent_before = grown_parent_before;
    only_root = grown_only_root;
    children_below = grown_children_below;
  }
