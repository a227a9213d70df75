-- ===== src/EvalNode/Erased.antt =====
-- What never changes of a node: its parent, its hand, its cards and its revolution. Writing `p2`
-- and adding to `_children` leave it alone.
use neof5client.Base.{
  ℕ, zero, suc, ◌≡◌, refl, sym, ap, subst, ◌∙◌, List, [], ◌∷◌, ◌++◌, ok, arith, length, Option,
  none, inl, inr,
}
use native.Mathlib.Decide.{ℕ_discrete}
use neof5client.EvalNode.{EvalNode, Heap, node_at, set_node, child_list}
use neof5client.EvalNode.Heap.{
  node_at-set_self, node_at-set_ne, node_at-set_cases, inside_of_node_at,
}
use neof5client.EvalNode.Tree.{Among, IsChild, IsTree}

abbrev pub Erased : Type 0
Erased = EvalNode (Unit {0})

module _ {R : Type 0} where
  abbrev pub erase : EvalNode R → Erased
  erase x = record {
    parent = x.parent;
    children = none;
    eval = record { hand = x.eval.hand; tefda = x.eval.tefda; p1 = tt; p2 = tt };
    is_kakumei = x.is_kakumei;
  }

  abbrev pub erased : Heap R → Heap (Unit {0})
  erased [] = []
  erased (x ∷ h) = erase x ∷ erased h

  pub erased-at :
      (h : Heap R) (i : ℕ) (x : EvalNode R)
      → node_at h i ≡ ok x
      → node_at (erased h) i ≡ ok (erase x)
  erased-at [] i x e = cc
  erased-at (y ∷ h) zero x e =
      let q : y ≡ x = ground arith in ap (λ (z : EvalNode R). ok (erase z)) q
  erased-at (y ∷ h) (suc i) x e = erased-at h i x e

  pub unerased :
      (h : Heap R) (i : ℕ) (st : Erased)
      → node_at (erased h) i ≡ ok st
      → (x : EvalNode R) × (node_at h i ≡ ok x) × (erase x ≡ st)
  unerased [] i st e = cc
  unerased (y ∷ h) zero st e = (y, refl, ground arith)
  unerased (y ∷ h) (suc i) st e = unerased h i st e

  pub erased-set :
      (h : Heap R) (i : ℕ) (x y : EvalNode R)
      → node_at h i ≡ ok x
      → erase y ≡ erase x
      → erased (set_node h i y) ≡ erased h
  erased-set [] i x y e same = refl
  erased-set (z ∷ h) zero x y e same =
      let q : z ≡ x = ground arith in ap (λ (st : Erased). st ∷ erased h) (same ∙ sym (ap erase q))
  erased-set (z ∷ h) (suc i) x y e same =
      ap (λ (sts : Heap (Unit {0})). erase z ∷ sts) (erased-set h i x y e same)

  pub erased-append :
      (h : Heap R) (y : EvalNode R) → erased (h ++ y ∷ []) ≡ erased h ++ erase y ∷ []
  erased-append [] y = refl
  erased-append (x ∷ h) y = ap (λ (sts : Heap (Unit {0})). erase x ∷ sts) (erased-append h y)

  pub length-erased : (h : Heap R) → length (erased h) ≡ length h
  length-erased [] = refl
  length-erased (x ∷ h) = ap suc (length-erased h)

module _ {R : Type 0} (h : Heap R) (i : ℕ) (x y : EvalNode R) (tree : IsTree h)
    (at_i : node_at h i ≡ ok x) (same : erase y ≡ erase x) (kids : y.children ≡ x.children) where
  -- What is read after the write was read before it, but for what the write changed.
  read_before :
      (j : ℕ) (z : EvalNode R)
      → node_at (set_node h i y) j ≡ ok z
      → (w : EvalNode R) × (node_at h j ≡ ok w) × (z.parent ≡ w.parent) × (z.children ≡ w.children)
  read_before j z e = elim (node_at-set_cases h i j z y e) [
    | inl old ↦ (z, old, refl, refl)
    | inr (ij, q) ↦ (
      x,
      ap (node_at h) (sym ij) ∙ at_i,
      ap (λ (w : EvalNode R). w.parent) (sym q) ∙ ap (λ (st : Erased). st.parent) same,
      ap (λ (w : EvalNode R). w.children) (sym q) ∙ kids,
    )
  ]

  IsChild-set : (j c : ℕ) → IsChild h j c → IsChild (set_node h i y) j c
  IsChild-set j c (w, e, pe) = elim (ℕ_discrete i c) [
    | yes p ↦
        let q : x ≡ w = ground (arith, at_i, e, ap (node_at h) p) in
        (
          y,
          ap (node_at (set_node h i y)) (sym p)
              ∙ node_at-set_self h i y (inside_of_node_at h i x at_i),
          ap (λ (st : Erased). st.parent) same ∙ ap (λ (z : EvalNode R). z.parent) q ∙ pe,
        )
    | no ne ↦ (w, node_at-set_ne h i c y ne ∙ e, pe)
  ]

  -- A node that is written with the same parent and children leaves a tree a tree.
  pub set-IsTree : IsTree (set_node h i y)
  set-IsTree = record {
    parent_before = λ j p z e pe.
        let (w, old, parent, list) = read_before j z e in
        tree.parent_before j p w old (sym parent ∙ pe);
    only_root = λ j z e pe.
        let (w, old, parent, list) = read_before j z e in tree.only_root j w old (sym parent ∙ pe);
    children_below = λ j c z e m.
        let (w, old, parent, list) = read_before j z e in
        IsChild-set j c (
          tree.children_below j c w old
            (subst (λ (l : Option (List ℕ)). Among c (child_list l)) list m));
  }
