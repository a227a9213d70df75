-- ===== src/EvalNode/Create.antt =====
-- `createChild` on a tree of nodes.
use neof5client.Base.{
  ℕ, ◌≡◌, ◌≢◌, refl, sym, true, false, List, [], ◌∷◌, ◌++◌, ok, arith, length, inl, inr, none, some,
}
use neof5client.CardSet.{CardSet, eq_set}
use neof5client.EvalNode.{
  EvalNode, EvalHand, Heap, node_at, child_list, find_child, make_child, create_child,
}
use neof5client.EvalNode.Tree.{
  Among, IsChild, IsTree, find_child-Found, grown, grown_at_new, grown_at_parent, grown_at_other,
  grown_new-IsChild, grown-IsTree,
}

eq_set_refl : (s : CardSet) → eq_set s s ≡ true
unfolding eq_set
eq_set_refl s = ground arith

module _ {R : Type 0} where
  -- Children with other hands before it do not hide a child.
  find_child-append :
      (g : Heap R) (cs : List ℕ) (c : ℕ) (y : EvalNode R) (hand : CardSet)
      → ((k : ℕ)
          → Among k cs
          → (z : EvalNode R) × (node_at g k ≡ ok z) × (eq_set z.eval.hand hand ≡ false))
      → node_at g c ≡ ok y
      → eq_set y.eval.hand hand ≡ true
      → find_child g (cs ++ c ∷ []) hand ≡ ok (some c)
  unfolding find_child
  find_child-append g [] c y hand others e same = rw e (ground arith)
  find_child-append g (d ∷ cs) c y hand others e same =
      let (z, e', other) = others d (inl refl) in
      let ih = find_child-append g cs c y hand (λ k m. others k (inr m)) e same in
      rw e' (ground arith)

  -- What a call of `createChild` that gives the node `c` and the heap `h'` leaves.
  pub record Created (h : Heap R) (i : ℕ) (eh : EvalHand R) (c : ℕ) (h' : Heap R) : Type 0 where
    pub tree : IsTree h'
    pub is_child : IsChild h' i c
    pub same_hand : (y : EvalNode R) → node_at h' c ≡ ok y → eq_set y.eval.hand eh.hand ≡ true
    pub others : (j : ℕ) (z : EvalNode R) → i ≢ j → node_at h j ≡ ok z → node_at h' j ≡ ok z
    pub again : create_child h' i eh ≡ ok (c, h')

module _ {R : Type 0} (h : Heap R) (i : ℕ) (x : EvalNode R) (eh : EvalHand R) (tree : IsTree h)
    (at_i : node_at h i ≡ ok x) where
  Created-old :
      (c : ℕ) (y : EvalNode R)
      → find_child h (child_list x.children) eh.hand ≡ ok (some c)
      → Among c (child_list x.children)
      → node_at h c ≡ ok y
      → eq_set y.eval.hand eh.hand ≡ true
      → (create_child h i eh ≡ ok (c, h)) × Created h i eh c h
  unfolding create_child
  Created-old c y found m e same =
      let run : create_child h i eh ≡ ok (c, h) = rw at_i (rw found refl) in
      (
        run,
        record {
          tree = tree;
          is_child = tree.children_below i c x at_i m;
          same_hand = λ z e'. let q : y ≡ z = ground (arith, e, e') in rw (sym q) same;
          others = λ j z ne e'. e';
          again = run;
        },
      )

  abbrev bigger : Heap R
  bigger = grown h i x eh tree at_i

  -- In the new heap the old children of `x` still have other hands.
  old_children :
      ((c : ℕ) (y : EvalNode R)
        → Among c (child_list x.children)
        → node_at h c ≡ ok y
        → eq_set y.eval.hand eh.hand ≡ false)
      → (k : ℕ) → Among k (child_list x.children)
      → (z : EvalNode R) × (node_at bigger k ≡ ok z) × (eq_set z.eval.hand eh.hand ≡ false)
  old_children none_same k m =
      let (z, e, pe) = tree.children_below i k x at_i m in
      let ne : i ≢ k = λ p. absurd (omega (arith, p, tree.parent_before k i z e pe)) in
      (z, grown_at_other h i x eh tree at_i k z ne e, none_same k z m e)

  Created-new :
      find_child h (child_list x.children) eh.hand ≡ ok none
      → ((c : ℕ) (y : EvalNode R)
          → Among c (child_list x.children)
          → node_at h c ≡ ok y
          → eq_set y.eval.hand eh.hand ≡ false)
      → (create_child h i eh ≡ ok (length h, bigger)) × Created h i eh (length h) bigger
  unfolding create_child make_child
  Created-new missing none_same =
      let new_at = grown_at_new h i x eh tree at_i in
      let found =
        find_child-append bigger (child_list x.children) (length h) (make_child i x eh) eh.hand
          (old_children none_same) new_at (eq_set_refl eh.hand) in
      (
        rw at_i (rw missing refl),
        record {
          tree = grown-IsTree h i x eh tree at_i;
          is_child = grown_new-IsChild h i x eh tree at_i;
          same_hand = λ z e'.
              let q : make_child i x eh ≡ z = ground (arith, new_at, e') in
              rw (sym q) (eq_set_refl eh.hand);
          others = grown_at_other h i x eh tree at_i;
          again = rw (grown_at_parent h i x eh tree at_i) (rw found refl);
        },
      )

  -- On a tree, `createChild` at a node returns: a child of the node with the hand that was asked
  -- for, in a heap that is a tree again and has the other nodes of the old one. A second call with
  -- the same hand returns the same child and changes nothing.
  pub create_child-Created :
      (c : ℕ) × (h' : Heap R) × (create_child h i eh ≡ ok (c, h')) × Created h i eh c h'
  create_child-Created =
      elim (find_child-Found h (child_list x.children) eh.hand
        (λ c m. let (y, e, pe) = tree.children_below i c x at_i m in (y, e))) [
          | inl (c, y, found, m, e, same) ↦
              let (run, made) = Created-old c y found m e same in (c, h, run, made)
          | inr (missing, none_same) ↦
              let (run, made) = Created-new missing none_same in (length h, bigger, run, made)
        ]
