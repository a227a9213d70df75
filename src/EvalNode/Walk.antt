-- ===== src/EvalNode/Walk.antt =====
-- The walks up the tree: `getHeirOfRoot` and `saveHandsTree`.
use neof5client.Base.{
  ℕ, zero, suc, ◌<◌, ◌≤◌, ◌≡◌, sym, ap, ◌∙◌, true, false, List, [], ◌∷◌, ◌++◌, ok, arith, length,
  ◌⊎◌, inl, inr, some, Option-cases, Bool-cases, append-nil, append_assoc,
}
use neof5client.CardSet.{CardSet, is_empty}
use neof5client.EvalNode.{EvalNode, Heap, node_at, get_heir_of_root, save_hands_tree}
use neof5client.EvalNode.Heap.{inside_of_node_at, node_at-inside}
use neof5client.EvalNode.Tree.{IsChild, IsTree}

abbrev pub NoneEmpty : List CardSet → Type 0
NoneEmpty [] = Unit {0}
NoneEmpty (s ∷ l) = (is_empty s ≡ false) × NoneEmpty l

module _ {R : Type 0} (h : Heap R) (tree : IsTree h) where
  -- On a tree, with more rounds than the node's index, `getHeirOfRoot` of a node returns the
  -- root, for the root itself, or else a node whose parent is the root.
  pub get_heir_of_root_lem :
      (fuel i : ℕ) (x : EvalNode R)
      → node_at h i ≡ ok x
      → i < fuel
      → (c : ℕ) × (get_heir_of_root fuel h i ≡ ok c) × (((c ≡ 0) × (i ≡ 0)) ⊎ IsChild h 0 c)
  unfolding get_heir_of_root
  get_heir_of_root_lem zero i x e lt = absurd (omega arith)
  get_heir_of_root_lem (suc fuel) i x e lt = elim (Option-cases x.parent) [
    | inl top ↦ let r = tree.only_root i x e top in (i, ground arith, inl (r, r))
    | inr (p, pe) ↦
        let before = tree.parent_before i p x e pe in
        let (y, ye) = node_at-inside h p (omega (arith, before, inside_of_node_at h i x e)) in
        elim (Option-cases y.parent) [
          | inl top ↦ (i, ground arith, inr (x, e, pe ∙ ap some (tree.only_root p y ye top)))
          | inr (q, qe) ↦
              let (c, r, s) = get_heir_of_root_lem fuel p y ye (omega (arith, before)) in
              (
                c,
                ground arith,
                elim s [
                  | inl (c0, p0) ↦ absurd (omega (arith, p0, tree.parent_before p q y ye qe))
                  | inr k ↦ inr k
                ],
              )
        ]
  ]

  -- On a tree whose root has an empty hand, with more rounds than the node's index, `saveHandsTree` appends a list of at most that many hands, none of them empty.
  pub save_hands_tree_lem :
      (root : EvalNode R)
      → node_at h 0 ≡ ok root
      → is_empty root.eval.hand ≡ true
      → (fuel i : ℕ) (x : EvalNode R) (buff : List CardSet) → node_at h i ≡ ok x
      → i < fuel
      → (hands : List CardSet) × (save_hands_tree fuel h i buff ≡ ok (buff ++ hands))
        × NoneEmpty hands
        × (length hands ≤ i)
  unfolding save_hands_tree
  save_hands_tree_lem root re empty zero i x buff e lt = absurd (omega arith)
  save_hands_tree_lem root re empty (suc fuel) i x buff e lt =
      elim (Bool-cases (is_empty x.eval.hand)) [
        | inl stop ↦ ([], ground (arith, append-nil buff), tt, omega arith)
        | inr go ↦ elim (Option-cases x.parent) [
          | inl top ↦
              let i0 = tree.only_root i x e top in
              let q : root ≡ x = ground (arith, re, e, ap (node_at h) i0) in
              let bad : is_empty x.eval.hand ≡ true = rw (sym q) empty in absurd (cc (bad, go))
          | inr (p, pe) ↦
              let before = tree.parent_before i p x e pe in
              let (y, ye) = node_at-inside h p (omega (arith, before, inside_of_node_at h i x e)) in
              let (hands, run, ne, len) =
                save_hands_tree_lem root re empty fuel p y (buff ++ x.eval.hand ∷ []) ye
                  (omega (arith, before)) in
              (
                x.eval.hand ∷ hands,
                ground (arith, run, append_assoc buff (x.eval.hand ∷ []) hands),
                (go, ne),
                omega (arith, len, before),
              )
        ]
      ]
