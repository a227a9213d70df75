-- ===== src/EvalNode/Text.antt =====
-- `treeToString`: the nodes from the root down to a node.
use neof5client.Base.{
  ℕ, zero, suc, ◌<◌, ◌≡◌, Bool, List, ◌++◌, ok, arith, length, none, some, lt→ltb, inl, inr,
  Option-cases,
}
use neof5client.CardSet.{to_string}
use neof5client.EvalNode.{EvalNode, Heap, node_at, tree_to_string}
use neof5client.EvalNode.Heap.{node_at-inside, inside_of_node_at}
use neof5client.EvalNode.Tree.{IsTree}

module _ {R : Type 0} (print : List ℕ → R → R → Bool → List ℕ) (h : Heap R) where
  -- A node whose text fits into the buffer, with its 0 byte.
  pub record Printed (x : EvalNode R) (buff : List ℕ) : Type 0 where
    pub text : List ℕ
    pub prints : to_string x.eval.hand ≡ ok text
    pub same : print text x.eval.p1 x.eval.p2 x.is_kakumei ≡ buff
    pub fits : length buff < 64

  -- The texts of the nodes on the way from the root to `i`, one after the other.
  pub data Spelled : ℕ → List ℕ → Type 0 where
    at_root :
        (i : ℕ) (x : EvalNode R) (buff : List ℕ)
        → node_at h i ≡ ok x
        → x.parent ≡ none
        → Printed x buff
        → Spelled i buff
    below :
        (i p : ℕ) (x : EvalNode R) (above buff : List ℕ)
        → node_at h i ≡ ok x
        → x.parent ≡ some p
        → Printed x buff
        → Spelled p above
        → Spelled i (above ++ buff)

  module _ (tree : IsTree h) where
    -- On a tree in which the text of every node fits into the buffer, `treeToString` of a node
    -- returns the texts of the nodes on the way from the root to it, in that order.
    pub tree_to_string_lem :
        (fuel i : ℕ) (x : EvalNode R)
        → ((j : ℕ) (y : EvalNode R) → node_at h j ≡ ok y → (buff : List ℕ) × Printed y buff)
        → node_at h i ≡ ok x
        → i < fuel
        → (text : List ℕ) × (tree_to_string print fuel h i ≡ ok text) × Spelled i text
    unfolding tree_to_string
    tree_to_string_lem zero i x all e enough = absurd (omega (arith, enough))
    tree_to_string_lem (suc fuel) i x all e enough =
        let (buff, p) = all i x e in
        let small = lt→ltb (length buff) 64 p.fits in
        elim (Option-cases x.parent) [
          | inl top ↦
              (buff, ground (arith, e, p.prints, p.same, small, top), at_root i x buff e top p)
          | inr (q, qe) ↦
              let before = tree.parent_before i q x e qe in
              let (y, ye) = node_at-inside h q (omega (arith, before, inside_of_node_at h i x e)) in
              let (above, run, spelled) =
                tree_to_string_lem fuel q y all ye (omega (arith, before, enough)) in
              (
                above ++ buff,
                ground (arith, e, p.prints, p.same, small, qe, run),
                below i q x above buff e qe p spelled,
              )
        ]
