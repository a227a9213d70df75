-- ===== src/EvalNode/Tests.antt =====
-- Runs of the search tree: a root with an empty hand, and one child that plays the first card.
use neof5client.Base.{
  ◌≤◌, ℕ, zero, suc, ◌+◌, ◌-◌, ◌*◌, ◌/◌, ◌<◌, ◌≡◌, refl, sym, ap, subst, ◌∙◌, Bool, false, List, [],
  ◌∷◌, ok, arith, ltb, ◌==◌, inl, inr, Option, none, some,
}
use neof5client.CardSet.{to_string}
use neof5client.Double.{Double}
use neof5client.EvalNode.{
  EvalNode, EvalHand, Heap, node_at, child_list, create_child, find_best_param_child,
  tree_to_string,
}
use neof5client.EvalNode.Tree.{Among, IsChild, IsTree}
use neof5client.EvalNode.Create.{Created, create_child-Created}
use neof5client.EvalNode.Text.{Printed, Spelled, tree_to_string_lem}
use neof5client.EvalNode.Least.{IsStrict, Least, Candidate, find_best_param_child-Least}

-- Whole numbers in place of doubles.
abbrev pub whole : Double
whole = record {
  R = ℕ;
  of_ℕ = λ n. n;
  literal = λ n d. n / d;
  neg = λ n. 0;
  add = λ n m. n + m;
  sub = λ n m. n - m;
  mul = λ n m. n * m;
  div = λ n m. n / m;
  lt = ltb;
  eq = λ n m. n == m;
}

abbrev root_node : EvalNode ℕ
root_node = record {
  parent = none;
  children = some (1 ∷ []);
  eval = record { hand = record { bits = 0 }; tefda = record { bits = 3 }; p1 = 0; p2 = 0 };
  is_kakumei = false;
}

abbrev child_node : EvalNode ℕ
child_node = record {
  parent = some 0;
  children = none;
  eval = record { hand = record { bits = 1 }; tefda = record { bits = 2 }; p1 = 0; p2 = 7 };
  is_kakumei = false;
}

abbrev two_nodes : Heap ℕ
two_nodes = root_node ∷ child_node ∷ []

two_nodes-parent_before :
    (i p : ℕ) (x : EvalNode ℕ) → node_at two_nodes i ≡ ok x → x.parent ≡ some p → p < i
two_nodes-parent_before zero p x e q =
    let k : root_node ≡ x = ground arith in
    let r : none ≡ some p = ap (λ (z : EvalNode ℕ). z.parent) k ∙ q in absurd (cc r)
two_nodes-parent_before (suc zero) p x e q =
    let k : child_node ≡ x = ground arith in
    let r : some 0 ≡ some p = ap (λ (z : EvalNode ℕ). z.parent) k ∙ q in
    let s : ◌≡◌ {A = ℕ} 0 p = cc in omega (arith, s)
two_nodes-parent_before (suc (suc i)) p x e q = absurd (cc e)

two_nodes-only_root :
    (i : ℕ) (x : EvalNode ℕ) → node_at two_nodes i ≡ ok x → x.parent ≡ none → i ≡ 0
two_nodes-only_root zero x e q = refl
two_nodes-only_root (suc zero) x e q =
    let k : child_node ≡ x = ground arith in
    let r : some 0 ≡ none = ap (λ (z : EvalNode ℕ). z.parent) k ∙ q in absurd (cc r)
two_nodes-only_root (suc (suc i)) x e q = absurd (cc e)

two_nodes-children :
    (i c : ℕ) (x : EvalNode ℕ)
    → node_at two_nodes i ≡ ok x
    → Among c (child_list x.children)
    → IsChild two_nodes i c
two_nodes-children zero c x e m =
    let k : root_node ≡ x = ground arith in
    let m' : Among c (1 ∷ []) =
      subst (λ (z : EvalNode ℕ). Among c (child_list z.children)) (sym k) m in
    elim m' [
      | inl one ↦ subst (IsChild two_nodes 0) one (child_node, refl, refl)
      | inr bad ↦ absurd bad
    ]
two_nodes-children (suc zero) c x e m =
    let k : child_node ≡ x = ground arith in
    absurd (subst (λ (z : EvalNode ℕ). Among c (child_list z.children)) (sym k) m)
two_nodes-children (suc (suc i)) c x e m = absurd (cc e)

two_nodes-IsTree : IsTree two_nodes
two_nodes-IsTree = record {
  parent_before = two_nodes-parent_before;
  only_root = two_nodes-only_root;
  children_below = two_nodes-children;
}

-- A second hand for the root.
abbrev second_hand : EvalHand ℕ
second_hand = record { hand = record { bits = 2 }; tefda = record { bits = 3 }; p1 = 0; p2 = 0 }

create_child-Created_example :
    (c : ℕ) × (h' : Heap ℕ) × (create_child two_nodes 0 second_hand ≡ ok (c, h'))
    × Created two_nodes 0 second_hand c h'
create_child-Created_example =
    create_child-Created two_nodes 0 root_node second_hand two_nodes-IsTree refl

ltb-false : (p q : ℕ) → ltb p q ≡ false → q ≤ p
ltb-false p q e = ground (arith, e)

whole-IsStrict : IsStrict whole
whole-IsStrict = record {
  irreflexive = λ p. ground arith;
  transitive = λ p q r e f. ground (arith, e, f);
  apart = λ p q r e f. ground (arith, ltb-false p q e, ltb-false q r f);
}

find_best_param_child-Least_example :
    (r : Option (ℕ × ℕ)) × (find_best_param_child whole 2 two_nodes 0 ≡ ok r)
    × Least whole (Candidate whole two_nodes 0) r
find_best_param_child-Least_example =
    find_best_param_child-Least whole whole-IsStrict two_nodes two_nodes-IsTree 2 0 root_node refl
      (omega arith)

-- Every node is printed as one byte.
abbrev one_byte : List ℕ → ℕ → ℕ → Bool → List ℕ
one_byte text p1 p2 k = b'n' ∷ []

two_nodes-Printed :
    (j : ℕ) (y : EvalNode ℕ)
    → node_at two_nodes j ≡ ok y
    → (buff : List ℕ) × Printed one_byte two_nodes y buff
unfolding to_string
two_nodes-Printed zero y e =
    let k : root_node ≡ y = ground arith in
    subst (λ (z : EvalNode ℕ). (buff : List ℕ) × Printed one_byte two_nodes z buff) k
      (b'n' ∷ [], record { text = []; prints = refl; same = refl; fits = omega arith })
two_nodes-Printed (suc zero) y e =
    let k : child_node ≡ y = ground arith in
    subst (λ (z : EvalNode ℕ). (buff : List ℕ) × Printed one_byte two_nodes z buff) k
      (
        b'n' ∷ [],
        record { text = b'C' ∷ b'3' ∷ []; prints = refl; same = refl; fits = omega arith },
      )
two_nodes-Printed (suc (suc j)) y e = absurd (cc e)

tree_to_string_example :
    (text : List ℕ) × (tree_to_string one_byte 2 two_nodes 1 ≡ ok text)
    × Spelled one_byte two_nodes 1 text
tree_to_string_example =
    tree_to_string_lem one_byte two_nodes two_nodes-IsTree 2 1 child_node two_nodes-Printed refl
      (omega arith)
