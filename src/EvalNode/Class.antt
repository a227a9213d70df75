-- ===== src/EvalNode/Class.antt =====
-- Class `EvalNode` of Neof5Client/jni/neof5/EvalNode.hpp as its users see it: the constructor, the
-- destructor and the member functions.
use neof5client.Base.{ℕ, Bool, List, Option, Outcome}
use neof5client.CardSet.{CardSet}
use neof5client.Double.{Double}
use neof5client.EvalNode.{
  EvalNode, EvalHand, Heap, new_node, delete_node, is_root, get_heir_of_root, create_child,
  num_of_children, get_child_at, Best, find_best_param_child, save_hands_tree, tree_to_string,
}

module _ (D : Double) where
  open D use {R, of_ℕ}

  -- A field for each public member. Those that go through the tree have the rounds they may take
  -- and the heap; `print` is the `sprintf` of `treeToString`.
  pub record EvalNodeClass : Type 0 where
    pub new_node : CardSet → Bool → EvalNode R
    pub delete_node : ℕ → Heap R → ℕ → List ℕ → Outcome (List ℕ)
    pub is_root : EvalNode R → Bool
    pub get_parent : EvalNode R → Option ℕ
    pub get_heir_of_root : ℕ → Heap R → ℕ → Outcome ℕ
    pub create_child : Heap R → ℕ → EvalHand R → Outcome (ℕ × Heap R)
    pub num_of_children : EvalNode R → ℕ
    pub get_child_at : EvalNode R → ℕ → Outcome ℕ
    pub find_best_param_child : ℕ → Heap R → ℕ → Outcome (Best D)
    pub save_hands_tree : ℕ → Heap R → ℕ → List CardSet → Outcome (List CardSet)
    pub tree_to_string : (List ℕ → R → R → Bool → List ℕ) → ℕ → Heap R → ℕ → Outcome (List ℕ)

  abbrev pub eval_node_class : EvalNodeClass
  eval_node_class = record {
    new_node = new_node (of_ℕ 0);
    delete_node = delete_node;
    is_root = is_root;
    get_parent = λ x. x.parent;
    get_heir_of_root = get_heir_of_root;
    create_child = create_child;
    num_of_children = num_of_children;
    get_child_at = get_child_at;
    find_best_param_child = find_best_param_child D;
    save_hands_tree = save_hands_tree;
    tree_to_string = tree_to_string;
  }
