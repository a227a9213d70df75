-- ===== src/EvalNode.antt =====
-- Neof5Client/jni/neof5/EvalNode.hpp and EvalNode.cpp: the search tree. The nodes lie on a heap,
-- a list of nodes; a pointer is an index into it, and a new node goes to the end.
pub mod Heap
pub mod Tree
pub mod Create
pub mod Walk
pub mod Best
pub mod Least
pub mod Text
pub mod Erased
pub mod Class
pub mod Tests
use neof5client.Base.{
  ℕ, zero, suc, ◌+◌, Bool, true, false, not, List, [], ◌∷◌, ◌++◌, leb, if◌then◌else◌, Option, none,
  some, Outcome, ok, undefined, out_of_fuel, thrown, std_out_of_range, ◌>>=◌, length, ◌==◌, ◌||◌,
  ltb, ◌-◌,
}
use neof5client.CardSet.{CardSet, empty_set, remove_set, size, is_empty, eq_set, to_string}
use neof5client.Double.{Double}

-- The parameters `p1` and `p2` are doubles.
pub record EvalHand (R : Type 0) : Type 0 where
  pub hand : CardSet
  pub tefda : CardSet
  pub p1 : R
  pub p2 : R

-- A null `_children` is `none`. `eval` is the field `hand` of the class.
pub record EvalNode (R : Type 0) : Type 0 where
  pub parent : Option ℕ
  pub children : Option (List ℕ)
  pub eval : EvalHand R
  pub is_kakumei : Bool

abbrev pub Heap : Type 0 → Type 0
Heap R = List (EvalNode R)

abbrev pub child_list : Option (List ℕ) → List ℕ
child_list none = []
child_list (some cs) = cs

abbrev pub is_freed : ℕ → List ℕ → Bool
is_freed i [] = false
is_freed i (j ∷ js) = i == j || is_freed i js

-- `std::vector::at` throws past the end.
abbrev child_at : List ℕ → ℕ → Outcome ℕ
child_at [] idx = thrown std_out_of_range
child_at (c ∷ cs) zero = ok c
child_at (c ∷ cs) (suc idx) = child_at cs idx

-- `delete p` for the children one after the other; `below` is the destructor of a child.
unfoldable pub delete_children :
    (ℕ → List ℕ → Outcome (List ℕ)) → List ℕ → List ℕ → Outcome (List ℕ)
delete_children below [] freed = ok freed
delete_children below (c ∷ cs) freed = do freed' ← below c freed; delete_children below cs freed'

-- The constructor; `nought` is the double 0.
abbrev pub new_node : {R : Type 0} → R → CardSet → Bool → EvalNode R
new_node nought tefda is_kakumei = record {
  parent = none;
  children = none;
  eval = record { hand = empty_set; tefda = tefda; p1 = nought; p2 = nought };
  is_kakumei = is_kakumei;
}

module _ {R : Type 0} where
  -- Reading through a pointer that points to no node is undefined.
  abbrev pub node_at : Heap R → ℕ → Outcome (EvalNode R)
  node_at [] i = undefined
  node_at (x ∷ h) zero = ok x
  node_at (x ∷ h) (suc i) = node_at h i

  abbrev pub set_node : Heap R → ℕ → EvalNode R → Heap R
  set_node [] i y = []
  set_node (x ∷ h) zero y = y ∷ h
  set_node (x ∷ h) (suc i) y = x ∷ set_node h i y

  unfoldable pub is_root : EvalNode R → Bool
  is_root x = elim x.parent [ none ↦ true | some p ↦ false ]

  unfoldable pub num_of_children : EvalNode R → ℕ
  num_of_children x = length (child_list x.children)

  -- `getChildAt`; reading through a null `_children` is undefined.
  unfoldable pub get_child_at : EvalNode R → ℕ → Outcome ℕ
  get_child_at x idx = elim x.children [ none ↦ undefined | some cs ↦ child_at cs idx ]

  -- `getHeirOfRoot`: up the parents to the node below the root, or the root itself.
  unfoldable pub get_heir_of_root : ℕ → Heap R → ℕ → Outcome ℕ
  get_heir_of_root zero h i = out_of_fuel
  get_heir_of_root (suc fuel) h i = do
    x ← node_at h i
    elim x.parent [
      | none ↦ ok i
      | some p ↦ do
        y ← node_at h p
        elim y.parent [ none ↦ ok i | some q ↦ get_heir_of_root fuel h p ]
    ]

  -- The search of `createChild` for a child with the same hand.
  unfoldable pub find_child : Heap R → List ℕ → CardSet → Outcome (Option ℕ)
  find_child h [] hand = ok none
  find_child h (c ∷ cs) hand = do
    x ← node_at h c
    elim (eq_set x.eval.hand hand) [ true ↦ ok (some c) | false ↦ find_child h cs hand ]

  -- The node that `createChild` makes below `x`, which stands at `i`.
  unfoldable pub make_child : ℕ → EvalNode R → EvalHand R → EvalNode R
  make_child i x eh = record {
    parent = some i;
    children = none;
    eval = record eh { tefda = remove_set eh.tefda x.eval.hand };
    is_kakumei = if leb 4 (size eh.hand) then not x.is_kakumei else x.is_kakumei;
  }

  -- `createChild`: the pointer to the child, and the heap.
  unfoldable pub create_child : Heap R → ℕ → EvalHand R → Outcome (ℕ × Heap R)
  unfolding find_child make_child
  create_child h i eh = do
    x ← node_at h i
    found ← find_child h (child_list x.children) eh.hand
    elim found [
      | some c ↦ ok (c, h)
      | none ↦
          let new = length h in
          let x' = record x { children = some (child_list x.children ++ new ∷ []) } in
          ok (new, set_node h i x' ++ make_child i x eh ∷ [])
    ]

  -- `saveHandsTree`: the hands from a node up to the root, the node's own first.
  unfoldable pub save_hands_tree : ℕ → Heap R → ℕ → List CardSet → Outcome (List CardSet)
  save_hands_tree zero h i buff = out_of_fuel
  save_hands_tree (suc fuel) h i buff = do
    x ← node_at h i
    elim (is_empty x.eval.hand) [
      | true ↦ ok buff
      | false ↦ elim x.parent [
        | none ↦ undefined
        | some p ↦ save_hands_tree fuel h p (buff ++ x.eval.hand ∷ [])
      ]
    ]

  -- The destructor, with the nodes that were freed before it: those that are freed after it, the
  -- last one first. A node that is freed twice is undefined.
  unfoldable pub delete_node : ℕ → Heap R → ℕ → List ℕ → Outcome (List ℕ)
  unfolding delete_children
  delete_node zero h i freed = out_of_fuel
  delete_node (suc fuel) h i freed = elim (is_freed i freed) [
    | true ↦ undefined
    | false ↦ do
      x ← node_at h i
      freed' ← delete_children (delete_node fuel h) (child_list x.children) freed
      ok (i ∷ freed')
  ]

  -- `treeToString`; `print` is what `sprintf` makes of the hand's text, `p1`, `p2` and `isKakumei`.
  -- It writes a 0 byte behind it, into a buffer of 64 bytes.
  unfoldable pub tree_to_string :
      (List ℕ → R → R → Bool → List ℕ) → ℕ → Heap R → ℕ → Outcome (List ℕ)
  tree_to_string print zero h i = out_of_fuel
  tree_to_string print (suc fuel) h i = do
    x ← node_at h i
    text ← to_string x.eval.hand
    let buff = print text x.eval.p1 x.eval.p2 x.is_kakumei
    elim (ltb (length buff) 64) [
      | false ↦ undefined
      | true ↦ elim x.parent [
        | none ↦ ok buff
        | some p ↦ do above ← tree_to_string print fuel h p; ok (above ++ buff)
      ]
    ]

module _ (D : Double) where
  open D use {R, of_ℕ, lt, eq}

  abbrev pub Best : Type 0
  Best = Option (ℕ × R)

  -- One round of the loop of `findBestParamChild`: `found` is the child, or what the search below
  -- it gave.
  abbrev pub better : Best → Best → Best
  better best none = best
  better none (some (c, p2)) = some (c, p2)
  better (some (b, q2)) (some (c, p2)) = if lt p2 q2 then some (c, p2) else some (b, q2)

  unfoldable pub best_of_children : (ℕ → Outcome Best) → Heap R → List ℕ → Best → Outcome Best
  best_of_children below h [] best = ok best
  best_of_children below h (c ∷ cs) best = do
    x ← node_at h c
    found ← elim (eq x.eval.p2 (of_ℕ 0)) [ true ↦ below c | false ↦ ok (some (c, x.eval.p2)) ]
    best_of_children below h cs (better best found)

  -- `findBestParamChild`: the best node with its `p2`, if there is one.
  unfoldable pub find_best_param_child : ℕ → Heap R → ℕ → Outcome Best
  unfolding best_of_children
  find_best_param_child zero h i = out_of_fuel
  find_best_param_child (suc fuel) h i = do
    x ← node_at h i
    best_of_children (find_best_param_child fuel h) h (child_list x.children) none
