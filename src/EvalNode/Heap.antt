-- ===== src/EvalNode/Heap.antt =====
-- Reading and writing nodes on the heap.
use neof5client.Base.{
  ℕ, zero, suc, ◌<◌, ◌≡◌, ◌≢◌, refl, ap, [], ◌∷◌, ◌++◌, ok, arith, length, ◌⊎◌, inl, inr,
}
use neof5client.EvalNode.{EvalNode, Heap, node_at, set_node}

module _ {R : Type 0} where
  -- A read inside the heap gives a node.
  pub node_at-inside : (h : Heap R) (i : ℕ) → i < length h → (x : EvalNode R) × (node_at h i ≡ ok x)
  node_at-inside [] i lt = absurd (omega arith)
  node_at-inside (x ∷ h) zero lt = (x, refl)
  node_at-inside (x ∷ h) (suc i) lt = node_at-inside h i (omega arith)

  pub inside_of_node_at : (h : Heap R) (i : ℕ) (x : EvalNode R) → node_at h i ≡ ok x → i < length h
  inside_of_node_at [] i x e = cc
  inside_of_node_at (y ∷ h) zero x e = omega arith
  inside_of_node_at (y ∷ h) (suc i) x e = omega (arith, inside_of_node_at h i x e)

  pub length-set_node : (h : Heap R) (i : ℕ) (y : EvalNode R) → length (set_node h i y) ≡ length h
  length-set_node [] i y = refl
  length-set_node (x ∷ h) zero y = refl
  length-set_node (x ∷ h) (suc i) y = ap suc (length-set_node h i y)

  pub node_at-set_self :
      (h : Heap R) (i : ℕ) (y : EvalNode R) → i < length h → node_at (set_node h i y) i ≡ ok y
  node_at-set_self [] i y lt = absurd (omega arith)
  node_at-set_self (x ∷ h) zero y lt = refl
  node_at-set_self (x ∷ h) (suc i) y lt = node_at-set_self h i y (omega arith)

  pub node_at-set_ne :
      (h : Heap R) (i j : ℕ) (y : EvalNode R) → i ≢ j → node_at (set_node h i y) j ≡ node_at h j
  node_at-set_ne [] i j y ne = refl
  node_at-set_ne (x ∷ h) zero zero y ne = absurd (ne refl)
  node_at-set_ne (x ∷ h) zero (suc j) y ne = refl
  node_at-set_ne (x ∷ h) (suc i) zero y ne = refl
  node_at-set_ne (x ∷ h) (suc i) (suc j) y ne = node_at-set_ne h i j y (λ e. ne (ap suc e))

  -- A node put at the end is read there, and the others stay.
  pub node_at-append :
      (h : Heap R) (i : ℕ) (y : EvalNode R) → i < length h → node_at (h ++ y ∷ []) i ≡ node_at h i
  node_at-append [] i y lt = absurd (omega arith)
  node_at-append (x ∷ h) zero y lt = refl
  node_at-append (x ∷ h) (suc i) y lt = node_at-append h i y (omega arith)

  pub node_at-append_end : (h : Heap R) (y : EvalNode R) → node_at (h ++ y ∷ []) (length h) ≡ ok y
  node_at-append_end [] y = refl
  node_at-append_end (x ∷ h) y = node_at-append_end h y

  pub node_at-append_cases :
      (h : Heap R) (i : ℕ) (x y : EvalNode R)
      → node_at (h ++ y ∷ []) i ≡ ok x
      → (node_at h i ≡ ok x) ⊎ ((i ≡ length h) × (y ≡ x))
  node_at-append_cases [] zero x y e = inr (refl, ground arith)
  node_at-append_cases [] (suc i) x y e = cc
  node_at-append_cases (z ∷ h) zero x y e = inl e
  node_at-append_cases (z ∷ h) (suc i) x y e = elim (node_at-append_cases h i x y e) [
    | inl p ↦ inl p
    | inr (p, q) ↦ inr (ap suc p, q)
  ]

  pub node_at-set_cases :
      (h : Heap R) (i j : ℕ) (x y : EvalNode R)
      → node_at (set_node h i y) j ≡ ok x
      → (node_at h j ≡ ok x) ⊎ ((i ≡ j) × (y ≡ x))
  node_at-set_cases [] i j x y e = cc
  node_at-set_cases (z ∷ h) zero zero x y e = inr (refl, ground arith)
  node_at-set_cases (z ∷ h) zero (suc j) x y e = inl e
  node_at-set_cases (z ∷ h) (suc i) zero x y e = inl e
  node_at-set_cases (z ∷ h) (suc i) (suc j) x y e = elim (node_at-set_cases h i j x y e) [
    | inl p ↦ inl p
    | inr (p, q) ↦ inr (ap suc p, q)
  ]
