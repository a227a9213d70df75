-- ===== src/SagePlayer/Heir.antt =====
-- The hand of the node below the root, and the hands that are saved on the way up to it.
use neof5client.Base.{
  ℕ, zero, suc, ◌+◌, ◌-◌, ◌<◌, ◌≡◌, refl, sym, ap, subst, ◌∙◌, Bool, List, [], ◌∷◌, ◌++◌, ok, arith,
  length, Option, none, some, Option-cases, inl, inr, Bool-cases,
}
use native.Mathlib.Numerals.{unary_clauses}
use neof5client.CardSet.{CardSet, empty_set, is_empty}
use neof5client.CardSet.Members.{IsValid}
use neof5client.CardSet.Contract.{empty-IsValid}
use neof5client.DaifugoContext.Text.{AllValid}
use neof5client.Double.{Double}
use neof5client.EvalNode.{
  EvalNode, Heap, new_node, node_at, child_list, num_of_children, get_child_at, save_hands_tree,
}
use neof5client.EvalNode.Heap.{inside_of_node_at, node_at-inside}
use neof5client.EvalNode.Tree.{Among, IsChild}
use neof5client.EvalNode.Walk.{get_heir_of_root_lem, save_hands_tree_lem}
use neof5client.EvalNode.Erased.{Erased, erased}
use neof5client.SagePlayer.Sound.{Good, FirstPlay, HasKids, Sound, NodeOk, root_static, node_ok}
use neof5client.SagePlayer.Born.{is_empty-empty, pass-FirstPlay}
use neof5client.SagePlayer.Entry.{hand_of_heir}

AllValid-end : (ss : List CardSet) (s : CardSet) → AllValid ss → IsValid s → AllValid (ss ++ s ∷ [])
AllValid-end [] s all v = (v, refl)
AllValid-end (t ∷ ss) s (w, all) v = (w, AllValid-end ss s all v)

module _ (D : Double) (clock address random : ℕ → ℕ) (deck ba : CardSet) (kakumei : Bool) where
  open D use {R}

  -- The heap of the root alone is as the invariant says.
  pub one-Good :
      (nought : R) → IsValid deck → Good deck ba kakumei (new_node nought deck kakumei ∷ [])
  one-Good nought v = record {
    tree = record {
      parent_before = λ i p x e pe. no_parent i p x e pe;
      only_root = λ i x e top. only i x e;
      children_below = λ i c x e m. no_child i c x e m;
    };
    root = new_node nought deck kakumei;
    at_root = refl;
    is_root = refl;
    no_empty_list = λ e. cc e;
    sound = one;
  }
    where
      start : Heap R
      start = new_node nought deck kakumei ∷ []

      only : (i : ℕ) (x : EvalNode R) → node_at start i ≡ ok x → i ≡ 0
      only zero x e = refl
      only (suc i) x e = cc e

      no_parent : (i p : ℕ) (x : EvalNode R) → node_at start i ≡ ok x → x.parent ≡ some p → p < i
      no_parent zero p x e pe =
          let q : new_node nought deck kakumei ≡ x = ground (arith, e) in
          let r : none ≡ some p = ap (λ (y : EvalNode R). y.parent) q ∙ pe in cc r
      no_parent (suc i) p x e pe = cc e

      no_child :
          (i c : ℕ) (x : EvalNode R)
          → node_at start i ≡ ok x
          → Among c (child_list x.children)
          → IsChild start i c
      no_child zero c x e m =
          let q : new_node nought deck kakumei ≡ x = ground (arith, e) in
          absurd (subst (λ (y : EvalNode R). Among c (child_list y.children)) (sym q) m)
      no_child (suc i) c x e m = cc e

      one : Sound deck ba kakumei (erased start)
      one zero st e =
          let q : root_static deck ba kakumei ≡ st = ground (arith, e) in
          subst (NodeOk deck ba kakumei (erased start)) q (empty-IsValid, v, inl refl)
      one (suc i) st e = cc e

  module _ (h : Heap R) (good : Good deck ba kakumei h) where
    root_hand : good.root.eval.hand ≡ empty_set
    root_hand = ap (λ (z : Erased). z.eval.hand) good.is_root

    child-FirstPlay :
        (c : ℕ) (y : EvalNode R)
        → node_at h c ≡ ok y
        → y.parent ≡ some 0
        → FirstPlay deck ba kakumei y.eval.hand
    child-FirstPlay c y e pe =
        let (v, w, place) = node_ok deck ba kakumei h c y good e in
        elim place [
          | inl root ↦
              let none_some : none ≡ some 0 = sym (ap (λ (z : Erased). z.parent) root) ∙ pe in
              cc none_some
          | inr (p, at_p, fits) ↦
              let same : some p ≡ some 0 = sym at_p ∙ pe in fits.first (ground (arith, same))
        ]

    -- The hand of the node below the root is one that may be put first.
    pub hand_of_heir-FirstPlay :
        (i : ℕ) (x : EvalNode R)
        → node_at h i ≡ ok x
        → (hand : CardSet) × (hand_of_heir D clock address random h i ≡ ok hand)
          × FirstPlay deck ba kakumei hand
    unfolding hand_of_heir
    hand_of_heir-FirstPlay i x e =
        let (c, run, place) =
          get_heir_of_root_lem h good.tree (length h) i x e (inside_of_node_at h i x e) in
        elim place [
          | inl (c0, i0) ↦
              let at_c : node_at h c ≡ ok good.root = ap (node_at h) c0 ∙ good.at_root in
              (
                good.root.eval.hand,
                ground (arith, run, at_c),
                subst (FirstPlay deck ba kakumei) (sym root_hand) (pass-FirstPlay deck ba kakumei),
              )
          | inr (y, ye, pe) ↦ (y.eval.hand, ground (arith, run, ye), child-FirstPlay c y ye pe)
        ]

    last_of_list :
        (y : EvalNode R) (cs : List ℕ) (c : ℕ)
        → (d : ℕ) × (get_child_at (record y { children = some (c ∷ cs) }) (length cs) ≡ ok d)
          × Among d (c ∷ cs)
    unfolding get_child_at
    last_of_list y [] c = (c, refl, inl refl)
    last_of_list y (b ∷ cs) c = let (d, run, m) = last_of_list y cs b in (d, run, inr m)

    pub last_child :
        (y : EvalNode R) (c : ℕ) (cs : List ℕ)
        → y.children ≡ some (c ∷ cs)
        → (d : ℕ) × (get_child_at y (num_of_children y - 1) ≡ ok d)
          × Among d (child_list y.children)
    unfolding get_child_at num_of_children last_of_list
    last_child y c cs list =
        let (d, run, m) = last_of_list y cs c in
        (
          d,
          rw list (simp unary_clauses run),
          subst (λ (l : Option (List ℕ)). Among d (child_list l)) (sym list) m,
        )

    pub root_list :
        HasKids deck ba kakumei h → (c : ℕ) × (cs : List ℕ) × (good.root.children ≡ some (c ∷ cs))
    root_list (x, c, cs, e, list) =
        let at_root = good.at_root in
        let q : good.root ≡ x = ground (arith, at_root, e) in
        (c, cs, ap (λ (y : EvalNode R). y.children) q ∙ list)

    save_hands-AllValid :
        (fuel i : ℕ) (x : EvalNode R) (buff hands : List CardSet)
        → node_at h i ≡ ok x
        → save_hands_tree fuel h i buff ≡ ok hands
        → AllValid buff
        → AllValid hands
    unfolding save_hands_tree
    save_hands-AllValid zero i x buff hands e run all = cc
    save_hands-AllValid (suc fuel) i x buff hands e run all =
        let (v, w, place) = node_ok deck ba kakumei h i x good e in
        elim (Bool-cases (is_empty x.eval.hand)) [
          | inl stop ↦
              let same : buff ≡ hands = ground (arith, e, stop, run) in subst AllValid same all
          | inr on ↦ elim (Option-cases x.parent) [
            | inl top ↦ absurd (ground (arith, e, on, top, run))
            | inr (p, pe) ↦
                let before = good.tree.parent_before i p x e pe in
                let (y, ye) =
                  node_at-inside h p (omega (arith, before, inside_of_node_at h i x e)) in
                save_hands-AllValid fuel p y (buff ++ x.eval.hand ∷ []) hands ye
                  (ground (arith, e, on, pe, run)) (AllValid-end buff x.eval.hand all v)
          ]
        ]

    -- The hands that `saveHandsTree` gives, of the 53 cards each.
    pub saves-AllValid :
        (i : ℕ) (x : EvalNode R)
        → node_at h i ≡ ok x
        → (hands : List CardSet) × (save_hands_tree (length h + 1) h i [] ≡ ok hands)
          × AllValid hands
    saves-AllValid i x e =
        let no_hand = ap is_empty root_hand ∙ is_empty-empty in
        let (hands, saves, some_cards, few) =
          save_hands_tree_lem h good.tree good.root good.at_root no_hand (length h + 1) i x [] e
            (omega (arith, inside_of_node_at h i x e)) in
        (hands, saves, save_hands-AllValid (length h + 1) i x [] hands e saves refl)
