-- ===== src/SagePlayer/Sound.antt =====
-- The invariant of the search tree: what every node is, and that writing `p2` and `createChild`
-- keep it.
use neof5client.Base.{
  ℕ, zero, suc, ◌<◌, ◌≤◌, ◌≡◌, ◌≢◌, refl, sym, ap, subst, ◌∙◌, Bool, true, List, [], ◌∷◌, ◌++◌, ok,
  arith, length, Option, none, some, ◌⊎◌, inl, inr, append-nil, append_assoc,
}
use native.Mathlib.Decide.{ℕ_discrete}
use neof5client.CardSet.{CardSet, empty_set, size, has_set}
use neof5client.CardSet.Members.{IsValid}
use neof5client.CardSet.Contract.{remove_set-IsValid}
use neof5client.CardSet.Fewer.{size-remove_set-le}
use neof5client.DaifugoRule.Legal.{LegalPlay}
use neof5client.EvalNode.{
  EvalNode, EvalHand, Heap, node_at, set_node, child_list, make_child, create_child,
}
use neof5client.EvalNode.Heap.{
  node_at-append_cases, node_at-set_self, node_at-set_ne, inside_of_node_at,
}
use neof5client.EvalNode.Tree.{
  Among, IsTree, find_child-Found, grown, grown_parent, grown-IsTree, grown_at_parent, grown_at_new,
  grown_at_other,
}
use neof5client.EvalNode.Erased.{
  Erased, erase, erased, erased-at, unerased, erased-set, erased-append, set-IsTree,
}

pub node_at-left :
    (a b : Heap (Unit {0})) (i : ℕ) (st : Erased) → node_at a i ≡ ok st → node_at (a ++ b) i ≡ ok st
node_at-left [] b i st e = cc
node_at-left (x ∷ a) b zero st e = e
node_at-left (x ∷ a) b (suc i) st e = node_at-left a b i st e

list_of_child :
    (o : Option (List ℕ)) (c : ℕ)
    → Among c (child_list o)
    → (d : ℕ) × (ds : List ℕ) × (o ≡ some (d ∷ ds))
list_of_child none c m = absurd m
list_of_child (some []) c m = absurd m
list_of_child (some (d ∷ ds)) c m = (d, ds, refl)

some_end : (cs : List ℕ) (d : ℕ) → (e : ℕ) × (es : List ℕ) × (cs ++ d ∷ [] ≡ e ∷ es)
some_end [] d = (d, [], refl)
some_end (c ∷ cs) d = (c, cs ++ d ∷ [], refl)

module _ (deck ba : CardSet) (kakumei : Bool) where
  -- A set that may be put first: legal cards of the hand, or none.
  abbrev pub FirstPlay : CardSet → Type 0
  FirstPlay hand = (has_set deck hand ≡ true) × LegalPlay kakumei hand ba

  abbrev pub root_static : Erased
  root_static = record {
    parent = none;
    children = none;
    eval = record { hand = empty_set; tefda = deck; p1 = tt; p2 = tt };
    is_kakumei = kakumei;
  }

  -- A node below `p` has no more cards left than its parent, fewer if the parent is not the root,
  -- and below the root it plays a set that may be put first.
  pub record Fits (sts : Heap (Unit {0})) (st : Erased) (p : ℕ) : Type 0 where
    pub above : Erased
    pub is_above : node_at sts p ≡ ok above
    pub no_more : size st.eval.tefda ≤ size above.eval.tefda
    pub fewer : p ≢ 0 → size st.eval.tefda < size above.eval.tefda
    pub first : p ≡ 0 → FirstPlay st.eval.hand

  abbrev pub NodeOk : Heap (Unit {0}) → Erased → Type 0
  NodeOk sts st =
      IsValid st.eval.hand
      × IsValid st.eval.tefda
      × ((st ≡ root_static) ⊎ ((p : ℕ) × (st.parent ≡ some p) × Fits sts st p))

  abbrev pub Sound : Heap (Unit {0}) → Type 0
  Sound sts = (i : ℕ) (st : Erased) → node_at sts i ≡ ok st → NodeOk sts st

  NodeOk-append :
      (sts more : Heap (Unit {0})) (st : Erased) → NodeOk sts st → NodeOk (sts ++ more) st
  NodeOk-append sts more st (v, w, inl root) = (v, w, inl root)
  NodeOk-append sts more st (v, w, inr (p, pe, fits)) = (
    v,
    w,
    inr (
      p,
      pe,
      record {
        above = fits.above;
        is_above = node_at-left sts more p fits.above fits.is_above;
        no_more = fits.no_more;
        fewer = fits.fewer;
        first = fits.first;
      },
    ),
  )

  Sound-append :
      (sts : Heap (Unit {0})) (st : Erased) → Sound sts → NodeOk sts st → Sound (sts ++ st ∷ [])
  Sound-append sts st sound fits i st' e = elim (node_at-append_cases sts i st' st e) [
    | inl old ↦ NodeOk-append sts (st ∷ []) st' (sound i st' old)
    | inr (at_end, q) ↦ subst (NodeOk (sts ++ st ∷ [])) q (NodeOk-append sts (st ∷ []) st fits)
  ]

  module _ {R : Type 0} where
    -- The root has a child.
    abbrev pub HasKids : Heap R → Type 0
    HasKids h =
        (x : EvalNode R) × (c : ℕ) × (cs : List ℕ) × (node_at h 0 ≡ ok x)
        × (x.children ≡ some (c ∷ cs))

    pub record Good (h : Heap R) : Type 0 where
      pub tree : IsTree h
      pub root : EvalNode R
      pub at_root : node_at h 0 ≡ ok root
      pub is_root : erase root ≡ root_static
      pub no_empty_list : root.children ≢ some []
      pub sound : Sound (erased h)

    -- From `h` to `h'` nodes were only added, and written where they may change.
    pub record Stays (h h' : Heap R) : Type 0 where
      pub more : Heap (Unit {0})
      pub same : erased h' ≡ erased h ++ more
      pub kids : HasKids h → HasKids h'

    pub Stays-refl : (h : Heap R) → Stays h h
    Stays-refl h = record { more = []; same = sym (append-nil (erased h)); kids = λ k. k }

    pub Stays-trans : (f g h : Heap R) → Stays f g → Stays g h → Stays f h
    Stays-trans f g h a b = record {
      more = a.more ++ b.more;
      same =
          b.same
          ∙ ap (λ (sts : Heap (Unit {0})). sts ++ b.more) a.same
          ∙ append_assoc (erased f) a.more b.more;
      kids = λ k. b.kids (a.kids k);
    }

    pub Stays-at :
        (h h' : Heap R) (i : ℕ) (x : EvalNode R)
        → Stays h h'
        → node_at h i ≡ ok x
        → (x' : EvalNode R) × (node_at h' i ≡ ok x') × (erase x' ≡ erase x)
    Stays-at h h' i x st e = unerased h' i (erase x) (
        ap (λ (sts : Heap (Unit {0})). node_at sts i) st.same
        ∙ node_at-left (erased h) st.more i (erase x) (erased-at h i x e))

  module _ {R : Type 0} (h : Heap R) (i : ℕ) (x : EvalNode R) (good : Good h)
      (at_i : node_at h i ≡ ok x) where
    -- A node is as the invariant says.
    pub node_ok : NodeOk (erased h) (erase x)
    node_ok = good.sound i (erase x) (erased-at h i x at_i)

    module _ (y : EvalNode R) (same : erase y ≡ erase x) (list : y.children ≡ x.children) where
      set-kids : HasKids h → HasKids (set_node h i y)
      set-kids (z, c, cs, e, k) = elim (ℕ_discrete i 0) [
        | yes zero_i ↦
            let q : x ≡ z = ground (arith, at_i, e, ap (node_at h) zero_i) in
            (
              y,
              c,
              cs,
              ap (node_at (set_node h i y)) (sym zero_i)
                  ∙ node_at-set_self h i y (inside_of_node_at h i x at_i),
              list ∙ ap (λ (w : EvalNode R). w.children) q ∙ k,
            )
        | no ne ↦ (z, c, cs, node_at-set_ne h i 0 y ne ∙ e, k)
      ]

      pub set-Stays : Stays h (set_node h i y)
      set-Stays = record {
        more = [];
        same = erased-set h i x y at_i same ∙ sym (append-nil (erased h));
        kids = set-kids;
      }

      set-root :
          (root' : EvalNode R) × (node_at (set_node h i y) 0 ≡ ok root')
          × (erase root' ≡ root_static)
          × (root'.children ≢ some [])
      set-root = elim (ℕ_discrete i 0) [
        | yes zero_i ↦
            let q : x ≡ good.root = ground (arith, at_i, good.at_root, ap (node_at h) zero_i) in
            (
              y,
              ap (node_at (set_node h i y)) (sym zero_i)
                  ∙ node_at-set_self h i y (inside_of_node_at h i x at_i),
              same ∙ ap erase q ∙ good.is_root,
              λ e. good.no_empty_list (ap (λ (w : EvalNode R). w.children) (sym q) ∙ sym list ∙ e),
            )
        | no ne ↦
            (good.root, node_at-set_ne h i 0 y ne ∙ good.at_root, good.is_root, good.no_empty_list)
      ]

      pub set-Good : Good (set_node h i y)
      set-Good =
          let (root', at0, is_root, not_empty) = set-root in
          record {
            tree = set-IsTree h i x y good.tree at_i same list;
            root = root';
            at_root = at0;
            is_root = is_root;
            no_empty_list = not_empty;
            sound = subst Sound (sym (erased-set h i x y at_i same)) good.sound;
          }

    -- What a hand must be to become a child of the node.
    pub record Offer (eh : EvalHand R) : Type 0 where
      pub hand_valid : IsValid eh.hand
      pub tefda_valid : IsValid eh.tefda
      pub no_more : size eh.tefda ≤ size x.eval.tefda
      pub fewer : i ≢ 0 → size eh.tefda < size x.eval.tefda
      pub first : i ≡ 0 → FirstPlay eh.hand

    module _ (eh : EvalHand R) (offer : Offer eh) where
      abbrev grown_heap : Heap R
      grown_heap = grown h i x eh good.tree at_i

      grown_erased : erased grown_heap ≡ erased h ++ erase (make_child i x eh) ∷ []
      grown_erased =
          erased-append (set_node h i (grown_parent h i x eh good.tree at_i)) (make_child i x eh)
          ∙ ap (λ (sts : Heap (Unit {0})). sts ++ erase (make_child i x eh) ∷ [])
              (erased-set h i x (grown_parent h i x eh good.tree at_i) at_i refl)

      child-NodeOk : NodeOk (erased h) (erase (make_child i x eh))
      unfolding make_child
      child-NodeOk =
          let (hand_valid, tefda_valid, place) = node_ok in
          let less = size-remove_set-le eh.tefda x.eval.hand hand_valid in
          (
            offer.hand_valid,
            remove_set-IsValid eh.tefda x.eval.hand offer.tefda_valid hand_valid,
            inr (
              i,
              refl,
              record {
                above = erase x;
                is_above = erased-at h i x at_i;
                no_more = omega (arith, less, offer.no_more);
                fewer = λ ne. omega (arith, less, offer.fewer ne);
                first = offer.first;
              },
            ),
          )

      new-kids : i ≡ 0 → HasKids grown_heap
      new-kids zero_i =
          let (c, cs, e) = some_end (child_list x.children) (length h) in
          (
            grown_parent h i x eh good.tree at_i,
            c,
            cs,
            ap (node_at grown_heap) (sym zero_i) ∙ grown_at_parent h i x eh good.tree at_i,
            ap some e,
          )

      grown-kids : HasKids h → HasKids grown_heap
      grown-kids (z, c, cs, e, k) = elim (ℕ_discrete i 0) [
        | yes zero_i ↦ new-kids zero_i
        | no ne ↦ (z, c, cs, grown_at_other h i x eh good.tree at_i 0 z ne e, k)
      ]

      grown-Stays : Stays h grown_heap
      grown-Stays = record {
        more = erase (make_child i x eh) ∷ [];
        same = grown_erased;
        kids = grown-kids;
      }

      grown-root :
          (root' : EvalNode R) × (node_at grown_heap 0 ≡ ok root')
          × (erase root' ≡ root_static)
          × (root'.children ≢ some [])
      grown-root = elim (ℕ_discrete i 0) [
        | yes zero_i ↦
            let q : x ≡ good.root = ground (arith, at_i, good.at_root, ap (node_at h) zero_i) in
            let (c, cs, e) = some_end (child_list x.children) (length h) in
            (
              grown_parent h i x eh good.tree at_i,
              ap (node_at grown_heap) (sym zero_i) ∙ grown_at_parent h i x eh good.tree at_i,
              ap erase q ∙ good.is_root,
              λ empty_list. let r : some (c ∷ cs) ≡ some [] = ap some (sym e) ∙ empty_list in cc r,
            )
        | no ne ↦ (
          good.root,
          grown_at_other h i x eh good.tree at_i 0 good.root ne good.at_root,
          good.is_root,
          good.no_empty_list,
        )
      ]

      grown-Good : Good grown_heap
      grown-Good =
          let (root', at0, is_root, not_empty) = grown-root in
          record {
            tree = grown-IsTree h i x eh good.tree at_i;
            root = root';
            at_root = at0;
            is_root = is_root;
            no_empty_list = not_empty;
            sound =
                subst Sound (sym grown_erased)
                  (Sound-append (erased h) (erase (make_child i x eh)) good.sound child-NodeOk);
          }

      -- `createChild` keeps the invariant, and gives a child of the node.
      pub record Made (c : ℕ) (h' : Heap R) : Type 0 where
        pub child : EvalNode R
        pub good' : Good h'
        pub stays : Stays h h'
        pub at_child : node_at h' c ≡ ok child
        pub below : child.parent ≡ some i
        pub kids : i ≡ 0 → HasKids h'

      pub create-Made : (c : ℕ) × (h' : Heap R) × (create_child h i eh ≡ ok (c, h')) × Made c h'
      unfolding create_child make_child
      create-Made =
          elim (find_child-Found h (child_list x.children) eh.hand
            (λ c m. let (y, e, pe) = good.tree.children_below i c x at_i m in (y, e))) [
              | inl (c, z, found, m, e, same) ↦
                  let (y, ye, pe) = good.tree.children_below i c x at_i m in
                  let (d, ds, list) = list_of_child x.children c m in
                  (
                    c,
                    h,
                    rw at_i (rw found refl),
                    record {
                      child = y;
                      good' = good;
                      stays = Stays-refl h;
                      at_child = ye;
                      below = pe;
                      kids = λ zero_i. (x, d, ds, ap (node_at h) (sym zero_i) ∙ at_i, list);
                    },
                  )
              | inr (missing, none_same) ↦ (
                length h,
                grown_heap,
                rw at_i (rw missing refl),
                record {
                  child = make_child i x eh;
                  good' = grown-Good;
                  stays = grown-Stays;
                  at_child = grown_at_new h i x eh good.tree at_i;
                  below = refl;
                  kids = new-kids;
                },
              )
            ]
