-- ===== src/SagePlayer/Born.antt =====
-- A child that the search makes: it has few cards, and the invariant of the tree stays.
use neof5client.Base.{
  ℕ, ◌<◌, ◌≤◌, ◌≡◌, ◌≢◌, refl, sym, ap, subst, ◌∙◌, Bool, true, List, [], ◌∷◌, ok, arith, Option,
  none, some, ◌⊎◌, inl, inr, Bool-cases, ltb,
}
use native.Mathlib.Decide.{ℕ_discrete}
use neof5client.CardSet.{CardSet, empty_set, size, is_empty}
use neof5client.CardSet.Members.{IsValid, has_set_iff, member-empty}
use neof5client.Double.{Double}
use neof5client.EvalNode.{EvalNode, EvalHand, Heap, node_at, create_child}
use neof5client.EvalNode.Erased.{Erased, erase, erased, erased-at}
use neof5client.SagePlayer.Search.{Part, result, go_on, insert_node}
use neof5client.SagePlayer.Sound.{
  Good, Stays, Stays-trans, Stays-at, node_ok, Offer, FirstPlay, HasKids, Fits, root_static,
  create-Made,
}

pub Part-cases :
    {A : Type 0} (part : Part A)
    → ((r : Option ℕ) × (part ≡ result r)) ⊎ ((a : A) × (part ≡ go_on a))
Part-cases (result r) = inl (r, refl)
Part-cases (go_on a) = inr (a, refl)

pub is_empty-empty : is_empty empty_set ≡ true
unfolding is_empty
is_empty-empty = refl

pub pass-FirstPlay : (deck ba : CardSet) (kakumei : Bool) → FirstPlay deck ba kakumei empty_set
pass-FirstPlay deck ba kakumei =
    ((has_set_iff deck empty_set).1 (λ i m. ground (arith, member-empty i, m)), inl is_empty-empty)

module _ (D : Double) (clock address : ℕ → ℕ) (deck ba : CardSet) (kakumei : Bool) where
  open D use {R, of_ℕ}

  abbrev Sane : Heap R → Type 0
  Sane h = Good deck ba kakumei h

  abbrev Grows : Heap R → Heap R → Type 0
  Grows h h' = Stays deck ba kakumei h h'

  -- A node that is not the root, with fewer than `b` cards left.
  abbrev pub NodeBelow : Heap R → ℕ → ℕ → Type 0
  NodeBelow h b c = (y : EvalNode R) × (node_at h c ≡ ok y) × (size y.eval.tefda < b) × (c ≢ 0)

  abbrev pub AllBelow : Heap R → ℕ → List ℕ → Type 0
  AllBelow h b [] = Unit {0}
  AllBelow h b (c ∷ cs) = NodeBelow h b c × AllBelow h b cs

  pub NodeBelow-Grows : (h h' : Heap R) (b c : ℕ) → Grows h h' → NodeBelow h b c → NodeBelow h' b c
  NodeBelow-Grows h h' b c st (y, e, few, ne) =
      let (y', e', same) = Stays-at deck ba kakumei h h' c y st e in
      (
        y',
        e',
        subst (λ (t : CardSet). size t < b) (sym (ap (λ (z : Erased). z.eval.tefda) same)) few,
        ne,
      )

  pub AllBelow-Grows :
      (h h' : Heap R) (b : ℕ) (cs : List ℕ) → Grows h h' → AllBelow h b cs → AllBelow h' b cs
  AllBelow-Grows h h' b [] st all = tt
  AllBelow-Grows h h' b (c ∷ cs) st (k, all) =
      (NodeBelow-Grows h h' b c st k, AllBelow-Grows h h' b cs st all)

  pub AllBelow-insert :
      (h : Heap R) (b c : ℕ) (cs : List ℕ)
      → NodeBelow h b c
      → AllBelow h b cs
      → AllBelow h b (insert_node D clock address c cs)
  unfolding insert_node
  AllBelow-insert h b c [] k all = (k, tt)
  AllBelow-insert h b c (d ∷ ds) k (j, all) = elim (Bool-cases (ltb (address c) (address d))) [
    | inl e ↦ rw e (k, (j, all))
    | inr e ↦ elim (Bool-cases (ltb (address d) (address c))) [
      | inl f ↦ rw (e, f) (j, AllBelow-insert h b c ds k all)
      | inr f ↦ rw (e, f) (j, all)
    ]
  ]

  -- So many cards that the children of `i` have fewer than `b` left.
  abbrev pub Room : ℕ → CardSet → ℕ → Type 0
  Room i tefda b = (i ≡ 0 → size tefda < b) × (i ≢ 0 → size tefda ≤ b)

  pub child-few :
      (h : Heap R) (i b : ℕ) (x y : EvalNode R)
      → node_at h i ≡ ok x
      → y.parent ≡ some i
      → Room i x.eval.tefda b
      → (erase y ≡ root_static deck ba kakumei)
        ⊎ ((p : ℕ) × (y.parent ≡ some p) × Fits deck ba kakumei (erased h) (erase y) p)
      → size y.eval.tefda < b
  child-few h i b x y e pe room (inl top) =
      let r : some i ≡ none = sym pe ∙ ap (λ (z : Erased). z.parent) top in cc r
  child-few h i b x y e pe (at_root, elsewhere) (inr (p, pe', fits)) =
      let same : some i ≡ some p = sym pe ∙ pe' in
      let ip : i ≡ p = cc same in
      let q : fits.above ≡ erase x =
        ground (arith, fits.is_above, ap (node_at (erased h)) ip, erased-at h i x e) in
      let cards : fits.above.eval.tefda ≡ x.eval.tefda = ap (λ (z : Erased). z.eval.tefda) q in
      let counted : size fits.above.eval.tefda ≡ size x.eval.tefda = ap size cards in
      elim (ℕ_discrete i 0) [
        | yes z ↦ omega (arith, at_root z, fits.no_more, counted)
        | no ne ↦ omega (arith, elsewhere ne, fits.fewer (λ k. ne (ip ∙ k)), counted)
      ]

  -- A child has few cards left.
  pub child-Below :
      (h : Heap R) (i c b : ℕ) (x y : EvalNode R)
      → Sane h
      → node_at h i ≡ ok x
      → node_at h c ≡ ok y
      → y.parent ≡ some i
      → Room i x.eval.tefda b
      → NodeBelow h b c
  child-Below h i c b x y good e ye pe room =
      let before = good.tree.parent_before c i y ye pe in
      let (v, w, place) = node_ok deck ba kakumei h c y good ye in
      (y, ye, child-few h i b x y e pe room place, λ z. absurd (omega (arith, z, before)))

  -- A child that `createChild` made: its node, and what is kept.
  pub record Born (h : Heap R) (i b c : ℕ) (h' : Heap R) : Type 0 where
    pub good : Sane h'
    pub stays : Grows h h'
    pub child : EvalNode R
    pub at_child : node_at h' c ≡ ok child
    pub hand_valid : IsValid child.eval.hand
    pub below : NodeBelow h' b c
    pub kids : i ≡ 0 → HasKids deck ba kakumei h'

  pub born :
      (h : Heap R) (i b : ℕ) (x : EvalNode R) (eh : EvalHand R) (good : Sane h)
      (e : node_at h i ≡ ok x)
      → Offer deck ba kakumei h i x good e eh
      → Room i x.eval.tefda b
      → (c : ℕ) × (h' : Heap R) × (create_child h i eh ≡ ok (c, h')) × Born h i b c h'
  born h i b x eh good e offer room =
      let (c, h', run, made) = create-Made deck ba kakumei h i x good e eh offer in
      let (x', e', same) = Stays-at deck ba kakumei h h' i x made.stays e in
      let cards = ap (λ (z : Erased). z.eval.tefda) same in
      let (v, w, place) = node_ok deck ba kakumei h' c made.child made.good' made.at_child in
      (
        c,
        h',
        run,
        record {
          good = made.good';
          stays = made.stays;
          child = made.child;
          at_child = made.at_child;
          hand_valid = v;
          below =
              child-Below h' i c b x' made.child made.good' e' made.at_child made.below
                (subst (λ (t : CardSet). Room i t b) (sym cards) room);
          kids = made.kids;
        },
      )

  -- What a loop that makes children leaves.
  abbrev pub NextOk : Heap R → ℕ → Part (List ℕ) → Type 0
  NextOk h b (result none) = ⊥
  NextOk h b (result (some c)) = (y : EvalNode R) × (node_at h c ≡ ok y)
  NextOk h b (go_on next) = AllBelow h b next

  pub record Grew (h : Heap R) (b : ℕ) (part : Part (List ℕ)) (h' : Heap R) : Type 0 where
    pub good : Sane h'
    pub stays : Grows h h'
    pub next_ok : NextOk h' b part

  pub Grew-after :
      (g h h' : Heap R) (b : ℕ) (part : Part (List ℕ))
      → Grows g h
      → Grew h b part h'
      → Grew g b part h'
  Grew-after g h h' b part st grew = record {
    good = grew.good;
    stays = Stays-trans deck ba kakumei g h h' st grew.stays;
    next_ok = grew.next_ok;
  }
