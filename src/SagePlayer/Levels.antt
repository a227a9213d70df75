-- ===== src/SagePlayer/Levels.antt =====
-- The levels of the search: each returns and keeps the invariant of the tree, and on the next one
-- every node has fewer cards, so that the search ends.
use neof5client.Base.{
  ℕ, ◌+◌, ◌≤◌, ◌≡◌, ◌≢◌, refl, sym, ap, subst, ◌∙◌, Bool, true, false, not, List, [], ◌∷◌, Outcome,
  ok, arith, length, Option, none, some, ◌⊎◌, inl, inr, Bool-cases, Option-cases, ◌>>=◌, leb,
}
use neof5client.CardSet.{CardSet, has_set, is_empty}
use neof5client.CardSet.Members.{IsValid}
use neof5client.DaifugoRule.{Rule, set_kakumei}
use neof5client.DaifugoRule.Play.{can_put_iff}
use neof5client.DaifugoRule.Legal.{LegalPlay}
use neof5client.DaifugoContext.{DaifugoContext}
use neof5client.Double.{Double}
use neof5client.EvalNode.{EvalNode, EvalHand, Heap, node_at, is_root}
use neof5client.EvalNode.Heap.{node_at-inside, inside_of_node_at}
use neof5client.EvalNode.Walk.{get_heir_of_root_lem}
use neof5client.EvalNode.Erased.{Erased, erase}
use neof5client.EvalNode.Tree.{IsChild}
use neof5client.SagePlayer.Enumerate.{AllPlays}
use neof5client.SagePlayer.Estimates.{ExactUpTo64}
use neof5client.SagePlayer.Search.{Sage, Part, result, go_on, looks_ahead}
use neof5client.SagePlayer.Level.{better_loop, expand_root}
use neof5client.SagePlayer.Sound.{
  Good, Stays, Stays-refl, Stays-trans, Stays-at, node_ok, HasKids, root_static,
}
use neof5client.SagePlayer.SortHand.{Ended, GoodHands, GoodEntries}
use neof5client.SagePlayer.Born.{AllBelow, Room, Grew, NextOk, Part-cases, is_empty-empty}
use neof5client.SagePlayer.Children.{better_loop-Grew}
use neof5client.SagePlayer.Roots.{expand_root-Grew}

module _ (D : Double) (exact : ExactUpTo64 D) (clock address : ℕ → ℕ) (ba : CardSet)
    (ba_valid : IsValid ba) (first timelimit : ℕ) (ctx : DaifugoContext) where
  open D use {R}

  abbrev deck : CardSet
  deck = ctx.deck

  abbrev Sane : Heap R → Type 0
  Sane h = Good ctx.deck ba ctx.is_kakumei h

  abbrev Grows : Heap R → Heap R → Type 0
  Grows h h' = Stays ctx.deck ba ctx.is_kakumei h h'

  abbrev Kids : Heap R → Type 0
  Kids h = HasKids ctx.deck ba ctx.is_kakumei h

  abbrev pub Done : Heap R → Option ℕ → Type 0
  Done h r = Ended D exact clock address ctx.deck ba ctx.is_kakumei first timelimit ctx h r

  abbrev Few : Heap R → ℕ → List ℕ → Type 0
  Few h b cs = AllBelow D clock address ctx.deck ba ctx.is_kakumei h b cs

  -- The root has the hand of the turn.
  root_as :
      (h : Heap R) (i : ℕ) (x : EvalNode R)
      → Sane h
      → node_at h i ≡ ok x
      → i ≡ 0
      → erase x ≡ root_static ctx.deck ba ctx.is_kakumei
  root_as h i x good e z =
      let q : good.root ≡ x = ground (arith, good.at_root, e, ap (node_at h) z) in
      ap erase (sym q) ∙ good.is_root

  is_root-zero :
      (h : Heap R) (i : ℕ) (x : EvalNode R)
      → Sane h
      → node_at h i ≡ ok x
      → (is_root x ≡ true → i ≡ 0) × (i ≡ 0 → is_root x ≡ true)
  unfolding is_root
  is_root-zero h i x good e = (
    λ top. elim (Option-cases x.parent) [
      | inl p ↦ good.tree.only_root i x e p
      | inr (q, p) ↦ absurd (ground (arith, top, p))
    ],
    λ z. rw (ap (λ (st : Erased). st.parent) (root_as h i x good e z)) refl,
  )

  -- The plays that are enumerated for a node are hands that it may put.
  pub plays-GoodHands :
      (rule : Rule) (h : Heap R) (i : ℕ) (x : EvalNode R) (ba_cards : CardSet)
      (v : IsValid ba_cards) (hands : List CardSet)
      → Sane h
      → node_at h i ≡ ok x
      → (i ≡ 0 → ba_cards ≡ ba)
      → AllPlays (set_kakumei rule x.is_kakumei) x.eval.tefda ba_cards v hands
      → GoodHands ctx.deck ba ctx.is_kakumei i x.eval.tefda hands
  unfolding set_kakumei
  plays-GoodHands rule h i x ba_cards v [] good e table all = tt
  plays-GoodHands rule h i x ba_cards v (hand ∷ hands) good e table
        ((w, part, answers, some_card), all) =
      let legal : LegalPlay x.is_kakumei hand ba_cards =
        (can_put_iff (set_kakumei rule x.is_kakumei) hand ba_cards w v).0 answers in
      (
        (
          w,
          part,
          some_card,
          λ z.
              let st = root_as h i x good e z in
              (
                ap (λ (a : Erased). has_set a.eval.tefda hand) (sym st) ∙ part,
                subst (λ (b : CardSet). LegalPlay ctx.is_kakumei hand b) (table z)
                    (subst (λ (a : Erased). LegalPlay a.is_kakumei hand ba_cards) st legal),
              ),
        ),
        plays-GoodHands rule h i x ba_cards v hands good e table all,
      )

  looks_ahead-answers :
      (h : Heap R) (i : ℕ) (x : EvalNode R)
      → Sane h
      → node_at h i ≡ ok x
      → (f : Bool) × (looks_ahead D clock address h i x ≡ ok f) × (i ≡ 0 → f ≡ true)
  unfolding looks_ahead
  looks_ahead-answers h i x good e = elim (Option-cases x.parent) [
    | inl top ↦ (true, rw top refl, λ z. refl)
    | inr (p, pe) ↦
        let before = good.tree.parent_before i p x e pe in
        let (y, ye) = node_at-inside h p (omega (arith, before, inside_of_node_at h i x e)) in
        let not_root : i ≢ 0 = λ z. absurd (omega (arith, z, before)) in
        elim (Bool-cases (is_root y)) [
          | inl below_root ↦ (true, ground (arith, pe, ye, below_root), λ z. refl)
          | inr deeper ↦
              let (c, heir, place) =
                get_heir_of_root_lem h good.tree (length h) i x e (inside_of_node_at h i x e) in
              let (z, ze) = heir_node h i c x good e place in
              (
                not (is_empty z.eval.hand),
                ground (arith, pe, ye, deeper, heir, ze),
                λ k. absurd (not_root k),
              )
        ]
  ]
    where
      heir_node :
          (h : Heap R) (i c : ℕ) (x : EvalNode R)
          → Sane h
          → node_at h i ≡ ok x
          → ((c ≡ 0) × (i ≡ 0)) ⊎ IsChild h 0 c
          → (z : EvalNode R) × (node_at h c ≡ ok z)
      heir_node h i c x good e (inl (c0, i0)) = (x, ap (node_at h) (c0 ∙ sym i0) ∙ e)
      heir_node h i c x good e (inr (z, ze, pe)) = (z, ze)

  -- What the work on a node, or on a level with it, leaves: a result, or the nodes of the next
  -- level, and if it was the root, then that has a child.
  abbrev pub Goes : Heap R → ℕ → ℕ → Part (List ℕ) → Type 0
  Goes h b i (result r) = Done h r
  Goes h b i (go_on next) = Few h b next × (i ≡ 0 → Kids h)

  pub record Worked (h : Heap R) (b i : ℕ) (part : Part (List ℕ)) (h' : Heap R) : Type 0 where
    pub good : Sane h'
    pub stays : Grows h h'
    pub goes : Goes h' b i part

  result-Goes :
      (h : Heap R) (b i : ℕ) (part : Part (List ℕ)) (r : Option ℕ)
      → part ≡ result r
      → NextOk D clock address ctx.deck ba ctx.is_kakumei h b part
      → Done h r
  result-Goes h b i part none is next_ok =
      absurd (subst (NextOk D clock address ctx.deck ba ctx.is_kakumei h b) is next_ok)
  result-Goes h b i part (some c) is next_ok =
      subst (NextOk D clock address ctx.deck ba ctx.is_kakumei h b) is next_ok

  -- The children of the node, once its hands are sorted.
  module _ (s2 : Sage R) (h2 : Heap R) (i b : ℕ) (y : EvalNode R) (tefda ba_cards : CardSet)
      (betters poors : List (EvalHand R)) (next : List ℕ) (good : Sane h2) (e : node_at h2 i ≡ ok y)
      (cards : y.eval.tefda ≡ tefda) (bs : GoodEntries ctx.deck ba ctx.is_kakumei i tefda betters)
      (ps : GoodEntries ctx.deck ba ctx.is_kakumei i tefda poors)
      (entries : i ≡ 0 → 1 ≤ length betters + length poors)
      (room : Room D clock address ctx.deck ba ctx.is_kakumei i tefda b) (all : Few h2 b next) where
    -- The better hands are tried, or not.
    abbrev Tried : Outcome (Part (List ℕ) × Heap R) → Type 0
    Tried o =
        (part : Part (List ℕ)) × (h3 : Heap R) × (o ≡ ok (part, h3))
        × Grew D clock address ctx.deck ba ctx.is_kakumei h2 b part h3
        × (i ≡ 0 → 1 ≤ length betters → Kids h3)

    try_betters :
        (f : Bool)
        → (i ≡ 0 → f ≡ true)
        → Tried (elim f [
          | true ↦ better_loop D clock address s2 i y betters poors next h2
          | false ↦ ok (go_on next, h2)
        ])
    try_betters true at_root =
        let (v, w, place) = node_ok ctx.deck ba ctx.is_kakumei h2 i y good e in
        better_loop-Grew D clock address ctx.deck ba ctx.is_kakumei s2 h2 i b y y tefda betters
          poors next good e cards v
          (λ z.
            ap (λ (a : Erased). is_empty a.eval.hand) (root_as h2 i y good e z) ∙ is_empty-empty)
          bs ps room all
    try_betters false at_root = (
      go_on next,
      h2,
      refl,
      record { good = good; stays = Stays-refl ctx.deck ba ctx.is_kakumei h2; next_ok = all },
      λ z some_entry. let r : false ≡ true = at_root z in cc r,
    )

    abbrev children : Outcome (Part (List ℕ) × Heap R × Sage R)
    children = do
      ahead ← looks_ahead D clock address h2 i y
      tried ← elim ahead [
        | true ↦ better_loop D clock address s2 i y betters poors next h2
        | false ↦ ok (go_on next, h2)
      ]
      let (part3, h3) = tried
      elim part3 [
        | result r ↦ ok (result r, h3, s2)
        | go_on next3 ↦ do
          expanded ← expand_root D clock address i y ba_cards poors next3 h3
          ok (expanded.0, expanded.1, s2)
      ]

    pub children-Worked :
        (part : Part (List ℕ)) × (h' : Heap R) × (children ≡ ok (part, h', s2))
        × Worked h2 b i part h'
    children-Worked =
        let (f, ahead, at_root) = looks_ahead-answers h2 i y good e in
        let (part3, h3, run3, grew3, kids3) = try_betters f at_root in
        elim (Part-cases part3) [
          | inl (r, is) ↦ (
            result r,
            h3,
            ground (arith, ahead, run3, is),
            record {
              good = grew3.good;
              stays = grew3.stays;
              goes = result-Goes h3 b i part3 r is grew3.next_ok;
            },
          )
          | inr (next3, is) ↦
              let (y3, e3, same) = Stays-at ctx.deck ba ctx.is_kakumei h2 h3 i y grew3.stays e in
              let all3 =
                subst (NextOk D clock address ctx.deck ba ctx.is_kakumei h3 b) is grew3.next_ok in
              let (zero_of, top_of) = is_root-zero h2 i y good e in
              let (part, h', run, grew, kids) =
                expand_root-Grew D clock address ctx.deck ba ctx.is_kakumei h3 i b y y3 tefda
                  ba_cards poors next3 grew3.good e3 cards
                  (ap (λ (z : Erased). z.eval.tefda) same ∙ cards) zero_of top_of ps room all3 in
              (
                part,
                h',
                ground (arith, ahead, run3, is, run),
                record {
                  good = grew.good;
                  stays = Stays-trans ctx.deck ba ctx.is_kakumei h2 h3 h' grew3.stays grew.stays;
                  goes =
                      expanded-Goes h' part (Part-cases part) grew.next_ok
                        (λ z. has_kids h' z (λ one. grew.stays.kids (kids3 z one)) (kids z));
                },
              )
        ]
      where
        has_kids :
            (h' : Heap R)
            → i ≡ 0
            → (1 ≤ length betters → Kids h')
            → (1 ≤ length poors → Kids h')
            → Kids h'
        has_kids h' z of_better of_poor = elim (Bool-cases (leb 1 (length betters))) [
          | inl one ↦ of_better (ground (arith, one))
          | inr none_better ↦ of_poor (ground (arith, entries z, none_better))
        ]

        expanded-Goes :
            (h' : Heap R) (part : Part (List ℕ))
            → ((r : Option ℕ) × (part ≡ result r)) ⊎ ((a : List ℕ) × (part ≡ go_on a))
            → NextOk D clock address ctx.deck ba ctx.is_kakumei h' b part
            → (i ≡ 0 → Kids h')
            → Goes h' b i part
        expanded-Goes h' part (inl (r, is)) next_ok kids =
            subst (Goes h' b i) (sym is) (result-Goes h' b i part r is next_ok)
        expanded-Goes h' part (inr (a, is)) next_ok kids =
            subst (Goes h' b i) (sym is)
              (subst (NextOk D clock address ctx.deck ba ctx.is_kakumei h' b) is next_ok, kids)
