-- ===== src/SagePlayer/SortHand.antt =====
-- The body of the loop over the hands of a node: a hand goes on a list, is passed over, or ends
-- the search.
use neof5client.Base.{
  ℕ, ◌+◌, ◌<◌, ◌≤◌, ◌≡◌, ◌≢◌, refl, sym, ap, subst, ◌∙◌, Bool, true, false, ◌&&◌, ◌||◌, ◌==◌, List,
  [], ◌∷◌, ◌++◌, Outcome, ok, arith, length, Option, none, some, inl, inr, Bool-cases, ltb→lt,
}
use neof5client.CardSet.{CardSet, size, has_set, is_empty, remove_set}
use neof5client.CardSet.Members.{IsValid}
use neof5client.CardSet.Contract.{remove_set-IsValid}
use neof5client.CardSet.Fewer.{size-remove_set-lt}
use neof5client.CardSet.Vector.{is_empty-size}
use neof5client.DaifugoRule.{is_ok}
use neof5client.DaifugoRule.Finish.{can_agari_answers}
use neof5client.DaifugoContext.{DaifugoContext}
use neof5client.Double.{Double}
use neof5client.EvalNode.{EvalNode, EvalHand, Heap, node_at, set_node, is_root}
use neof5client.EvalNode.Heap.{node_at-set_self, inside_of_node_at}
use neof5client.EvalNode.Erased.{Erased}
use neof5client.SagePlayer.Estimates.{ExactUpTo64, calc_potential-Estimates}
use neof5client.SagePlayer.Potential.{one_less}
use neof5client.SagePlayer.Search.{
  Sage, Sorted, ends, passed_over, better, poor, sort_hand, is_strong_hand, jikan_ga_nai, time_over,
  put_on_list,
}
use neof5client.SagePlayer.Sound.{
  FirstPlay, Good, Stays, Stays-trans, node_ok, set-Good, set-Stays, Offer, create-Made,
}

module _ (deck ba : CardSet) (kakumei : Bool) where
  -- A hand that the node `i`, with the cards `tefda`, may put.
  abbrev pub GoodHand : ℕ → CardSet → CardSet → Type 0
  GoodHand i tefda hand =
      IsValid hand
      × (has_set tefda hand ≡ true)
      × (is_empty hand ≡ false)
      × (i ≡ 0 → FirstPlay deck ba kakumei hand)

  abbrev pub GoodHands : ℕ → CardSet → List CardSet → Type 0
  GoodHands i tefda [] = Unit {0}
  GoodHands i tefda (hand ∷ hands) = GoodHand i tefda hand × GoodHands i tefda hands

  module _ {R : Type 0} where
    abbrev pub GoodEntry : ℕ → CardSet → EvalHand R → Type 0
    GoodEntry i tefda eh = GoodHand i tefda eh.hand × (eh.tefda ≡ remove_set tefda eh.hand)

    abbrev pub GoodEntries : ℕ → CardSet → List (EvalHand R) → Type 0
    GoodEntries i tefda [] = Unit {0}
    GoodEntries i tefda (eh ∷ ehs) = GoodEntry i tefda eh × GoodEntries i tefda ehs

    pub GoodEntries-end :
        (i : ℕ) (tefda : CardSet) (ehs : List (EvalHand R)) (eh : EvalHand R)
        → GoodEntries i tefda ehs
        → GoodEntry i tefda eh
        → GoodEntries i tefda (ehs ++ eh ∷ [])
    GoodEntries-end i tefda [] eh all g = (g, tt)
    GoodEntries-end i tefda (x ∷ ehs) eh (k, all) g = (k, GoodEntries-end i tefda ehs eh all g)

    pub length-end :
        (ehs : List (EvalHand R)) (eh : EvalHand R) → length (ehs ++ eh ∷ []) ≡ length ehs + 1
    length-end [] eh = refl
    length-end (x ∷ ehs) eh = omega (arith, length-end ehs eh)

    -- An entry is an offer for a child of the node.
    pub GoodEntry-Offer :
        (h : Heap R) (i : ℕ) (x : EvalNode R) (good : Good deck ba kakumei h)
        (at_i : node_at h i ≡ ok x) (eh : EvalHand R)
        → GoodEntry i x.eval.tefda eh
        → Offer deck ba kakumei h i x good at_i eh
    GoodEntry-Offer h i x good at_i eh ((v, part, some_card, first), rest) =
        let (hand_valid, tefda_valid, place) = node_ok deck ba kakumei h i x good at_i in
        let less : size eh.tefda < size x.eval.tefda =
          subst (λ (t : CardSet). size t < size x.eval.tefda) (sym rest)
            (size-remove_set-lt x.eval.tefda eh.hand v part some_card) in
        record {
          hand_valid = v;
          tefda_valid =
              subst IsValid (sym rest) (remove_set-IsValid x.eval.tefda eh.hand tefda_valid v);
          no_more = omega (arith, less);
          fewer = λ ne. less;
          first = first;
        }

-- The limit of time was passed at a reading of the clock, from the reading `first` on.
abbrev pub Late : (ℕ → ℕ) → ℕ → ℕ → Type 0
Late clock first timelimit = (k : ℕ) × (first ≤ k) × (timelimit < clock k)

-- The saved hands are as they were, and the clock was not read backwards.
abbrev pub Kept : {R : Type 0} → Sage R → Sage R → Type 0
Kept s s' = (s'.saved_hands_tree ≡ s.saved_hands_tree) × (s.clock_reads ≤ s'.clock_reads)

pub Kept-refl : {R : Type 0} (s : Sage R) → Kept s s
Kept-refl s = (refl, omega arith)

pub started_still :
    {R : Type 0} (s s' : Sage R) (first : ℕ)
    → Kept s s'
    → first ≤ s.clock_reads
    → first ≤ s'.clock_reads
started_still s s' first (same, le) started = omega (arith, le, started)

pub Kept-trans : {R : Type 0} (r s t : Sage R) → Kept r s → Kept s t → Kept r t
Kept-trans r s t (same, le) (same', le') = (same' ∙ same, omega (arith, le, le'))

module _ (D : Double) (exact : ExactUpTo64 D) (clock address : ℕ → ℕ) (deck ba : CardSet)
    (kakumei : Bool) (first timelimit : ℕ) (ctx : DaifugoContext) where
  open D use {R, of_ℕ, add, sub}

  -- A result of the search: a node, or none because it is late.
  abbrev pub Ended : Heap R → Option ℕ → Type 0
  Ended h none = Late clock first timelimit
  Ended h (some c) = (y : EvalNode R) × (node_at h c ≡ ok y)

  abbrev pub SortedOk : Heap R → ℕ → CardSet → Sorted R → Type 0
  SortedOk h i tefda (ends r) = Ended h r
  SortedOk h i tefda passed_over = i ≢ 0
  SortedOk h i tefda (better eh) = GoodEntry deck ba kakumei i tefda eh
  SortedOk h i tefda (poor eh) = GoodEntry deck ba kakumei i tefda eh

  -- What a step of the search leaves: the invariant, on a heap that only grew, and the
  -- player.
  pub record After (h : Heap R) (s : Sage R) (h' : Heap R) (s' : Sage R) : Type 0 where
    pub good : Good deck ba kakumei h'
    pub stays : Stays deck ba kakumei h h'
    pub kept : Kept s s'

  abbrev pub Sorts : Heap R → Sage R → ℕ → CardSet → Outcome (Sorted R × Heap R × Sage R) → Type 0
  Sorts h s i tefda o =
      (kind : Sorted R) × (h' : Heap R) × (s' : Sage R) × (o ≡ ok (kind, h', s'))
      × After h s h' s'
      × SortedOk h' i tefda kind

  root_is_root :
      (h : Heap R) (i : ℕ) (x : EvalNode R)
      → Good deck ba kakumei h
      → node_at h i ≡ ok x
      → i ≡ 0
      → is_root x ≡ true
  unfolding is_root
  root_is_root h i x good e zero_i =
      let q : good.root ≡ x = ground (arith, good.at_root, e, ap (node_at h) zero_i) in
      let top : x.parent ≡ none =
        ap (λ (w : EvalNode R). w.parent) (sym q) ∙ ap (λ (st : Erased). st.parent) good.is_root in
      rw top refl

  -- Putting a hand on a list, or running out of time.
  put-Sorts :
      (h : Heap R) (s : Sage R) (i : ℕ) (tefda : CardSet) (eh : EvalHand R)
      → GoodEntry deck ba kakumei i tefda eh
      → first ≤ s.clock_reads
      → (kind : Sorted R) × (s' : Sage R) × (put_on_list D clock address timelimit eh h s
          ≡ (kind, h, s'))
        × Kept s s'
        × SortedOk h i tefda kind
  put-Sorts h s i tefda eh entry started =
      let over = time_over D clock address timelimit s in
      elim (Bool-cases over.0) [
        | inl late ↦ (
          ends none,
          record over.1 { tweets = over.1.tweets ++ jikan_ga_nai ∷ [] },
          rw late refl,
          (refl, omega arith),
          (s.clock_reads, started, ltb→lt timelimit (clock s.clock_reads) late),
        )
        | inr early ↦ elim (Bool-cases (is_strong_hand D clock address over.1 eh.p1)) [
          | inl strong ↦ (better eh, over.1, rw (early, strong) refl, (refl, omega arith), entry)
          | inr weak ↦ (poor eh, over.1, rw (early, weak) refl, (refl, omega arith), entry)
        ]
      ]

  pub sort_hand-Sorts :
      (h : Heap R) (s : Sage R) (i : ℕ) (x : EvalNode R) (hand : CardSet)
      → Good deck ba kakumei h
      → node_at h i ≡ ok x
      → GoodHand deck ba kakumei i x.eval.tefda hand
      → first ≤ s.clock_reads
      → Sorts h s i x.eval.tefda (sort_hand D clock address timelimit ctx i hand h s)
  unfolding sort_hand
  sort_hand-Sorts h s i x hand good e (v, part, some_card, opens) started =
      let (c, p1, at_first, estimated, estimate) =
        calc_potential-Estimates D s.hand_potential_max s.not_appears_cards ctx hand x.is_kakumei
          exact v (ground (arith, is_empty-size hand v, some_card)) in
      let eh : EvalHand R = record {
        hand = hand;
        tefda = remove_set x.eval.tefda hand;
        p1 = p1;
        p2 = of_ℕ 0;
      } in
      let y : EvalNode R = record x {
        eval = record x.eval { p2 = add x.eval.p2 (sub p1 (one_less D (size hand))) };
      } in
      let h1 = set_node h i y in
      let good1 = set-Good deck ba kakumei h i x good e y refl refl in
      let stays1 = set-Stays deck ba kakumei h i x good e y refl refl in
      let at1 : node_at h1 i ≡ ok y = node_at-set_self h i y (inside_of_node_at h i x e) in
      let entry : GoodEntry deck ba kakumei i x.eval.tefda eh =
        ((v, part, some_card, opens), refl) in
      let after1 : After h s h1 s = record { good = good1; stays = stays1; kept = Kept-refl s } in
      let (kind, s', put, saved', sorted) = put-Sorts h1 s i x.eval.tefda eh entry started in
      let after2 : After h s h1 s' = record { good = good1; stays = stays1; kept = saved' } in
      let (chk, answers) = can_agari_answers s.rule hand v in
      elim (Bool-cases (
        is_empty eh.tefda
        && (is_root x
            || is_strong_hand D clock address s x.eval.p1
            || (is_strong_hand D clock address s p1 && size hand == size x.eval.hand)))) [
              | inr goes_on ↦
                  (kind, h1, s', ground (arith, e, estimated, goes_on, put), after2, sorted)
              | inl last ↦ elim (Bool-cases (is_ok chk)) [
                | inl out ↦
                    let (c', h2, run, made) =
                      create-Made deck ba kakumei h1 i y good1 at1 eh
                        (GoodEntry-Offer deck ba kakumei h1 i y good1 at1 eh entry) in
                    (
                      ends (some c'),
                      h2,
                      s,
                      ground (arith, e, estimated, last, answers, out, run),
                      record {
                        good = made.good';
                        stays = Stays-trans deck ba kakumei h h1 h2 stays1 made.stays;
                        kept = Kept-refl s;
                      },
                      (made.child, made.at_child),
                    )
                | inr banned ↦ elim (Bool-cases (is_root x)) [
                  | inl top ↦ (
                    kind,
                    h1,
                    s',
                    ground (arith, e, estimated, last, answers, banned, top, put),
                    after2,
                    sorted,
                  )
                  | inr below ↦ (
                    passed_over,
                    h1,
                    s,
                    ground (arith, e, estimated, last, answers, banned, below),
                    after1,
                    λ zero_i. cc (root_is_root h i x good e zero_i, below),
                  )
                ]
              ]
            ]
