-- ===== src/SagePlayer/Search.antt =====
-- `SagePlayer::_think_recursive`: the search over the tree, level by level. The clock and the
-- addresses of the nodes, by which a `std::set<EvalNode*>` is ordered, are parameters.
use neof5client.Base.{
  ℕ, ◌+◌, Bool, true, false, not, ◌&&◌, ◌||◌, ltb, leb, ◌==◌, if◌then◌else◌, List, [], ◌∷◌, ◌++◌,
  Option, none, some, Outcome, ok, ◌>>=◌, length,
}
use neof5client.Card.{get_strength}
use neof5client.CardSet.{CardSet, size, at, is_empty, remove_set}
use neof5client.DaifugoRule.{Rule, can_agari, is_ok}
use neof5client.DaifugoContext.{DaifugoContext}
use neof5client.Double.{Double}
use neof5client.EvalNode.{
  EvalHand, EvalNode, Heap, node_at, set_node, is_root, get_heir_of_root, create_child,
}
use neof5client.SagePlayer.Potential.{one_less, calc_potential_to_be_fightback}

-- What the player says.
pub data Tweet : Type 0 where
  mazui_nou hore washi_no_kachi_ja hoho mumuu jikan_ga_nai : Tweet

-- The members of the player, with what was tweeted, and how often the clock was read and a random
-- number drawn.
pub record Sage (R : Type 0) : Type 0 where
  pub saved_hands_tree : List CardSet
  pub hand_potential_max : R
  pub not_appears_cards : CardSet
  pub rule : Rule
  pub tweets : List Tweet
  pub clock_reads : ℕ
  pub draws : ℕ

-- What becomes of one hand: the search ends, the hand is passed over, or it goes on a list.
pub data Sorted (R : Type 0) : Type 0 where
  ends : Option ℕ → Sorted R
  passed_over : Sorted R
  better poor : EvalHand R → Sorted R

-- A part of the search: it ends with a result, or goes on with a value.
pub data Part (A : Type 0) : Type 0 where
  result : Option ℕ → Part A
  go_on : A → Part A

module _ (D : Double) (clock : ℕ → ℕ) (address : ℕ → ℕ) where
  open D use {R, of_ℕ, literal, add, sub, lt}

  -- `nodes.insert(node)`.
  unfoldable pub insert_node : ℕ → List ℕ → List ℕ
  insert_node c [] = c ∷ []
  insert_node c (d ∷ ds) =
      if ltb (address c) (address d)
      then c ∷ d ∷ ds
      else if ltb (address d) (address c)
      then d ∷ insert_node c ds
      else d ∷ ds

  -- `IS_STRONG_HAND`.
  abbrev pub is_strong_hand : Sage R → R → Bool
  is_strong_hand s p1 = lt p1 (add s.hand_potential_max (literal 5 10))

  -- `time(NULL) > timelimit`.
  abbrev pub time_over : ℕ → Sage R → Bool × Sage R
  time_over timelimit s =
      (ltb timelimit (clock s.clock_reads), record s { clock_reads = s.clock_reads + 1 })

  -- The end of the body of the loop over the hands: the limit of time, and the two lists.
  abbrev pub put_on_list : ℕ → EvalHand R → Heap R → Sage R → Sorted R × Heap R × Sage R
  put_on_list timelimit eh h s =
      let (over, s') = time_over timelimit s in
      if over
      then (ends none, h, record s' { tweets = s'.tweets ++ jikan_ga_nai ∷ [] })
      else (if is_strong_hand s' eh.p1 then better eh else poor eh, h, s')

  -- The body of the loop over the hands of the node `i`.
  unfoldable pub sort_hand :
      ℕ → DaifugoContext → ℕ → CardSet → Heap R → Sage R → Outcome (Sorted R × Heap R × Sage R)
  sort_hand timelimit ctx i hand h s = do
    x ← node_at h i
    p1 ←
        calc_potential_to_be_fightback D s.hand_potential_max s.not_appears_cards ctx hand
          x.is_kakumei
    let eh : EvalHand R = record {
      hand = hand;
      tefda = remove_set x.eval.tefda hand;
      p1 = p1;
      p2 = of_ℕ 0;
    }
    let p2 = add x.eval.p2 (sub p1 (one_less D (size hand)))
    let h' = set_node h i (record x { eval = record x.eval { p2 = p2 } })
    let last =
        is_empty eh.tefda
        && (is_root x
            || is_strong_hand s x.eval.p1
            || (is_strong_hand s p1 && size hand == size x.eval.hand))
    elim last [
      | false ↦ ok (put_on_list timelimit eh h' s)
      | true ↦ do
        agari ← can_agari s.rule hand
        elim (is_ok agari) [
          | true ↦ do made ← create_child h' i eh; ok (ends (some made.0), made.1, s)
          | false ↦ ok (if is_root x then put_on_list timelimit eh h' s else (passed_over, h', s))
        ]
    ]

  abbrev pub Lists : Type 0
  Lists = List (EvalHand R) × List (EvalHand R)

  -- The loop over the hands: the better and the poor ones, each in order.
  unfoldable pub sort_hands :
      ℕ
      → DaifugoContext
      → ℕ
      → List CardSet
      → Lists
      → Heap R
      → Sage R
      → Outcome (Part Lists × Heap R × Sage R)
  unfolding sort_hand
  sort_hands timelimit ctx i [] lists h s = ok (go_on lists, h, s)
  sort_hands timelimit ctx i (hand ∷ hands) (betters, poors) h s = do
    sorted ← sort_hand timelimit ctx i hand h s
    let (kind, h', s') = sorted
    elim kind [
      | ends r ↦ ok (result r, h', s')
      | passed_over ↦ sort_hands timelimit ctx i hands (betters, poors) h' s'
      | better eh ↦ sort_hands timelimit ctx i hands (betters ++ eh ∷ [], poors) h' s'
      | poor eh ↦ sort_hands timelimit ctx i hands (betters, poors ++ eh ∷ []) h' s'
    ]

  -- The condition under which the better hands are tried.
  unfoldable pub looks_ahead : Heap R → ℕ → EvalNode R → Outcome Bool
  looks_ahead h i x = elim x.parent [
    | none ↦ ok true
    | some p ↦ do
      y ← node_at h p
      elim (is_root y) [
        | true ↦ ok true
        | false ↦ do
          heir ← get_heir_of_root (length h) h i
          z ← node_at h heir
          ok (not (is_empty z.eval.hand))
      ]
  ]

  -- May the hand be put after a node that does not clear the table?
  unfoldable pub can_follow : Sage R → EvalNode R → CardSet → Outcome Bool
  can_follow s x hand = elim (not (is_empty x.eval.hand) && not (is_strong_hand s x.eval.p1)) [
    | false ↦ ok true
    | true ↦ elim (size x.eval.hand == size hand) [
      | false ↦ ok false
      | true ↦ do
        a ← at x.eval.hand 0
        b ← at hand 0
        ok (
            if x.is_kakumei
            then leb (get_strength a) (get_strength b + 2)
            else leb (get_strength a + 2) (get_strength b))
    ]
  ]
