-- ===== src/SagePlayer/Played.antt =====
-- What `think2` does with the end of the search: the hand that it plays may be put first.
use neof5client.Base.{
  ℕ, ◌+◌, ◌≡◌, refl, sym, subst, ◌∙◌, Bool, List, [], ◌∷◌, ◌++◌, ◌==◌, ◌%◌, Outcome, ok, undefined,
  arith, length, Option, none, some, Option-cases, ◌⊎◌, inl, inr, Bool-cases, if◌then◌else◌,
}
use neof5client.CardSet.{CardSet, is_empty}
use neof5client.DaifugoContext.Text.{AllValid}
use neof5client.Double.{Double}
use neof5client.EvalNode.{
  EvalNode, Heap, node_at, num_of_children, get_child_at, find_best_param_child,
}
use neof5client.EvalNode.Best.{Judged, find_best_param_child-Judged}
use neof5client.SagePlayer.Search.{Tweet, Sage, washi_no_kachi_ja, hoho, mumuu}
use neof5client.SagePlayer.Sound.{Good, FirstPlay, HasKids}
use neof5client.SagePlayer.Entry.{play_found, play_best, drop_last, tweet_by_chance}
use neof5client.SagePlayer.Heir.{hand_of_heir-FirstPlay, last_child, root_list, saves-AllValid}

pub drop_last-AllValid : (ss : List CardSet) → AllValid ss → AllValid (drop_last ss)
drop_last-AllValid [] all = refl
drop_last-AllValid (s ∷ []) all = refl
drop_last-AllValid (s ∷ t ∷ ts) (v, all) = (v, drop_last-AllValid (t ∷ ts) all)

module _ (D : Double) (clock address random : ℕ → ℕ) (deck ba : CardSet) (kakumei : Bool) where
  open D use {R}

  module _ (h : Heap R) (good : Good deck ba kakumei h) where
    -- A hand that may be put first is the answer, and the saved hands are of the 53 cards.
    abbrev Answers : Outcome (CardSet × Sage R) → Type 0
    Answers o =
        (hand : CardSet) × (s' : Sage R) × (o ≡ ok (hand, s'))
        × FirstPlay deck ba kakumei hand
        × AllValid s'.saved_hands_tree

    -- What the player is left with, and has said.
    abbrev said_best : Sage R → CardSet → Sage R
    said_best s hand =
        if is_empty hand then tweet_by_chance D clock address random 12 5 mumuu s else s

    abbrev said_found : Sage R → List CardSet → CardSet → Sage R
    said_found s hands hand =
        let saved : Sage R = record s { saved_hands_tree = drop_last hands } in
        let s1 : Sage R = record saved { draws = s.draws + 1 } in
        if is_empty hand
        then saved
        else if random s.draws % 3 == 1
        then record s1 { tweets = s1.tweets ++ washi_no_kachi_ja ∷ [] }
        else tweet_by_chance D clock address random 4 1 hoho s1

    chance-keeps :
        (max hit : ℕ) (text : Tweet) (s : Sage R)
        → AllValid s.saved_hands_tree
        → AllValid (tweet_by_chance D clock address random max hit text s).saved_hands_tree
    chance-keeps max hit text s all = elim (Bool-cases (random s.draws % max == hit)) [
      | inl e ↦ rw e all
      | inr e ↦ rw e all
    ]

    said_best-AllValid :
        (s : Sage R) (hand : CardSet)
        → AllValid s.saved_hands_tree
        → AllValid (said_best s hand).saved_hands_tree
    said_best-AllValid s hand all = elim (Bool-cases (is_empty hand)) [
      | inl e ↦ rw e (chance-keeps 12 5 mumuu s all)
      | inr e ↦ rw e all
    ]

    said_found-AllValid :
        (s : Sage R) (hands : List CardSet) (hand : CardSet)
        → AllValid hands
        → AllValid (said_found s hands hand).saved_hands_tree
    said_found-AllValid s hands hand all =
        let rest = drop_last-AllValid hands all in
        elim (Bool-cases (is_empty hand)) [
          | inl e ↦ rw e rest
          | inr e ↦ elim (Bool-cases (random s.draws % 3 == 1)) [
            | inl f ↦ rw (e, f) rest
            | inr f ↦
                rw (e, f)
                  (chance-keeps 4 1 hoho
                    (record s { saved_hands_tree = drop_last hands; draws = s.draws + 1 }) rest)
          ]
        ]

    pub play_found-Answers :
        (s : Sage R) (i : ℕ) (x : EvalNode R)
        → node_at h i ≡ ok x
        → Answers (play_found D clock address random h i s)
    unfolding play_found
    play_found-Answers s i x e =
        let (hands, saves, all) =
          saves-AllValid D clock address random deck ba kakumei h good i x e in
        let (hand, run, first) =
          hand_of_heir-FirstPlay D clock address random deck ba kakumei h good i x e in
        (
          hand,
          said_found s hands hand,
          rw (saves, run) refl,
          first,
          said_found-AllValid s hands hand all,
        )

    pub play_best-Answers :
        (s : Sage R)
        → AllValid s.saved_hands_tree
        → Answers (play_best D clock address random h s)
          ⊎ ((play_best D clock address random h s ≡ undefined) × ¬ HasKids deck ba kakumei h)
    unfolding play_best get_child_at num_of_children
    play_best-Answers s kept =
        let (best, finds, judged, rest) =
          find_best_param_child-Judged D h good.tree (length h) 0 good.root good.at_root
            (omega arith) in
        let at_root = good.at_root in
        elim (Option-cases best) [
          | inr (b, is) ↦
              let (lt, (y, ye, same), nz) = subst (Judged D h good.tree 0) is judged in
              let (hand, run, first) =
                hand_of_heir-FirstPlay D clock address random deck ba kakumei h good b.0 y ye in
              inl (
                hand,
                said_best s hand,
                rw (finds, is, at_root, run) refl,
                first,
                said_best-AllValid s hand kept,
              )
          | inl is ↦ elim (Option-cases good.root.children) [
            | inl no_list ↦ inr (
              rw (finds, is, at_root, no_list) refl,
              λ kids.
                  let (c, cs, list) =
                    root_list D clock address random deck ba kakumei h good kids in
                  let bad : none ≡ some (c ∷ cs) = sym no_list ∙ list in cc bad,
            )
            | inr (cs, list) ↦ inl (last_answers cs best list finds is)
          ]
        ]
      where
        last_answers :
            (cs : List ℕ) (best : Option (ℕ × R))
            → good.root.children ≡ some cs
            → find_best_param_child D (length h) h 0 ≡ ok best
            → best ≡ none
            → Answers (play_best D clock address random h s)
        last_answers [] best list finds is = absurd (good.no_empty_list list)
        last_answers (c ∷ cs) best list finds is =
            let at_root = good.at_root in
            let (d, run, m) =
              last_child D clock address random deck ba kakumei h good good.root c cs list in
            let (y, ye, pe) = good.tree.children_below 0 d good.root at_root m in
            let (hand, heir, first) =
              hand_of_heir-FirstPlay D clock address random deck ba kakumei h good d y ye in
            (
              hand,
              said_best s hand,
              rw (finds, is, at_root, run, heir) refl,
              first,
              said_best-AllValid s hand kept,
            )
