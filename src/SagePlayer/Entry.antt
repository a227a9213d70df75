-- ===== src/SagePlayer/Entry.antt =====
-- `SagePlayer::think` and `think2`. The random numbers are a parameter.
use neof5client.Base.{
  ℕ, ◌+◌, ◌-◌, ◌%◌, Bool, true, false, ltb, ◌==◌, if◌then◌else◌, List, [], ◌∷◌, ◌++◌, none, some,
  Outcome, ok, ◌>>=◌, length,
}
use neof5client.CardSet.{
  CardSet, empty_set, all_cards, size, is_empty, has_set, remove_set, add_set,
}
use neof5client.DaifugoRule.{set_kakumei, can_put, is_ok}
use neof5client.DaifugoContext.{DaifugoContext, ba_last, last_of, get_num_of_available_players}
use neof5client.Double.{Double}
use neof5client.EvalNode.{
  Heap, new_node, node_at, get_heir_of_root, save_hands_tree, find_best_param_child, get_child_at,
  num_of_children,
}
use neof5client.SagePlayer.Search.{Sage, Tweet, mazui_nou, hore, washi_no_kachi_ja, hoho, mumuu}
use neof5client.SagePlayer.Level.{no_elements, think_recursive}

-- `pop_back()`.
abbrev pub drop_last : List CardSet → List CardSet
drop_last [] = []
drop_last (s ∷ []) = []
drop_last (s ∷ t ∷ ts) = s ∷ drop_last (t ∷ ts)

abbrev add_sets : CardSet → List CardSet → CardSet
add_sets s [] = s
add_sets s (t ∷ ts) = add_sets (add_set s t) ts

-- The cards that the player has seen.
unfoldable pub appears_cards : DaifugoContext → CardSet
appears_cards ctx = add_sets (add_set ctx.yama ctx.deck) ctx.ba

-- `_notappears_cards`.
unfoldable pub not_appears_cards : DaifugoContext → CardSet
unfolding appears_cards
not_appears_cards ctx = remove_set all_cards (appears_cards ctx)

abbrev pub think_time_limit : ℕ
think_time_limit = 18

module _ (D : Double) (clock : ℕ → ℕ) (address : ℕ → ℕ) (random : ℕ → ℕ) where
  open D use {R, of_ℕ, literal, neg, sub, div}

  -- `getRand(max)`.
  abbrev get_rand : ℕ → Sage R → ℕ × Sage R
  get_rand max s = (random s.draws % max, record s { draws = s.draws + 1 })

  -- `getRand(max) == hit`.
  abbrev draw : ℕ → ℕ → Sage R → Bool × Sage R
  draw max hit s = let (n, s') = get_rand max s in (n == hit, s')

  -- `if (getRand(max) == hit) _tweetFunc(text)`.
  abbrev pub tweet_by_chance : ℕ → ℕ → Tweet → Sage R → Sage R
  tweet_by_chance max hit text s =
      let (drawn, s') = draw max hit s in
      if drawn then record s' { tweets = s'.tweets ++ text ∷ [] } else s'

  -- HAND_POTENTIAL_MAX.
  abbrev potential_start : R
  potential_start = neg (literal 121 100)

  -- `hand_potential_max` for the number of cards that appeared.
  abbrev pub potential_max : ℕ → R
  potential_max count = sub potential_start (
      if ltb count 8
      then of_ℕ 8
      else if ltb count 30
      then sub (of_ℕ 7) (div (of_ℕ count) (literal 48 10))
      else of_ℕ 0)

  -- The hand of the node below the root.
  unfoldable pub hand_of_heir : Heap R → ℕ → Outcome CardSet
  hand_of_heir h i = do heir ← get_heir_of_root (length h) h i; x ← node_at h heir; ok x.eval.hand

  -- What `think2` does with a node that the search found.
  unfoldable pub play_found : Heap R → ℕ → Sage R → Outcome (CardSet × Sage R)
  unfolding hand_of_heir
  play_found h i s = do
    hands ← save_hands_tree (length h + 1) h i []
    let saved = record s { saved_hands_tree = drop_last hands }
    hh ← hand_of_heir h i
    let (win, s1) = draw 3 1 saved
    ok (
      hh,
      if is_empty hh
          then saved
          else if win
          then record s1 { tweets = s1.tweets ++ washi_no_kachi_ja ∷ [] }
          else tweet_by_chance 4 1 hoho s1,
    )

  -- What `think2` does when the search found nothing.
  unfoldable pub play_best : Heap R → Sage R → Outcome (CardSet × Sage R)
  unfolding hand_of_heir
  play_best h s = do
    best ← find_best_param_child D (length h) h 0
    root ← node_at h 0
    i ← elim best [ none ↦ get_child_at root (num_of_children root - 1) | some (c, p2) ↦ ok c ]
    hh ← hand_of_heir h i
    ok (hh, if is_empty hh then tweet_by_chance 12 5 mumuu s else s)

  -- `think2`. A level has a card less than the one above, but for the pass below the root: 56
  -- levels are more than there can be.
  unfoldable pub think2 : DaifugoContext → CardSet → Sage R → Outcome (CardSet × Sage R)
  unfolding play_found play_best not_appears_cards
  think2 ctx ba s = do
    let timelimit = clock s.clock_reads + think_time_limit
    let appears = appears_cards ctx
    let s1 = record s {
      clock_reads = s.clock_reads + 1;
      not_appears_cards = not_appears_cards ctx;
      hand_potential_max = potential_max (size appears);
    }
    searched ←
        think_recursive D clock address 56 timelimit ctx ba (0 ∷ [])
          (new_node (of_ℕ 0) ctx.deck ctx.is_kakumei ∷ []) s1
    let (found, h, s2) = searched
    elim found [ some i ↦ play_found h i s2 | none ↦ play_best h s2 ]

  -- What `think` says first: a random number is drawn only if two players are left.
  unfoldable pub greet : DaifugoContext → Sage R → Sage R
  greet ctx s = if get_num_of_available_players ctx == 2 then tweet_by_chance 8 1 mazui_nou s else s

  -- `think`.
  unfoldable pub think : DaifugoContext → Sage R → Outcome (CardSet × Sage R)
  unfolding think2 greet
  think ctx s = do
    let ba = ba_last ctx
    let s1 = greet ctx s
    elim (no_elements s1.saved_hands_tree) [
      | true ↦ think2 ctx ba s1
      | false ↦ do
        let hand = last_of empty_set s1.saved_hands_tree
        let s2 = record s1 { rule = set_kakumei s1.rule ctx.is_kakumei }
        let anew = think2 ctx ba (record s2 { saved_hands_tree = [] })
        elim (has_set ctx.deck hand) [
          | false ↦ anew
          | true ↦ do
            chk ← can_put s2.rule hand ba
            elim (is_ok chk) [
              | false ↦ anew
              | true ↦
                  let s3 = record s2 { saved_hands_tree = drop_last s2.saved_hands_tree } in
                  ok (hand, tweet_by_chance 9 1 hore s3)
            ]
        ]
    ]
