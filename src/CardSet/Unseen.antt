-- ===== src/CardSet/Unseen.antt =====
-- A client of the contract of `CardSet`: the cards that are in none of some sets.
use neof5client.Base.{ℕ, ◌≡◌, Bool, false, not, ◌&&◌, ◌||◌, ltb, List, [], ◌∷◌, arith}
use neof5client.CardSet.Class.{CardSetClass, IsSets}

module _ (K : CardSetClass) (Valid : K.S → Type 0) (holds : K.S → ℕ → Bool)
    (law : IsSets K Valid holds) where
  abbrev pub AllValid : List K.S → Type 0
  AllValid [] = Unit {0}
  AllValid (t ∷ ts) = Valid t × AllValid ts

  -- `s` and then each of the sets, added up.
  abbrev pub added : K.S → List K.S → K.S
  added s [] = s
  added s (t ∷ ts) = added (K.add_set s t) ts

  -- The card with the id `i` is in one of the sets.
  abbrev pub in_some : List K.S → ℕ → Bool
  in_some [] i = false
  in_some (t ∷ ts) i = holds t i || in_some ts i

  added_valid : (s : K.S) (ts : List K.S) → Valid s → AllValid ts → Valid (added s ts)
  added_valid s [] v all = v
  added_valid s (t ∷ ts) v (w, all) = added_valid (K.add_set s t) ts (law.add_set_valid s t v w) all

  added_holds :
      (s : K.S) (ts : List K.S) (i : ℕ) → holds (added s ts) i ≡ (holds s i || in_some ts i)
  added_holds s [] i = ground arith
  added_holds s (t ∷ ts) i =
      ground (arith, added_holds (K.add_set s t) ts i, law.add_set_holds s t i)

  -- What is left of all cards has exactly the cards that are in none of the sets.
  pub unseen_lem :
      (s : K.S) (ts : List K.S) (i : ℕ)
      → Valid s
      → AllValid ts
      → holds (K.remove_set K.all_cards (added s ts)) i
        ≡ (ltb i 53 && not (holds s i || in_some ts i))
  unseen_lem s ts i v all = ground (
    arith,
    law.remove_set_holds K.all_cards (added s ts) i law.all_valid (added_valid s ts v all),
    law.all_holds i,
    added_holds s ts i,
  )
