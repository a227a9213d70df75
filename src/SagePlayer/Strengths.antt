-- ===== src/SagePlayer/Strengths.antt =====
-- `_calcPotentialToBeFightback` counts strength by strength, up or down from the play's.
use neof5client.Base.{
  ℕ, zero, suc, ◌+◌, ◌-◌, ◌≤◌, ◌<◌, ◌≡◌, Bool, true, false, if◌then◌else◌, List, [], ◌∷◌, ok, arith,
}
use neof5client.Double.{Double}
use neof5client.SagePlayer.Potential.{Estimate, add_strength, potential_loop}

-- The strengths above `st` up to 13, and those below it down to 1.
abbrev pub strengths_above : ℕ → ℕ → List ℕ
strengths_above zero st = []
strengths_above (suc n) st = (st + 1) ∷ strengths_above n (st + 1)

abbrev pub strengths_below : ℕ → List ℕ
strengths_below zero = []
strengths_below (suc zero) = []
strengths_below (suc (suc st)) = suc st ∷ strengths_below (suc st)

-- The strengths of the cards that beat one of strength `st`, the nearest first.
abbrev pub strengths_beyond : Bool → ℕ → List ℕ
strengths_beyond is_kakumei st =
    if is_kakumei then strengths_below st else strengths_above (13 - st) st

module _ (D : Double) where
  open D use {R, of_ℕ, add, lt, eq}

  abbrev pub add_all : Estimate D → List ℕ → R → R
  add_all e [] result = result
  add_all e (st ∷ sts) result = add_all e sts (add_strength D e st result)

  loop_up :
      (n fuel st : ℕ) (e : Estimate D) (result : R)
      → n < fuel
      → st + n ≡ 13
      → potential_loop D fuel e false st result ≡ ok (add_all e (strengths_above n st) result)
  unfolding potential_loop
  loop_up n zero st e result lt' top = absurd (omega arith)
  loop_up zero (suc fuel) st e result lt' top = ground (arith, top)
  loop_up (suc n) (suc fuel) st e result lt' top =
      let ih =
        loop_up n fuel (st + 1) e (add_strength D e (st + 1) result) (omega arith)
          (omega (arith, top)) in
      ground (arith, top, ih)

  loop_down :
      (fuel st : ℕ) (e : Estimate D) (result : R)
      → st ≤ fuel
      → 1 ≤ st
      → st ≤ 14
      → potential_loop D fuel e true st result ≡ ok (add_all e (strengths_below st) result)
  unfolding potential_loop
  loop_down zero st e result enough some_st small = absurd (omega arith)
  loop_down (suc fuel) zero e result enough some_st small = absurd (omega arith)
  loop_down (suc fuel) (suc zero) e result enough some_st small = ground arith
  loop_down (suc fuel) (suc (suc st)) e result enough some_st small =
      let ih =
        loop_down fuel (suc st) e (add_strength D e (suc st) result) (omega arith) (omega arith)
          (omega arith) in
      let next : suc (suc st) - 1 ≡ suc st = omega arith in ground (arith, ih, next)

  -- With 14 rounds the loop ends and has added every strength beyond `st`.
  pub loop_lem :
      (e : Estimate D) (is_kakumei : Bool) (st : ℕ) (result : R)
      → 1 ≤ st
      → st ≤ 13
      → potential_loop D 14 e is_kakumei st result
        ≡ ok (add_all e (strengths_beyond is_kakumei st) result)
  loop_lem e true st result low high = loop_down 14 st e result (omega arith) low (omega arith)
  loop_lem e false st result low high = loop_up (13 - st) 14 st e result (omega arith) (omega arith)
