-- ===== src/Base/Bits/Step.antt =====
-- One equation for the lowest digit of `|` and `&`. The native operations stand for a recursion
-- over the digits that is given as many rounds as its left operand; more rounds change nothing.
use Prim.Native.Nat.{ℕ, zero, suc, ◌+◌, ◌*◌, ◌/◌, ◌%◌, ◌≤◌, min, max, digits}
use Prim.Native.Nat.{bit_and, bit_or, bit_and-bitwise, bit_or-bitwise}
use mathlib.Core.Path.{◌≡◌, refl, ap}
use native.Mathlib.Omega.{arith}

more_rounds :
    (low : ℕ → ℕ) (op : ℕ → ℕ → ℕ) (r s x y : ℕ)
    → x ≤ r
    → r ≤ s
    → digits low op s x y ≡ digits low op r x y
more_rounds low op zero zero x y p q = refl
more_rounds low op zero (suc s) zero y p q = refl
more_rounds low op zero (suc s) (suc x) y p q = absurd (omega arith)
more_rounds low op (suc r) zero x y p q = absurd (omega arith)
more_rounds low op (suc r) (suc s) zero y p q = refl
more_rounds low op (suc r) (suc s) (suc x) y p q =
    ap (λ t. t * 2 + op (suc x % 2) (y % 2))
      (more_rounds low op r s (suc x / 2) (y / 2) (omega arith) (omega arith))

pub bit_or_step : (x y : ℕ) → bit_or x y ≡ bit_or (x / 2) (y / 2) * 2 + max (x % 2) (y % 2)
bit_or_step zero y = simp bit_or-bitwise (omega arith)
bit_or_step (suc x) y = simp bit_or-bitwise (
    ap (λ t. t * 2 + max (suc x % 2) (y % 2))
      (more_rounds (λ d. d) max (suc x / 2) x (suc x / 2) (y / 2) (omega arith) (omega arith)))

pub bit_and_step : (x y : ℕ) → bit_and x y ≡ bit_and (x / 2) (y / 2) * 2 + min (x % 2) (y % 2)
bit_and_step zero y = simp bit_and-bitwise (omega arith)
bit_and_step (suc x) y = simp bit_and-bitwise (
    ap (λ t. t * 2 + min (suc x % 2) (y % 2))
      (more_rounds (λ d. 0) min (suc x / 2) x (suc x / 2) (y / 2) (omega arith) (omega arith)))
