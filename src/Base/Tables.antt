-- ===== src/Base/Tables.antt =====
-- A finite table is checked by evaluation, and then serves at each of its rows.
use Prim.Native.Nat.{ℕ, zero, suc, ◌<◌}
use mathlib.Core.Path.{◌≡◌}
use mathlib.Core.Bool.{Bool, true, ◌&&◌}
use native.Mathlib.Omega.{arith}

-- The test passes on the first `rows` numbers.
unfoldable pub holds_below : (ℕ → Bool) → ℕ → Bool
holds_below test zero = true
holds_below test (suc rows) = holds_below test rows && test rows

pub row_of :
    (test : ℕ → Bool) (rows i : ℕ) → holds_below test rows ≡ true → i < rows → test i ≡ true
unfolding holds_below
row_of test zero i all lt = absurd (omega arith)
row_of test (suc rows) i all lt = ground (arith, row_of test rows i)
