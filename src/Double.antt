-- ===== src/Double.antt =====
-- C++ `double`, as far as the player computes with it: the operations, and no laws.
use neof5client.Base.{ℕ, Bool}

pub record Double : Type 1 where
  pub R : Type 0
  pub of_ℕ : ℕ → R
  -- A decimal literal: the numerator over a power of ten.
  pub literal : ℕ → ℕ → R
  pub neg : R → R
  pub add : R → R → R
  pub sub : R → R → R
  pub mul : R → R → R
  pub div : R → R → R
  pub lt : R → R → Bool
  pub eq : R → R → Bool
