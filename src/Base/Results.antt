-- ===== src/Base/Results.antt =====
-- How a C++ call can end: with a value, with an exception, or outside the language.
use mathlib.Core.Path.{◌≡◌, refl}

-- The exceptions that the sources throw, and the one of `std::vector::at`.
pub data Exception : Type 0 where
  card_error card_id_error index_out_of_range std_out_of_range : Exception

-- `undefined` is a step that C++ leaves undefined: a shift by a negative count, a read past the
-- end of an array, a call through a null pointer. `out_of_fuel` is the model's own: the rounds
-- given to a loop did not suffice.
pub data Outcome {ℓ} (A : Type ℓ) : Type ℓ where
  ok : A → Outcome A
  thrown : Exception → Outcome A
  undefined : Outcome A
  out_of_fuel : Outcome A

infixl 5 ◌>>=◌
abbrev pub ◌>>=◌ {ℓ κ} : {A : Type ℓ} {B : Type κ} → Outcome A → (A → Outcome B) → Outcome B
ok a >>= f = f a
thrown e >>= f = thrown e
undefined >>= f = undefined
out_of_fuel >>= f = out_of_fuel

module _ {A B : Type 0} where
  -- A sequence that returned: what its first part returned, and that the rest returned then.
  pub record Returned (first : Outcome A) (next : A → Outcome B) (result : B) : Type 0 where
    pub value : A
    pub head : first ≡ ok value
    pub rest : next value ≡ ok result

  pub sequence-Returned :
      (first : Outcome A) (next : A → Outcome B) (result : B)
      → (first >>= next) ≡ ok result
      → Returned first next result
  sequence-Returned undefined next result h = cc
  sequence-Returned out_of_fuel next result h = cc
  sequence-Returned (thrown e) next result h = cc
  sequence-Returned (ok a) next result h = record { value = a; head = refl; rest = h }
