-- ===== src/Base/Faults.antt =====
-- Runs that may fault. An assertion that fails stops the program; a thread that takes a mutex which
-- it holds, where the mutex is not recursive, waits for ever; an access out of bounds has
-- no result, nor has a sum of signed integers that overflows; an exception ends the call that threw it.
use mathlib.Core.Path.{◌≡◌, refl}
use mathlib.Core.Bool.{Bool, true, false}

pub data Fault : Type 0 where
  assertion deadlock out_of_bounds division_by_zero overflow thrown : Fault

-- A run that stops, with its fault, or that ends, with its value.
pub data Run {κ} (V : Type κ) : Type κ where
  fault : Fault → Run V
  ok : V → Run V

infixl 5 ◌>>=◌ ◌>>◌
-- The rest of a run, from the value of its first part.
abbrev pub ◌>>=◌ {κ ℓ} : {V : Type κ} {W : Type ℓ} → Run V → (V → Run W) → Run W
first >>= rest = elim first [ fault stop ↦ fault stop | ok value ↦ rest value ]

-- `BOOST_ASSERT`, and what comes after it.
abbrev pub assert : Bool → Run (Unit {0})
assert false = fault assertion
assert true = ok tt

abbrev pub ◌>>◌ {κ} : {W : Type κ} → Run (Unit {0}) → Run W → Run W
check >> rest = check >>= (λ _. rest)

pub assert-holds {κ} : {W : Type κ} (b : Bool) (rest : Run W) → b ≡ true → (assert b >> rest) ≡ rest
assert-holds true rest h = refl
assert-holds false rest h = cc

-- The run ends, in a value with the property.
abbrev pub Returns {κ ℓ} : {V : Type κ} (r : Run V) (P : V → Type ℓ) → Type (κ ⊔ ℓ)
Returns {V} r P = (value : V) × (r ≡ ok value) × P value
