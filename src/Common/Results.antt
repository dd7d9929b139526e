-- ===== src/Common/Results.antt =====
-- How a piece of the program ends: with a value, in rte_panic, or in an access out of bounds,
-- which C++ leaves undefined.
use mathlib.Core.Path.{◌≡◌, refl}
use mathlib.Core.Logic.{◌≢◌}

pub data Result {ℓ} (A : Type ℓ) : Type ℓ where
  fault panic : Result A
  ok : A → Result A

module _ {ℓ κ} {A : Type ℓ} {B : Type κ} where
  infixl 5 ◌>>=◌
  abbrev pub ◌>>=◌ : Result A → (A → Result B) → Result B
  fault >>= next = fault
  panic >>= next = panic
  ok a >>= next = next a

  -- The value that a chain which ends well handed on.
  pub >>=-eq-ok :
      (next : A → Result B) (first : Result A) {b : B}
      → (first >>= next) ≡ ok b
      → (a : A) × (first ≡ ok a) × (next a ≡ ok b)
  >>=-eq-ok next fault e = cc
  >>=-eq-ok next panic e = cc
  >>=-eq-ok next (ok a) e = (a, refl, e)

pub ok-injective {ℓ} : {A : Type ℓ} {a b : A} → ok a ≡ ok b → a ≡ b
ok-injective e = cc

-- What neither faults nor panics gives a result.
pub goes {ℓ} : {A : Type ℓ} (r : Result A) → r ≢ fault → r ≢ panic → (a : A) × (r ≡ ok a)
goes fault f q = absurd (f refl)
goes panic f q = absurd (q refl)
goes (ok a) f q = (a, refl)
