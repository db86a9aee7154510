-- ===== src/Base/Errors.antt =====
-- A Python computation that returns or raises.
use Prim.Native.Nat.{ℕ}
use mathlib.Core.Logic.{◌⊎◌, inl, inr}
use mathlib.Core.Path.{◌≡◌, refl}

-- The exceptions that the code raises, or that the library calls it makes raise in it.
-- `dbapi_error` is any other error of the
-- database, such as a deadlock or a lost connection, and `out_of_fuel` stands for a loop that the
-- model cut short.
pub data Error : Type 0 where
  key_error overflow_error dependency_cycle out_of_fuel : Error
  stale_data_error integrity_error dbapi_error value_error attribute_error : Error
  http_exception : (status : ℕ) → Error

pub data Outcome {ℓ} (A : Type ℓ) : Type ℓ where
  ok : A → Outcome A
  err : Error → Outcome A

module _ {ℓ κ} {A : Type ℓ} {B : Type κ} where
  -- An exception passes over the rest of the function.
  infixl 5 ◌>>=◌
  abbrev pub ◌>>=◌ : Outcome A → (A → Outcome B) → Outcome B
  ◌>>=◌ m rest = elim m [ err e ↦ err e | ok a ↦ rest a ]

  -- What returned must have passed each of its steps.
  pub >>=-eq-ok :
      (m : Outcome A) (rest : A → Outcome B) {b : B}
      → (m >>= rest) ≡ ok b
      → (a : A) × (m ≡ ok a) × (rest a ≡ ok b)
  >>=-eq-ok (err e) rest raised = cc
  >>=-eq-ok (ok a) rest returned = (a, refl, returned)

pub ok-injective {ℓ} : {A : Type ℓ} {a b : A} → ok a ≡ ok b → a ≡ b
ok-injective h = cc

pub err-injective {ℓ} : {A : Type ℓ} {x y : Error} → ◌≡◌ {A = Outcome A} (err x) (err y) → x ≡ y
err-injective h = cc

pub Outcome-cases {ℓ} :
    {A : Type ℓ} (m : Outcome A) → ((a : A) × (m ≡ ok a)) ⊎ ((x : Error) × (m ≡ err x))
Outcome-cases (ok a) = inl (a, refl)
Outcome-cases (err x) = inr (x, refl)
