-- ===== src/Prelude/Calls.antt =====
-- A Python call: it returns a value or raises. The exceptions are those that the program raises,
-- handles or lets through.
use mathlib.Core.Path.{◌≡◌, refl}
use mathlib.Core.Logic.{◌⊎◌, inl, inr}

pub data Error : Type 0 where
  timeout_error assertion_error value_error runtime_error attribute_error : Error
  type_error zero_division index_error key_error struct_error connection_error file_not_found :
      Error
  cancelled : Error

pub data Outcome {ℓ} (A : Type ℓ) : Type ℓ where
  ok : A → Outcome A
  raised : Error → Outcome A

infixl 5 ◌>>=◌ ◌>>◌
abbrev pub ◌>>=◌ {ℓ κ} : {A : Type ℓ} {B : Type κ} → Outcome A → (A → Outcome B) → Outcome B
ok a >>= f = f a
raised e >>= f = raised e

abbrev pub ◌>>◌ {ℓ} : {B : Type ℓ} → Outcome (Unit {0}) → Outcome B → Outcome B
m >> k = m >>= λ _. k

pub Outcome-cases {ℓ} :
    {A : Type ℓ} (o : Outcome A) → ((e : Error) × (o ≡ raised e)) ⊎ ((a : A) × (o ≡ ok a))
Outcome-cases (raised e) = inl (e, refl)
Outcome-cases (ok a) = inr (a, refl)
