-- ===== src/Prelude/Outcome.antt =====
-- Python code that may raise returns a `Result`.

use mathlib.Core.Path.{◌≡◌}
use mathlib.Core.Logic.{◌⊎◌, inl, inr}

-- The exception classes that the modelled code raises or catches.
pub data Error : Type 0 where
  value_error type_error index_error struct_error unicode_encode_error : Error
  argument_error no_such_table database_error assertion_error attribute_error : Error

pub data Result {ℓ} (A : Type ℓ) : Type ℓ where
  ok : A → Result A
  err : Error → Result A

infixl 5 ◌>>=◌
abbrev pub ◌>>=◌ {ℓ κ} : {A : Type ℓ} {B : Type κ} → Result A → (A → Result B) → Result B
ok a >>= f = f a
err e >>= f = err e

-- The run returns a value that has the property; a run that raises does not.
abbrev pub Returns {ℓ} : {A : Type ℓ} → Result A → (A → Type 0) → Type 0
Returns (ok a) P = P a
Returns (err e) P = ⊥

-- The run returns a value, or raises `ValueError`.
abbrev pub Caught : {A : Type 0} → Result A → Type 0
Caught {A} r = ((a : A) × (r ≡ ok a)) ⊎ (r ≡ err value_error)

pub >>=-Caught :
    {A B : Type 0} (m : Result A) (f : A → Result B)
    → Caught m
    → ((a : A) → Caught (f a))
    → Caught (m >>= f)
>>=-Caught (ok a) f h k = k a
>>=-Caught (err e) f (inl (a, p)) k = cc
>>=-Caught (err e) f (inr p) k = inr cc
