-- ===== src/Prelude/Action.antt =====
-- Methods that change an object and may raise: what was written before the exception stays written.
use sqlalchemy_cubrid.Prelude.Outcome.{Error, Result, ok, err}

abbrev pub Action : Type 0 → Type 0 → Type 0
Action S A = S → Result A × S

module _ {S : Type 0} where
  abbrev pub pure : {A : Type 0} → A → Action S A
  pure a s = (ok a, s)

  abbrev pub throw : {A : Type 0} → Error → Action S A
  throw e s = (err e, s)

  -- An assignment to attributes.
  abbrev pub modify : (S → S) → Action S Unit
  modify f s = (ok tt, f s)

  abbrev pub gets : {A : Type 0} → (S → A) → Action S A
  gets f s = (ok (f s), s)

  -- `try: m finally: …`, for a clean-up that only assigns.
  abbrev pub finally : {A : Type 0} → Action S A → (S → S) → Action S A
  finally m clean s = ((m s).0, clean (m s).1)

  abbrev pub resume : {A B : Type 0} → Result A × S → (A → Action S B) → Result B × S
  resume (ok a, s) f = f a s
  resume (err e, s) f = (err e, s)

  infixl 5 ◌>>=◌ ◌>>◌
  abbrev pub ◌>>=◌ : {A B : Type 0} → Action S A → (A → Action S B) → Action S B
  ◌>>=◌ m f s = resume (m s) f

  abbrev pub ◌>>◌ : {A B : Type 0} → Action S A → Action S B → Action S B
  m >> n = m >>= λ _. n
