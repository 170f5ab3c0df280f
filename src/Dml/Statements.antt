-- ===== src/Dml/Statements.antt =====
-- The statements of sqlalchemy_cubrid/dml.py as they are built: `insert` and `replace`, and a chain of
-- calls of `on_duplicate_key_update`; and `visit_insert` of sqlalchemy_cubrid/compiler.py on them.
use sqlalchemy_cubrid.Dml.{
  UpdateArg, mapping, pairs, other_list, column_collection, other, OnDuplicate,
  on_duplicate_key_update,
}
use sqlalchemy_cubrid.Prelude.{
  ◌≡◌, ◌↔◌, refl, sym, ap, ◌∙◌, Bool, true, false, Option, none, some, List, [], ◌∷◌, Text, Result,
  ok, err, Error, attribute_error, ◌>>=◌,
}

-- `Insert` with its `_post_values_clause`, and `Replace`.
pub data Statement (V : Type 0) : Type 0 where
  insert_statement : Text → Option (OnDuplicate V) → Statement V
  replace_statement : Text → Statement V

-- The arguments of a call of `on_duplicate_key_update`.
abbrev pub Call : Type 0 → Type 0
Call V = List (UpdateArg V) × List (Text × V)

module _ {V : Type 0} where
  -- `insert(table)` and `replace(table)`
  unfoldable pub insert : Text → Statement V
  insert table = insert_statement table none

  unfoldable pub replace : Text → Statement V
  replace table = replace_statement table

  unfoldable pub is_replace : Statement V → Bool
  is_replace (insert_statement table clause) = false
  is_replace (replace_statement table) = true

  -- A call of the method, behind the check that `_exclusive_against` of SQLAlchemy makes of the clause
  -- that is there; `Replace` has no such method.
  unfoldable pub call_update :
      (Option (OnDuplicate V) → Result (Unit {0})) → Statement V → Call V → Result (Statement V)
  unfolding on_duplicate_key_update
  call_update exclusive (insert_statement table clause) c = do
    _ ← exclusive clause
    new_clause ← on_duplicate_key_update c.0 c.1
    ok (insert_statement table (some new_clause))
  call_update exclusive (replace_statement table) c = err attribute_error

  -- A chain of calls.
  unfoldable pub call_updates :
      (Option (OnDuplicate V) → Result (Unit {0}))
      → Statement V
      → List (Call V)
      → Result (Statement V)
  unfolding call_update
  call_updates exclusive s [] = ok s
  call_updates exclusive s (c ∷ cs) = do
    s' ← call_update exclusive s c
    call_updates exclusive s' cs

  -- Arguments that make a clause: keywords alone, or alone a `dict` or a list of tuples that is not empty,
  -- or a collection of columns.
  abbrev pub IsUpdate : List (UpdateArg V) → List (Text × V) → Type 0
  IsUpdate [] [] = ⊥
  IsUpdate [] (k ∷ kw) = Unit
  IsUpdate (a ∷ args) (k ∷ kw) = ⊥
  IsUpdate (a ∷ b ∷ args) [] = ⊥
  IsUpdate (mapping [] ∷ []) [] = ⊥
  IsUpdate (mapping (e ∷ es) ∷ []) [] = Unit
  IsUpdate (pairs e es ∷ []) [] = Unit
  IsUpdate (column_collection es ∷ []) [] = Unit
  IsUpdate (other_list ∷ []) [] = ⊥
  IsUpdate (other ∷ []) [] = ⊥

  abbrev pub Clause : List (UpdateArg V) → List (Text × V) → Type 0
  Clause args kw = (c : OnDuplicate V) × (on_duplicate_key_update args kw ≡ ok c)

  Clause-IsUpdate :
      (args : List (UpdateArg V)) (kw : List (Text × V)) → Clause args kw ↔ IsUpdate args kw
  unfolding on_duplicate_key_update
  Clause-IsUpdate [] [] = (λ h. cc (h.1), λ h. absurd h)
  Clause-IsUpdate [] (k ∷ kw) = (λ h. tt, λ h. (_, refl))
  Clause-IsUpdate (a ∷ args) (k ∷ kw) = (λ h. cc (h.1), λ h. absurd h)
  Clause-IsUpdate (a ∷ b ∷ args) [] = (λ h. cc (h.1), λ h. absurd h)
  Clause-IsUpdate (mapping [] ∷ []) [] = (λ h. cc (h.1), λ h. absurd h)
  Clause-IsUpdate (mapping (e ∷ es) ∷ []) [] = (λ h. tt, λ h. (_, refl))
  Clause-IsUpdate (pairs e es ∷ []) [] = (λ h. tt, λ h. (_, refl))
  Clause-IsUpdate (column_collection es ∷ []) [] = (λ h. tt, λ h. (_, refl))
  Clause-IsUpdate (other_list ∷ []) [] = (λ h. cc (h.1), λ h. absurd h)
  Clause-IsUpdate (other ∷ []) [] = (λ h. cc (h.1), λ h. absurd h)

  -- No call, or one whose arguments make a clause.
  abbrev pub IsChain : List (Call V) → Type 0
  IsChain [] = Unit
  IsChain (c ∷ []) = IsUpdate c.0 c.1
  IsChain (c ∷ d ∷ cs) = ⊥

  module _ (exclusive : Option (OnDuplicate V) → Result (Unit {0})) where
    abbrev Built : Statement V → List (Call V) → Type 0
    Built s cs = (s' : Statement V) × (call_updates exclusive s cs ≡ ok s')

    -- What follows the check of the first call.
    abbrev then_call : Text → Result (OnDuplicate V) → List (Call V) → Result (Statement V)
    then_call table (err x) cs = err x
    then_call table (ok c) cs = call_updates exclusive (insert_statement table (some c)) cs

    first_call :
        (table : Text) (c : Call V) (cs : List (Call V))
        → exclusive none ≡ ok tt
        → call_updates exclusive (insert_statement table none) (c ∷ cs)
          ≡ then_call table (on_duplicate_key_update c.0 c.1) cs
    unfolding call_updates
    first_call table c cs free = rw free (by_result (on_duplicate_key_update c.0 c.1))
      where
        by_result :
            (r : Result (OnDuplicate V))
            → ((r >>= λ n. ok (insert_statement table (some n))) >>= λ s'.
                call_updates exclusive s' cs)
              ≡ then_call table r cs
        by_result (ok n) = refl
        by_result (err x) = refl

    made :
        (table : Text) (r : Result (OnDuplicate V)) {s : Statement V}
        → then_call table r [] ≡ ok s
        → (c : OnDuplicate V) × (r ≡ ok c)
    made table (ok c) p = (c, refl)
    made table (err x) p = cc p

    second_call :
        (table : Text) (r : Result (OnDuplicate V)) (d : Call V) (cs : List (Call V)) (e : Error)
        → ((c : OnDuplicate V) → exclusive (some c) ≡ err e)
        → (x : Error) × (then_call table r (d ∷ cs) ≡ err x)
    unfolding call_updates
    second_call table (err x) d cs e taken = (x, refl)
    second_call table (ok c) d cs e taken = (e, rw (taken c) refl)

    insert-IsChain :
        (table : Text) (cs : List (Call V)) (e : Error)
        → exclusive none ≡ ok tt
        → ((c : OnDuplicate V) → exclusive (some c) ≡ err e)
        → Built (insert_statement table none) cs ↔ IsChain cs
    unfolding call_updates
    insert-IsChain table [] e free taken = (λ h. tt, λ h. (insert_statement table none, refl))
    insert-IsChain table (c ∷ []) e free taken = (
      λ (s, p).
          (Clause-IsUpdate c.0 c.1).0
            (made table (on_duplicate_key_update c.0 c.1) (sym (first_call table c [] free) ∙ p)),
      λ h.
          let (n, q) = (Clause-IsUpdate c.0 c.1).1 h in
          (
            insert_statement table (some n),
            first_call table c [] free ∙ ap (λ r. then_call table r []) q,
          ),
    )
    insert-IsChain table (c ∷ d ∷ cs) e free taken =
        let (x, q) = second_call table (on_duplicate_key_update c.0 c.1) d cs e taken in
        (λ (s, p). cc (p, first_call table c (d ∷ cs) free, q), λ h. absurd h)

    replace-IsChain :
        (table : Text) (cs : List (Call V)) → Built (replace_statement table) cs ↔ (cs ≡ [])
    unfolding call_updates
    replace-IsChain table [] = (λ h. refl, λ h. (replace_statement table, refl))
    replace-IsChain table (c ∷ cs) = (λ (s, p). cc p, λ h. cc h)

    -- When SQLAlchemy's check refuses a second clause, and only that, a chain of calls on an INSERT returns
    -- a statement exactly if it has no call, or one call with keywords alone, or with one argument that is a
    -- `dict` or a list of tuples that is not empty or a collection of columns. On a REPLACE no call returns.
    pub call_updates-IsChain :
        (table : Text) (cs : List (Call V)) (e : Error)
        → exclusive none ≡ ok tt
        → ((c : OnDuplicate V) → exclusive (some c) ≡ err e)
        → (Built (insert table) cs ↔ IsChain cs) × (Built (replace table) cs ↔ (cs ≡ []))
    unfolding insert replace
    call_updates-IsChain table cs e free taken =
        (insert-IsChain table cs e free taken, replace-IsChain table cs)
