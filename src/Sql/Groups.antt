-- ===== src/Sql/Groups.antt =====
-- Brackets in the text of a statement, and a reader for what stands between two of them.
use sqlalchemy_cubrid.Prelude.{
  ℕ, zero, suc, ◌≡◌, sym, ap, Bool, true, false, Option, none, some, [], ◌∷◌, ◌++◌, append_assoc,
  append-nil, arith, Text, ◌==◌,
}

-- Every bracket that the text opens behind `d` open ones is closed in it, and no other.
unfoldable pub balanced : ℕ → Text → Bool
balanced zero [] = true
balanced (suc d) [] = false
balanced d (c ∷ s) = elim (c == b'(') [
  | true ↦ balanced (suc d) s
  | false ↦ elim (c == b')') [
    | true ↦ elim d [ zero ↦ false | suc e ↦ balanced e s ]
    | false ↦ balanced d s
  ]
]

-- The text up to the bracket that closes it, and the text behind that.
unfoldable pub read_group : ℕ → Text → Text → Option (Text × Text)
read_group d out [] = none
read_group d out (c ∷ s) = elim (c == b'(') [
  | true ↦ read_group (suc d) (out ++ c ∷ []) s
  | false ↦ elim (c == b')') [
    | true ↦ elim d [ zero ↦ some (out, s) | suc e ↦ read_group e (out ++ c ∷ []) s ]
    | false ↦ read_group d (out ++ c ∷ []) s
  ]
]

pub read_group-balanced :
    (d : ℕ) (out s rest : Text)
    → balanced d s ≡ true
    → read_group d out (s ++ b')' ∷ rest) ≡ some (out ++ s, rest)
unfolding balanced read_group
read_group-balanced zero out [] rest h = ap (λ o. some (o, rest)) (sym (append-nil out))
read_group-balanced (suc d) out [] rest h = cc
read_group-balanced zero out (c ∷ s) rest h = ground (
  arith,
  read_group-balanced 1 (out ++ c ∷ []) s rest,
  read_group-balanced 0 (out ++ c ∷ []) s rest,
  append_assoc out (c ∷ []) s,
)
read_group-balanced (suc d) out (c ∷ s) rest h = ground (
  arith,
  read_group-balanced (suc (suc d)) (out ++ c ∷ []) s rest,
  read_group-balanced d (out ++ c ∷ []) s rest,
  read_group-balanced (suc d) (out ++ c ∷ []) s rest,
  append_assoc out (c ∷ []) s,
)
