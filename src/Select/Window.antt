-- ===== src/Select/Window.antt =====
-- Which rows LIMIT and OFFSET leave: `limit_clause` of sqlalchemy_cubrid/compiler.py against the window
-- that a select asks for.
use sqlalchemy_cubrid.Select.{limit_clause}
use sqlalchemy_cubrid.Sql.{NoDigit, expect, read_number, read_number-show_nat}
use sqlalchemy_cubrid.Prelude.{
  sym, append_assoc, ℕ, zero, suc, ◌≤◌, ◌≡◌, refl, ap, ◌∙◌, Option, none, some, List, [], ◌∷◌, ◌++◌,
  append-nil, Text, codes, show_nat, take, drop, length, length-drop, arith,
}

-- The rows that a select with a limit and an offset asks for.
unfoldable pub skipped {ℓ} : {A : Type ℓ} → Option ℕ → List A → List A
skipped none rows = rows
skipped (some o) rows = drop o rows

unfoldable pub window {ℓ} : {A : Type ℓ} → Option ℕ → Option ℕ → List A → List A
unfolding skipped
window none offset rows = skipped offset rows
window (some l) offset rows = take l (skipped offset rows)

abbrev at_offset {ℓ} : {A : Type ℓ} → List A → ℕ × Text → Option (List A)
at_offset rows (o, []) = some (drop o rows)
at_offset rows (o, d ∷ u) = none

-- The rows behind an OFFSET, or all where the text ends.
unfoldable pub read_offset {ℓ} : {A : Type ℓ} → Text → List A → Option (List A)
unfolding expect read_number
read_offset [] rows = some rows
read_offset (c ∷ s) rows = elim (expect (codes " OFFSET ") (c ∷ s)) [
  | none ↦ none
  | some t ↦ at_offset rows (read_number 0 t)
]

abbrev limited {ℓ} : {A : Type ℓ} → ℕ → Option (List A) → Option (List A)
limited l none = none
limited l (some behind) = some (take l behind)

abbrev at_limit {ℓ} : {A : Type ℓ} → List A → ℕ × Text → Option (List A)
at_limit rows (l, rest) = limited l (read_offset rest rows)

-- What a server does at the text of the clause: all rows for no text, else the number behind LIMIT of
-- those behind OFFSET; `none` is a syntax error.
unfoldable pub read_limit {ℓ} : {A : Type ℓ} → Text → List A → Option (List A)
unfolding read_offset
read_limit [] rows = some rows
read_limit (c ∷ s) rows = elim (expect (codes "\n LIMIT ") (c ∷ s)) [
  | none ↦ none
  | some t ↦ at_limit rows (read_number 0 t)
]

-- The limit that stands for none.
abbrev pub no_limit : ℕ
no_limit = 9999999999

take_all {ℓ} : {A : Type ℓ} (n : ℕ) (xs : List A) → length xs ≤ n → take n xs ≡ xs
take_all zero [] h = refl
take_all zero (x ∷ xs) h = absurd (omega arith)
take_all (suc n) [] h = refl
take_all (suc n) (x ∷ xs) h = ap (λ t. x ∷ t) (take_all n xs (omega arith))

number_end : (n : ℕ) → read_number 0 (show_nat n) ≡ (n, [])
number_end n = ap (read_number 0) (sym (append-nil (show_nat n))) ∙ read_number-show_nat n [] tt

read_offset-show_nat {ℓ} :
    {A : Type ℓ} (o : ℕ) (rows : List A)
    → read_offset (codes " OFFSET " ++ show_nat o) rows ≡ some (drop o rows)
unfolding read_offset
read_offset-show_nat o rows = ap (at_offset rows) (number_end o)

read_limit-number {ℓ} :
    {A : Type ℓ} (l : ℕ) (rest : Text) (rows : List A)
    → NoDigit rest
    → read_limit (codes "\n LIMIT " ++ (show_nat l ++ rest)) rows
      ≡ limited l (read_offset rest rows)
unfolding read_limit
read_limit-number l rest rows h = ap (at_limit rows) (read_number-show_nat l rest h)

read_limit-no_limit {ℓ} :
    {A : Type ℓ} (rest : Text) (rows : List A)
    → read_limit (codes "\n LIMIT 9999999999 OFFSET " ++ rest) rows
      ≡ limited no_limit (read_offset (codes " OFFSET " ++ rest) rows)
unfolding read_limit read_number
read_limit-no_limit rest rows = refl

take-no_limit {ℓ} :
    {A : Type ℓ} (o : ℕ) (rows : List A)
    → length rows ≤ no_limit
    → take no_limit (drop o rows) ≡ drop o rows
take-no_limit o rows h = take_all no_limit (drop o rows) (omega (arith, length-drop o rows))

-- The clause leaves the rows that the select asks for, on every combination of limit and offset; an
-- offset without a limit does so for up to 9999999999 rows.
pub read_limit-limit_clause {ℓ} :
    {A : Type ℓ} (limit offset : Option ℕ) (rows : List A)
    → length rows ≤ no_limit
    → read_limit (limit_clause show_nat limit offset) rows ≡ some (window limit offset rows)
unfolding limit_clause window
read_limit-limit_clause none none rows h = unfold read_limit in refl
read_limit-limit_clause none (some o) rows h =
    read_limit-no_limit (show_nat o) rows
    ∙ (ap (limited no_limit) (read_offset-show_nat o rows) ∙ ap some (take-no_limit o rows h))
read_limit-limit_clause (some l) none rows h =
    read_limit-number l [] rows tt ∙ (unfold read_offset in refl)
read_limit-limit_clause (some l) (some o) rows h =
    ap (λ t. read_limit t rows)
      (append_assoc (codes "\n LIMIT ") (show_nat l) (codes " OFFSET " ++ show_nat o))
    ∙ (read_limit-number l (codes " OFFSET " ++ show_nat o) rows refl
        ∙ ap (limited l) (read_offset-show_nat o rows))
