-- ===== src/Tests/Queries.antt =====
-- Hierarchical queries and the window of LIMIT at concrete constructs, with
-- numbers as expressions.
use sqlalchemy_cubrid.Sql.{NoDigit, expect, read_number, read_number-show_nat}
use sqlalchemy_cubrid.Hierarchical.{
  HierarchicalSelect, sys_connect_by_path, visit_pseudo, hierarchical_select,
  visit_hierarchical_select,
}
use sqlalchemy_cubrid.Hierarchical.Clauses.{Expressions, ends_expression}
use sqlalchemy_cubrid.Hierarchical.ReadBack.{read_hierarchical, read-visit_hierarchical_select}
use sqlalchemy_cubrid.Select.{limit_clause}
use sqlalchemy_cubrid.Select.Window.{read_limit, window, read_limit-limit_clause}
use sqlalchemy_cubrid.Prelude.{
  Option, inl, inr, Bool-cases, ap, ℕ, ◌≡◌, ◌≢◌, refl, true, false, none, some, List, [], ◌∷◌, ◌++◌,
  Text, codes, starts_with, show_nat, show_nat-All, show_nat-ne-nil, is_digit, IsDigit, All, ok,
  arith,
}

-- Numbers as expressions.
not_started :
    (c d : ℕ) (s t : Text)
    → is_digit c ≡ true
    → is_digit d ≡ false
    → starts_with (c ∷ s) (d ∷ t) ≡ false
unfolding starts_with
not_started c d s t h k = ground (arith, h, k)

digit_goes_on : (c : ℕ) (s : Text) → is_digit c ≡ true → ends_expression (c ∷ s) ≡ false
unfolding ends_expression
digit_goes_on c s h =
    rw
      (
        not_started c b',' s (codes " ") h refl,
        not_started c b' ' s (codes "FROM ") h refl,
        not_started c b' ' s (codes "WHERE ") h refl,
        not_started c b' ' s (codes "START WITH ") h refl,
        not_started c b' ' s (codes "CONNECT BY ") h refl,
        not_started c b' ' s (codes "ORDER SIBLINGS BY ") h refl,
      )
      refl

ends-NoDigit : (s : Text) → ends_expression s ≡ true → NoDigit s
ends-NoDigit [] h = tt
ends-NoDigit (c ∷ s) h = elim (Bool-cases (is_digit c)) [
  | inr e ↦ e
  | inl e ↦ absurd (ground (arith, h, digit_goes_on c s e))
]

number_is_no_keyword :
    (s rest : Text) → s ≢ [] → All IsDigit s → expect (codes "NOCYCLE ") (s ++ rest) ≡ none
unfolding expect
number_is_no_keyword [] rest h k = absurd (h refl)
number_is_no_keyword (c ∷ s) rest h (k, ks) = ground (arith, k)

-- A number as an expression, and a table, which SQLAlchemy renders in a FROM only.
data Element : Type 0 where
  number table : ℕ → Element

abbrev process : Element → Text
process (number n) = show_nat n
process (table n) = []

abbrev as_from : Element → Text
as_from (number n) = []
as_from (table n) = codes "t" ++ show_nat n

abbrev IsNumber : Element → Type 0
IsNumber (number n) = Unit
IsNumber (table n) = ⊥

abbrev IsTable : Element → Type 0
IsTable (number n) = ⊥
IsTable (table n) = Unit

abbrev read_table : Text → Option (Element × Text)
read_table [] = none
read_table (c ∷ s) = let (n, rest) = read_number 0 s in some (table n, rest)

abbrev read_element : Text → Option (Element × Text)
read_element s = let (n, rest) = read_number 0 s in some (number n, rest)

read-process :
    (e : Element) (rest : Text)
    → IsNumber e
    → ends_expression rest ≡ true
    → read_element (process e ++ rest) ≡ some (e, rest)
read-process (number n) rest i h =
    ap (λ r. some (number r.0, r.1)) (read_number-show_nat n rest (ends-NoDigit rest h))
read-process (table n) rest i h = absurd i

read-as_from :
    (e : Element) (rest : Text)
    → IsTable e
    → ends_expression rest ≡ true
    → read_table (as_from e ++ rest) ≡ some (e, rest)
read-as_from (number n) rest i h = absurd i
read-as_from (table n) rest i h =
    ap (λ r. some (table r.0, r.1)) (read_number-show_nat n rest (ends-NoDigit rest h))

expect-nocycle :
    (e : Element) (rest : Text) → IsNumber e → expect (codes "NOCYCLE ") (process e ++ rest) ≡ none
expect-nocycle (number n) rest i =
    number_is_no_keyword (show_nat n) rest (show_nat-ne-nil n) (show_nat-All n)
expect-nocycle (table n) rest i = absurd i

abbrev numbers : Expressions Element
numbers = record {
  IsExpression = IsNumber;
  IsTable = IsTable;
  process = process;
  as_from = as_from;
  read_expression = read_element;
  read_table = read_table;
  read-process = read-process;
  read-as_from = read-as_from;
  expect-nocycle = expect-nocycle;
}

abbrev tree : HierarchicalSelect Element
tree =
    hierarchical_select (table 7) (some (number 1 ∷ number 2 ∷ [])) (some (number 3))
      (some (number 4)) none (some (number 5 ∷ number 6 ∷ [])) true

read-visit_hierarchical_select_example :
    (text : Text) × (visit_hierarchical_select process as_from tree ≡ ok text)
    × (read_hierarchical numbers 2 text ≡ some (tree, []))
read-visit_hierarchical_select_example =
    read-visit_hierarchical_select numbers 1 (table 7) (number 1) (number 2 ∷ []) (number 3)
      (some (number 4)) none (some (number 5 ∷ number 6 ∷ [])) true (tt, (tt, tt)) tt tt tt tt
      (tt, (tt, tt)) (omega arith) (omega arith)

-- The table stands for the columns that are not given, and is no expression.
tree_statement :
    visit_hierarchical_select process as_from (
      hierarchical_select
        (table 7)
        none
        (some (number 3))
        (some (number 4))
        (some (number 2))
        none
        true)
    ≡ ok (codes "SELECT  FROM t7 WHERE 2 START WITH 4 CONNECT BY NOCYCLE 3")
unfolding visit_hierarchical_select hierarchical_select show_nat
tree_statement = refl

path_statement :
    visit_pseudo show_nat (λ s. b'\'' ∷ (s ++ b'\'' ∷ [])) (sys_connect_by_path 3 (codes "/"))
    ≡ codes "SYS_CONNECT_BY_PATH(3, '/')"
unfolding visit_pseudo show_nat
path_statement = refl

abbrev four_rows : List ℕ
four_rows = 7 ∷ 8 ∷ 9 ∷ 10 ∷ []

abbrev two_rows : List ℕ
two_rows = 8 ∷ 9 ∷ []

read_limit-limit_clause_example :
    read_limit (limit_clause show_nat (some 2) (some 1)) four_rows ≡ some two_rows
unfolding window
read_limit-limit_clause_example = read_limit-limit_clause (some 2) (some 1) four_rows (omega arith)
