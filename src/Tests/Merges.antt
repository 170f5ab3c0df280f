-- ===== src/Tests/Merges.antt =====
-- A MERGE built by a chain of calls.
use sqlalchemy_cubrid.Merge.{
  Merge, Call, using, on, when_matched_then_update, when_matched_then_delete, merge, run,
  apply_call, visit_cubrid_merge, update_clause, delete_clause, insert_clause, and_condition,
}
use sqlalchemy_cubrid.Merge.Build.{
  last_calls, calls, source_of, on_of, run-eq, visit_cubrid_merge-run,
}
use sqlalchemy_cubrid.Merge.Clauses.{Expressions, ends_expression, ends_column}
use sqlalchemy_cubrid.Merge.ReadBack.{IsReadable, read_merge, read-visit_cubrid_merge}
use sqlalchemy_cubrid.Sql.{NoDigit, expect, expect-append, read_number, read_number-show_nat}
use sqlalchemy_cubrid.Prelude.{
  false, ◌∙◌, ◌≢◌, Option, All, IsDigit, show_nat-All, show_nat-ne-nil, append_assoc, ◌==◌,
  if◌then◌else◌, ℕ, ap, true, show_nat, starts_with, arith, ◌++◌, ◌≡◌, refl, ◌&&◌, none, some,
  is_some, List, [], ◌∷◌, Text, codes, join,
}

-- The update is given twice, with a condition the first time.
abbrev chain : List (Call Text)
chain =
    when_matched_then_update ((codes "t.a", codes "0") ∷ []) (some (codes "t.b = 1"))
    ∷ using (codes "s")
    ∷ when_matched_then_delete (some (codes "s.gone = 1"))
    ∷ on (codes "t.id = s.id")
    ∷ when_matched_then_update ((codes "t.a", codes "s.a") ∷ (codes "t.b", codes "s.b") ∷ []) none
    ∷ []

run-eq_example : run (merge (codes "t")) chain ≡ last_calls (merge (codes "t")) chain
run-eq_example = run-eq (merge (codes "t")) chain

visit_cubrid_merge-run_example :
    is_some (visit_cubrid_merge (λ e. e) (λ e. e) (run (merge (codes "t")) chain))
    ≡ (calls source_of chain && calls on_of chain)
visit_cubrid_merge-run_example = visit_cubrid_merge-run (λ e. e) (λ e. e) (codes "t") chain

merged :
    visit_cubrid_merge (λ e. e) (λ e. e) (run (merge (codes "t")) chain)
    ≡ some (
        codes
          "MERGE INTO t USING s ON (t.id = s.id) WHEN MATCHED THEN UPDATE SET t.a = s.a, t.b = s.b WHEN MATCHED AND s.gone = 1 THEN DELETE")
unfolding visit_cubrid_merge run merge apply_call update_clause delete_clause insert_clause
    and_condition join
merged = refl

-- Columns, numbers, equations between columns, and tables.
data Element : Type 0 where
  column number table : ℕ → Element
  equal : ℕ → ℕ → Element

abbrev process : Element → Text
process (column n) = b'c' ∷ show_nat n
process (number n) = show_nat n
process (table n) = []
process (equal n k) = (b'c' ∷ show_nat n) ++ (codes " = " ++ (b'c' ∷ show_nat k))

abbrev as_from : Element → Text
as_from (table n) = b't' ∷ show_nat n
as_from _ = []

abbrev IsColumn : Element → Type 0
IsColumn (column n) = Unit
IsColumn _ = ⊥

abbrev IsTable : Element → Type 0
IsTable (table n) = Unit
IsTable _ = ⊥

abbrev IsExpression : Element → Type 0
IsExpression (table n) = ⊥
IsExpression _ = Unit

abbrev read_marked : (ℕ → Element) → Text → Option (Element × Text)
read_marked make [] = none
read_marked make (c ∷ s) = let (n, rest) = read_number 0 s in some (make n, rest)

abbrev at_equal : ℕ → Text → Option Text → Option (Element × Text)
at_equal n s none = some (column n, s)
at_equal n s (some []) = none
at_equal n s (some (c ∷ t)) = let (k, rest) = read_number 0 t in some (equal n k, rest)

unfoldable read_element : Text → Option (Element × Text)
read_element [] = none
read_element (c ∷ s) =
    let (n, rest) = read_number 0 s in
    let (k, behind) = read_number 0 (c ∷ s) in
    if c == b'c' then at_equal n rest (expect (codes " = ") rest) else some (number k, behind)

ends-NoDigit : (rest : Text) → ends_expression rest ≡ true → NoDigit rest
unfolding ends_expression starts_with
ends-NoDigit [] h = tt
ends-NoDigit (c ∷ s) h = ground arith

column-NoDigit : (rest : Text) → ends_column rest ≡ true → NoDigit rest
unfolding ends_column starts_with
column-NoDigit [] h = tt
column-NoDigit (c ∷ s) h = ground arith

no_equation : (rest : Text) → ends_expression rest ≡ true → expect (codes " = ") rest ≡ none
unfolding ends_expression starts_with expect
no_equation [] h = refl
no_equation (c ∷ []) h = ground arith
no_equation (c ∷ d ∷ s) h = ground arith

read-marked :
    (make : ℕ → Element) (c n : ℕ) (rest : Text)
    → NoDigit rest
    → read_marked make ((c ∷ show_nat n) ++ rest) ≡ some (make n, rest)
read-marked make c n rest h = ap (λ r. some (make r.0, r.1)) (read_number-show_nat n rest h)

number_start :
    (s rest : Text) (n : ℕ)
    → s ≢ []
    → All IsDigit s
    → read_number 0 (s ++ rest) ≡ (n, rest)
    → read_element (s ++ rest) ≡ some (number n, rest)
unfolding read_element
number_start [] rest n h k e = absurd (h refl)
number_start (c ∷ s) rest n h (k, ks) e = rw (not_c c k) (ap (λ r. some (number r.0, r.1)) e)
  where
    not_c : (c : ℕ) → IsDigit c → (c == b'c') ≡ false
    not_c c k = ground (arith, k)

read-process :
    (e : Element) (rest : Text)
    → IsExpression e
    → ends_expression rest ≡ true
    → read_element (process e ++ rest) ≡ some (e, rest)
unfolding read_element
read-process (column n) rest i h =
    ap (λ r. at_equal r.0 r.1 (expect (codes " = ") r.1))
      (read_number-show_nat n rest (ends-NoDigit rest h))
    ∙ ap (at_equal n rest) (no_equation rest h)
read-process (number n) rest i h =
    number_start (show_nat n) rest n (show_nat-ne-nil n) (show_nat-All n)
      (read_number-show_nat n rest (ends-NoDigit rest h))
read-process (table n) rest i h = absurd i
read-process (equal n k) rest i h =
    let right = b'c' ∷ (show_nat k ++ rest) in
    ap (λ t. read_element (b'c' ∷ t))
      (append_assoc (show_nat n) (codes " = " ++ (b'c' ∷ show_nat k)) rest)
    ∙ (ap (λ r. at_equal r.0 r.1 (expect (codes " = ") r.1))
          (read_number-show_nat n (codes " = " ++ right) refl)
        ∙ (ap (at_equal n (codes " = " ++ right)) (expect-append (codes " = ") right)
            ∙ ap (λ r. some (equal n r.0, r.1))
                (read_number-show_nat k rest (ends-NoDigit rest h))))

read-as_from :
    (e : Element) (rest : Text)
    → IsTable e
    → ends_expression rest ≡ true
    → read_marked table (as_from e ++ rest) ≡ some (e, rest)
read-as_from (table n) rest i h = read-marked table b't' n rest (ends-NoDigit rest h)
read-as_from (column n) rest i h = absurd i
read-as_from (number n) rest i h = absurd i
read-as_from (equal n k) rest i h = absurd i

column-process :
    (e : Element) (rest : Text)
    → IsColumn e
    → ends_column rest ≡ true
    → read_marked column (process e ++ rest) ≡ some (e, rest)
column-process (column n) rest i h = read-marked column b'c' n rest (column-NoDigit rest h)
column-process (table n) rest i h = absurd i
column-process (number n) rest i h = absurd i
column-process (equal n k) rest i h = absurd i

abbrev elements : Expressions Element
elements = record {
  IsExpression = IsExpression;
  IsColumn = IsColumn;
  IsTable = IsTable;
  process = process;
  as_from = as_from;
  read_expression = read_element;
  read_column = read_marked column;
  read_table = read_marked table;
  read-process = read-process;
  column-process = column-process;
  read-as_from = read-as_from;
}

-- An update of two columns, a delete with a condition, and an insert.
abbrev people : Merge Element
people = record {
  target = table 1;
  source = some (table 2);
  on_condition = some (equal 1 2);
  update_values = some ((column 4, number 5) ∷ (column 6, column 7) ∷ []);
  update_condition = none;
  delete = true;
  delete_condition = some (equal 8 8);
  insert_values = some ((column 9, number 10) ∷ []);
  insert_condition = none;
}

people-IsReadable : IsReadable elements people (table 2) (equal 1 2)
people-IsReadable = record {
  target_table = tt;
  source_table = tt;
  on_expression = tt;
  updated = ((tt, tt), ((tt, tt), tt));
  update_given = tt;
  delete_given = tt;
  inserted = ((tt, tt), tt);
  insert_given = tt;
}

read-visit_cubrid_merge_example :
    (text : Text) × (visit_cubrid_merge process as_from people ≡ some text)
    × (read_merge elements 2 text
        ≡ some record {
          target = table 1;
          source = table 2;
          on_condition = equal 1 2;
          update = some ((column 4, number 5) ∷ (column 6, column 7) ∷ [], none);
          delete = some (some (equal 8 8));
          insert = some (column 9 ∷ [], number 10 ∷ [], none);
        })
read-visit_cubrid_merge_example =
    read-visit_cubrid_merge elements 1 people (table 2) (equal 1 2) refl refl people-IsReadable
      (omega arith) (omega arith)
