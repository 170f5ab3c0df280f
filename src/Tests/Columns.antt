-- ===== src/Tests/Columns.antt =====
-- Columns of CREATE TABLE in sqlalchemy_cubrid/compiler.py, and chains of calls in
-- sqlalchemy_cubrid/dml.py, at concrete values.
use sqlalchemy_cubrid.Ddl.{Column, is_auto_increment, get_column_specification}
use sqlalchemy_cubrid.Ddl.Columns.{Items, ends_item, read_column, read-get_column_specification}
use sqlalchemy_cubrid.Sql.Quoted.{double_quotes, double_quote}
use sqlalchemy_cubrid.Dml.{OnDuplicate, visit_insert}
use sqlalchemy_cubrid.Dml.Statements.{
  Statement, Call, insert, replace, call_updates, IsChain, call_updates-IsChain,
}
use sqlalchemy_cubrid.Prelude.{
  ◌++◌, ap, starts_with, ◌==◌, false, if◌then◌else◌, Lacks, ◌≡◌, ◌↔◌, refl, true, Option, none,
  some, [], ◌∷◌, Text, codes, Result, ok, err, value_error, arith,
}

-- SQLAlchemy's check that a statement has no clause yet.
abbrev exclusive : Option (OnDuplicate Text) → Result (Unit {0})
exclusive none = ok tt
exclusive (some c) = err value_error

abbrev set_name : Call Text
set_name = ([], (codes "name", codes "x") ∷ [])

call_updates-IsChain_example :
    (((s : Statement Text) × (call_updates exclusive (insert (codes "t")) (set_name ∷ []) ≡ ok s))
      ↔ IsChain (set_name ∷ []))
    × (((s : Statement Text) × (call_updates exclusive (replace (codes "t")) (set_name ∷ [])
            ≡ ok s))
        ↔ (set_name ∷ [] ≡ []))
call_updates-IsChain_example =
    call_updates-IsChain exclusive (codes "t") (set_name ∷ []) value_error refl (λ c. refl)

-- The text of an INSERT that SQLAlchemy begins with the common table expressions of its SELECT.
replace_with_cte :
    visit_insert true (codes "WITH recent AS (SELECT 1) INSERT INTO t SELECT * FROM recent")
    ≡ codes "REPLACEecent AS (SELECT 1) INSERT INTO t SELECT * FROM recent"
unfolding visit_insert
replace_with_cte = refl

-- Texts of types, defaults and literals without a space.
unfoldable pub read_word : Text → Text × Text
read_word [] = ([], [])
read_word (c ∷ s) = let (w, rest) = read_word s in if c == b' ' then ([], c ∷ s) else (c ∷ w, rest)

no_word : (rest : Text) → ends_item rest ≡ true → read_word rest ≡ ([], rest)
unfolding read_word ends_item starts_with
no_word [] h = refl
no_word (c ∷ s) h = ground arith

pub read_word-append :
    (t rest : Text) → Lacks b' ' t → ends_item rest ≡ true → read_word (t ++ rest) ≡ (t, rest)
unfolding read_word
read_word-append [] rest h ends = no_word rest ends
read_word-append (c ∷ t) rest (n, h) ends = ground (arith, read_word-append t rest h ends)

abbrev pub words : Items
words = record {
  IsItem = Lacks b' ';
  read_item = λ s. some (read_word s);
  read-item = λ t rest h ends. ap some (read_word-append t rest h ends);
}

abbrev id_column : Column
id_column = record {
  id = 1;
  name = codes "id";
  column_type = codes "INTEGER";
  has_sequence = false;
  primary_key = true;
  autoincrement_off = false;
  is_integer = true;
  has_server_default = false;
  has_identity = false;
  default = none;
  nullable = false;
  comment = some (codes "'key'");
}

read-get_column_specification_example :
    read_column words double_quotes (
      get_column_specification
        (some (some 1))
        (record id_column { name = double_quote (codes "id") }))
    ≡ some record {
      name = codes "id";
      column_type = codes "INTEGER";
      auto_increment = is_auto_increment (some (some 1)) id_column;
      default = none;
      nullable = false;
      comment = some (codes "'key'");
    }
read-get_column_specification_example =
    read-get_column_specification words double_quotes (some (some 1)) id_column (omega arith) tt
      (omega arith)
