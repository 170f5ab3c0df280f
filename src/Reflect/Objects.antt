-- ===== src/Reflect/Objects.antt =====
-- The catalog queries of sqlalchemy_cubrid/dialect.py and sqlalchemy_cubrid/inheritance.py: tables,
-- views, comments, super and sub classes, inherited and OID columns. What the server answers to a
-- statement and its parameter `:name` is a parameter.
pub mod Query
pub mod Served
pub mod Executed
pub mod Laws
pub mod Inherits
use sqlalchemy_cubrid.Prelude.{
  zero, suc, suc, ℕ, Bool, Option, none, some, List, [], ◌∷◌, Text, codes, lower, ltb, Result, ok,
  err, type_error, index_error, no_such_table, if◌then◌else◌, ◌>>=◌,
}

-- A value in a row of an answer.
pub data Cell : Type 0 where
  null : Cell
  text : Text → Cell
  number : ℕ → Cell

abbrev pub Row : Type 0
Row = List Cell

abbrev pub Server : Type 0
Server = Text → Option Text → Result (List Row)

-- `row[0]`, `row[1]` and `row[2]`
unfoldable pub cell_at : ℕ → Row → Result Cell
cell_at n [] = err index_error
cell_at zero (c ∷ row) = ok c
cell_at (suc n) (c ∷ row) = cell_at n row

-- `result.fetchone()`
abbrev pub fetchone : List Row → Option Row
fetchone [] = none
fetchone (row ∷ rows) = some row

-- `result.scalar() > 0`
unfoldable pub scalar_positive : List Row → Result Bool
scalar_positive ((number n ∷ row) ∷ rows) = ok (ltb 0 n)
scalar_positive rows = err type_error

-- A comprehension over the rows.
unfoldable pub for_rows : {A : Type 0} → (Row → Result A) → List Row → Result (List A)
for_rows f [] = ok []
for_rows f (row ∷ rows) = do a ← f row; as' ← for_rows f rows; ok (a ∷ as')

-- `[row[0] for row in result]`
unfoldable pub first_cells : List Row → Result (List Cell)
unfolding for_rows cell_at
first_cells rows = for_rows (cell_at 0) rows

-- The statements.
unfoldable pub object_statement : Text
object_statement =
    codes "SELECT COUNT(*) FROM db_class WHERE class_name = :name AND is_system_class = 'NO'"

unfoldable pub view_statement : Text
view_statement =
    codes
      "SELECT COUNT(*) FROM db_class WHERE class_name = :name AND is_system_class = 'NO' AND class_type = 'VCLASS'"

unfoldable pub table_statement : Text
table_statement =
    codes
      "SELECT COUNT(*) FROM db_class WHERE class_name = :name AND is_system_class = 'NO' AND class_type = 'CLASS'"

unfoldable pub table_names_statement : Text
table_names_statement =
    codes
      "SELECT class_name FROM db_class WHERE is_system_class = 'NO' AND class_type = 'CLASS' ORDER BY class_name"

unfoldable pub view_names_statement : Text
view_names_statement =
    codes
      "SELECT class_name FROM db_class WHERE is_system_class = 'NO' AND class_type = 'VCLASS' ORDER BY class_name"

unfoldable pub definition_statement : Text
definition_statement = codes "SELECT vclass_def FROM db_vclass WHERE vclass_name = :name"

unfoldable pub comment_statement : Text
comment_statement =
    codes "SELECT comment FROM db_class WHERE class_name = :name AND is_system_class = 'NO'"

unfoldable pub super_statement : Text
super_statement =
    codes "SELECT super_class_name FROM db_direct_super_class WHERE class_name = :name"

unfoldable pub sub_statement : Text
sub_statement =
    codes
      "SELECT class_name FROM db_direct_super_class WHERE super_class_name = :name ORDER BY class_name"

-- Those of the dialect's methods.
unfoldable pub super_name_statement : Text
super_name_statement =
    codes "SELECT super_class_name FROM db_direct_super_class WHERE class_name = :name"

unfoldable pub sub_names_statement : Text
sub_names_statement =
    codes
      "SELECT class_name FROM db_direct_super_class WHERE super_class_name = :name ORDER BY class_name"

unfoldable pub inherited_statement : Text
inherited_statement =
    codes
      "SELECT attr_name, from_class_name, def_order FROM db_attribute WHERE class_name = :name ORDER BY def_order"

unfoldable pub oid_statement : Text
oid_statement =
    codes
      "SELECT a.attr_name, a.domain_class_name FROM db_attribute a WHERE a.class_name = :name AND a.domain_class_name IS NOT NULL AND a.domain_class_name != '' ORDER BY a.def_order"

-- The entries of `get_inherited_columns` and `get_oid_columns`.
pub record InheritedColumn : Type 0 where
  pub name : Cell
  pub from_class : Cell
  pub def_order : Cell

pub record OidColumn : Type 0 where
  pub name : Cell
  pub referenced_class : Cell

-- `row[0] if row[0] else None`
abbrev pub or_null : Cell → Cell
or_null (text []) = null
or_null (number zero) = null
or_null c = c

module _ (server : Server) where
  -- `_has_object`
  unfoldable pub has_object : Text → Result Bool
  unfolding scalar_positive lower
  has_object name = do rows ← server object_statement (some (lower name)); scalar_positive rows

  -- `_is_view`
  unfoldable pub is_view : Text → Result Bool
  unfolding scalar_positive lower
  is_view name = do rows ← server view_statement (some (lower name)); scalar_positive rows

  -- `has_table`
  unfoldable pub has_table : Text → Result Bool
  unfolding scalar_positive lower
  has_table name = do rows ← server table_statement (some (lower name)); scalar_positive rows

  -- `get_table_names`
  unfoldable pub get_table_names : Result (List Cell)
  unfolding first_cells
  get_table_names = do rows ← server table_names_statement none; first_cells rows

  -- `get_view_names`
  unfoldable pub get_view_names : Result (List Cell)
  unfolding first_cells
  get_view_names = do rows ← server view_names_statement none; first_cells rows

  -- `get_view_definition`
  unfoldable pub get_view_definition : Text → Result Cell
  unfolding lower cell_at
  get_view_definition name = do
    rows ← server definition_statement (some (lower name))
    elim (fetchone rows) [
      | none ↦ err no_such_table
      | some row ↦ elim row [ [] ↦ err no_such_table | c ∷ cs ↦ ok c ]
    ]

  -- `get_check_constraints`
  unfoldable pub get_check_constraints : Text → Result (List Text)
  unfolding has_object
  get_check_constraints name = do
    found ← has_object name
    if found then ok [] else err no_such_table

  -- `get_table_comment`, the value of "text"
  unfoldable pub get_table_comment : Text → Result Cell
  unfolding lower cell_at
  get_table_comment name = do
    rows ← server comment_statement (some (lower name))
    elim (fetchone rows) [
      | none ↦ err no_such_table
      | some row ↦ cell_at 0 row >>= λ c. ok (or_null c)
    ]

  -- `get_super_class`: `row[0] if row else None`
  unfoldable pub get_super_class : Text → Result (Option Cell)
  unfolding lower
  get_super_class name = do
    rows ← server super_statement (some (lower name))
    elim (fetchone rows) [
      | none ↦ ok none
      | some row ↦ elim row [ [] ↦ ok none | c ∷ cs ↦ ok (some c) ]
    ]

  -- `get_sub_classes`
  unfoldable pub get_sub_classes : Text → Result (List Cell)
  unfolding first_cells lower
  get_sub_classes name = do rows ← server sub_statement (some (lower name)); first_cells rows

  -- `get_super_class_name` of the dialect
  unfoldable pub get_super_class_name : Text → Result (Option Cell)
  unfolding lower
  get_super_class_name name = do
    rows ← server super_name_statement (some (lower name))
    elim (fetchone rows) [
      | none ↦ ok none
      | some row ↦ elim row [ [] ↦ ok none | c ∷ cs ↦ ok (some c) ]
    ]

  -- `get_sub_class_names` of the dialect
  unfoldable pub get_sub_class_names : Text → Result (List Cell)
  unfolding first_cells lower
  get_sub_class_names name = do
    rows ← server sub_names_statement (some (lower name))
    first_cells rows

  -- `get_inherited_columns`
  unfoldable pub get_inherited_columns : Text → Result (List InheritedColumn)
  unfolding for_rows cell_at lower
  get_inherited_columns name = do
    rows ← server inherited_statement (some (lower name))
    for_rows
        (λ row. cell_at 0 row >>= λ n. cell_at 1 row >>= λ f.
          cell_at 2 row >>= λ o. ok record { name = n; from_class = f; def_order = o })
        rows

  -- `get_oid_columns`
  unfoldable pub get_oid_columns : Text → Result (List OidColumn)
  unfolding for_rows cell_at lower
  get_oid_columns name = do
    rows ← server oid_statement (some (lower name))
    for_rows
        (λ row. cell_at 0 row >>= λ n.
          cell_at 1 row >>= λ r. ok record { name = n; referenced_class = r })
        rows
