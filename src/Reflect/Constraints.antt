-- ===== src/Reflect/Constraints.antt =====
-- `get_pk_constraint`, `get_unique_constraints` and `get_indexes` of sqlalchemy_cubrid/dialect.py, over
-- the rows that their catalog queries return.
pub mod Laws
pub mod Unique
use sqlalchemy_cubrid.Prelude.{
  ◌≡◌, Bool, true, false, ◌&&◌, not, Option, none, some, List, [], ◌∷◌, ◌++◌, map, Text, codes,
  text_eq, upper, lower, Result, ok, err, no_such_table, if◌then◌else◌,
}
use sqlalchemy_cubrid.Prelude.Dict.{values}
use sqlalchemy_cubrid.Reflect.Groups.{groups}

-- A row of the catalog query on `db_index` and `db_index_key`; SQL's NULL is `none`.
pub record IndexRow : Type 0 where
  pub index_name : Text
  pub is_unique : Text
  pub is_reverse : Text
  pub filter_expression : Option Text
  pub have_function : Text
  pub key_attr_name : Option Text
  pub asc_desc : Option Text
  pub func : Option Text

-- `row[i] == "YES"`
abbrev pub is_yes : Text → Bool
is_yes s = text_eq s (codes "YES")

-- `if expr:` for a value that may be NULL or empty.
abbrev pub truthy : Option Text → Option Text
truthy none = none
truthy (some []) = none
truthy (some (c ∷ s)) = some (c ∷ s)

pub record PrimaryKey : Type 0 where
  pub constrained_columns : List (Option Text)
  pub name : Option Text

-- The loop of `get_pk_constraint`: the last row names the key.
unfoldable pub pk_rows : PrimaryKey → List IndexRow → PrimaryKey
pk_rows pk [] = pk
pk_rows pk (r ∷ rows) =
    pk_rows
      (record {
        constrained_columns = pk.constrained_columns ++ r.key_attr_name ∷ [];
        name = some r.index_name;
      })
      rows

-- `get_pk_constraint`, by whether the table exists and the rows of its primary key.
unfoldable pub get_pk_constraint : Bool → List IndexRow → Result PrimaryKey
unfolding pk_rows
get_pk_constraint false rows = err no_such_table
get_pk_constraint true rows = ok (pk_rows (record { constrained_columns = []; name = none }) rows)

pub record UniqueConstraint : Type 0 where
  pub name : Text
  pub column_names : List (Option Text)
  pub duplicates_index : Text

abbrev pub row_name : IndexRow → Text
row_name r = r.index_name

abbrev pub new_constraint : IndexRow → UniqueConstraint
new_constraint r = record {
  name = r.index_name;
  column_names = [];
  duplicates_index = r.index_name;
}

abbrev pub add_column : IndexRow → UniqueConstraint → UniqueConstraint
add_column r u = record u { column_names = u.column_names ++ r.key_attr_name ∷ [] }

unfoldable pub constraint_groups : List IndexRow → List (Text × UniqueConstraint)
constraint_groups = groups row_name new_constraint add_column

-- `get_unique_constraints`
unfoldable pub get_unique_constraints : Bool → List IndexRow → Result (List UniqueConstraint)
unfolding constraint_groups
get_unique_constraints false rows = err no_such_table
get_unique_constraints true rows = ok (values (constraint_groups rows))

-- `dialect_options`, with the keys cubrid_reverse, cubrid_filtered and cubrid_function.
pub record DialectOptions : Type 0 where
  pub reverse : Bool
  pub filtered : Option Text
  pub function : Option Text

-- An index; `column_sorting` is a `dict`, its values tuples of one text.
pub record Index : Type 0 where
  pub name : Text
  pub unique : Bool
  pub column_names : List (Option Text)
  pub column_sorting : List (Option Text × Text)
  pub dialect_options : DialectOptions

unfoldable pub row_options : IndexRow → DialectOptions
row_options r = record {
  reverse = is_yes r.is_reverse;
  filtered = truthy r.filter_expression;
  function = if is_yes r.have_function then truthy r.func else none;
}

abbrev pub new_index : IndexRow → Index
new_index r = record {
  name = r.index_name;
  unique = is_yes r.is_unique;
  column_names = [];
  column_sorting = [];
  dialect_options = row_options r;
}

-- `col == col'` where a column may be NULL.
abbrev pub same_column : Option Text → Option Text → Bool
same_column none none = true
same_column (some s) (some t) = text_eq s t
same_column _ _ = false

-- `column_sorting[col_name] = …`
unfoldable pub set_sorting :
    Option Text → Text → List (Option Text × Text) → List (Option Text × Text)
set_sorting col order [] = (col, order) ∷ []
set_sorting col order ((c, o) ∷ rest) =
    if same_column c col then (c, order) ∷ rest else (c, o) ∷ set_sorting col order rest

-- `if asc_desc and asc_desc.upper() != "ASC"`
unfoldable pub row_sorting : IndexRow → List (Option Text × Text) → List (Option Text × Text)
unfolding set_sorting upper lower
row_sorting r sorting = elim (truthy r.asc_desc) [
  | none ↦ sorting
  | some order ↦
      if text_eq (upper order) (codes "ASC")
      then sorting
      else set_sorting r.key_attr_name (lower order) sorting
]

abbrev pub add_index_column : IndexRow → Index → Index
add_index_column r i = record i {
  column_names = i.column_names ++ r.key_attr_name ∷ [];
  column_sorting = row_sorting r i.column_sorting;
}

unfoldable pub index_groups : List IndexRow → List (Text × Index)
index_groups = groups row_name new_index add_index_column

-- `get_indexes`
unfoldable pub get_indexes : Bool → List IndexRow → Result (List Index)
unfolding index_groups
get_indexes false rows = err no_such_table
get_indexes true rows = ok (values (index_groups rows))
