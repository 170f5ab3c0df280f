-- ===== src/Reflect/Columns.antt =====
-- `get_columns` of sqlalchemy_cubrid/dialect.py, over what the server answers to its two queries.
pub mod Laws
pub mod Created
pub mod Shown
pub mod Declared
use mathlib.Core.List.{foldl}
use sqlalchemy_cubrid.Resolve.{TypeClass, Arg, SaType, resolve_type}
use sqlalchemy_cubrid.Reflect.Constraints.{is_yes, truthy}
use sqlalchemy_cubrid.Prelude.Dict.{lookup, set_item}
use sqlalchemy_cubrid.Prelude.{
  Bool, true, false, Option, none, some, List, [], ◌∷◌, Text, codes, contains, Result, ok, err,
  Error, database_error, no_such_table, ◌>>=◌,
}

-- A row of SHOW COLUMNS: Field, Type, Null, Key, Default, Extra. The key is not read.
pub record ColumnRow : Type 0 where
  pub field : Text
  pub type_text : Text
  pub null : Text
  pub default : Option Text
  pub extra : Option Text

-- `col_info`
pub record ColumnInfo : Type 0 where
  pub name : Text
  pub column_type : SaType
  pub nullable : Bool
  pub default : Option Text
  pub autoincrement : Bool
  pub comment : Option Text

-- The rows that a result yields, and the exception that ends them, if any.
abbrev pub Rows : Type 0 → Type 0
Rows A = List A × Option Error

-- The loop over the rows of `db_attribute`; an empty comment is none.
unfoldable pub comment_map :
    List (Text × Option Text) → List (Text × Option Text) → List (Text × Option Text)
unfolding set_item
comment_map m rows = foldl (λ d r. set_item r.0 (truthy r.1) d) m rows

-- The `try` round the comments: a database error keeps what was read before.
unfoldable pub read_comments : Rows (Text × Option Text) → Result (List (Text × Option Text))
unfolding comment_map
read_comments (rows, none) = ok (comment_map [] rows)
read_comments (rows, some database_error) = ok (comment_map [] rows)
read_comments (rows, some e) = err e

-- `comment_map.get(col_name)`
unfoldable pub get_comment : Text → List (Text × Option Text) → Option Text
unfolding lookup
get_comment k m = elim (lookup k m) [ none ↦ none | some c ↦ c ]

-- `"auto_increment" in extra`
unfoldable pub is_autoincrement : Option Text → Bool
unfolding contains
is_autoincrement none = false
is_autoincrement (some extra) = contains extra (codes "auto_increment")

module _ (accepts : TypeClass → List Arg → Bool) where
  -- The loop over the rows of SHOW COLUMNS.
  unfoldable pub read_columns :
      List (Text × Option Text) → List ColumnRow → Option Error → Result (List ColumnInfo)
  unfolding resolve_type get_comment is_autoincrement
  read_columns m [] none = ok []
  read_columns m [] (some e) = err e
  read_columns m (r ∷ rows) e = do
    t ← resolve_type accepts r.type_text
    infos ← read_columns m rows e
    ok (
        record {
          name = r.field;
          column_type = t;
          nullable = is_yes r.null;
          default = r.default;
          autoincrement = is_autoincrement r.extra;
          comment = get_comment r.field m;
        }
        ∷ infos)

  -- `get_columns`, from the answers to SHOW COLUMNS and to the query of the comments.
  unfoldable pub get_columns :
      Result (Rows ColumnRow) → Rows (Text × Option Text) → Result (List ColumnInfo)
  unfolding read_columns read_comments
  get_columns (err database_error) comments = err no_such_table
  get_columns (err e) comments = err e
  get_columns (ok (rows, e)) comments = do m ← read_comments comments; read_columns m rows e
