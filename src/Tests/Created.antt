-- ===== src/Tests/Created.antt =====
-- A table from CREATE TABLE of sqlalchemy_cubrid/compiler.py to `get_columns` of
-- sqlalchemy_cubrid/dialect.py, at concrete values.
use sqlalchemy_cubrid.Collection.Process.{cubrid_set}
use sqlalchemy_cubrid.Ddl.{Column}
use sqlalchemy_cubrid.Reflect.Columns.Declared.{ColumnType, standard, sized, collection_type}
use sqlalchemy_cubrid.Reflect.Columns.Shown.{Server, IsExtra, shown}
use sqlalchemy_cubrid.Resolve.{TypeClass, smallint, varchar, Arg}
use sqlalchemy_cubrid.Tests.Columns.{words}
use sqlalchemy_cubrid.Tests.Quoting.{sometimes}
use sqlalchemy_cubrid.Prelude.{
  Text, text_eq, refl, inl, Bool, true, false, if◌then◌else◌, none, some, List, [], ◌∷◌, codes,
}

abbrev counted : Column
counted = record {
  id = 1;
  name = codes "id";
  column_type = codes "SMALLINT";
  has_sequence = false;
  primary_key = true;
  autoincrement_off = false;
  is_integer = true;
  has_server_default = false;
  has_identity = false;
  default = none;
  nullable = false;
  comment = some (codes "'key'");
}

abbrev tags : Column
tags = record counted {
  id = 2;
  name = codes "tags";
  column_type = codes "SET_OF(INTEGER)";
  primary_key = false;
  is_integer = false;
  default = some (codes "{}");
  nullable = true;
  comment = none;
}

unfoldable show_type : Text → Text
unfolding text_eq
show_type t = if text_eq t (codes "SMALLINT") then codes "SHORT" else t

-- A column to count, a text of at most 50 characters, and a set of integers.
abbrev columns : List (Column × ColumnType)
columns =
    (counted, standard (codes "SMALLINT") smallint)
    ∷ (
      record tags { id = 3; name = codes "name"; column_type = codes "VARCHAR(50)" },
      sized (codes "VARCHAR") varchar 50,
    )
    ∷ (tags, collection_type cubrid_set (codes "INTEGER"))
    ∷ []

abbrev accepts : TypeClass → List Arg → Bool
accepts cls args = true

marked-IsExtra : (b : Bool) → IsExtra b (if b then some (codes "auto_increment") else none)
marked-IsExtra true = refl
marked-IsExtra false = inl refl

-- A server that shows a column as it read it.
abbrev server : Server
server = record {
  items = words;
  quoting = sometimes;
  show_type = show_type;
  show_default = λ t. t;
  show_column = λ c. record {
    field = c.name;
    type_text = show_type c.column_type;
    null = if c.nullable then codes "YES" else codes "NO";
    default = shown (λ t. t) c.default;
    extra = if c.auto_increment then some (codes "auto_increment") else none;
  };
  field-show = λ c. refl;
  type-show = λ c. refl;
  null-show = λ c. refl;
  default-show = λ c. refl;
  extra-show = λ c. marked-IsExtra c.auto_increment;
}
