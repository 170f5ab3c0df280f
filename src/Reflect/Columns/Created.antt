-- ===== src/Reflect/Columns/Created.antt =====
-- From a column of CREATE TABLE, as `get_column_specification` of sqlalchemy_cubrid/compiler.py writes it,
-- over the columns that the server keeps and shows, to `get_columns` of sqlalchemy_cubrid/dialect.py.
use sqlalchemy_cubrid.Ddl.{Column, is_auto_increment, get_column_specification}
use sqlalchemy_cubrid.Ddl.Columns.{AreItems, ReadColumn}
use sqlalchemy_cubrid.Reflect.Columns.{ColumnInfo}
use sqlalchemy_cubrid.Reflect.Columns.Declared.{ColumnType, ddl_type, reflected_type, IsAccepted}
use sqlalchemy_cubrid.Resolve.{TypeClass, Arg, SaType}
use sqlalchemy_cubrid.Reflect.Columns.Shown.{Server, shown, IsSpelling}
use sqlalchemy_cubrid.Prelude.{ℕ, ◌≡◌, Bool, true, Option, List, [], Text}

-- What reflection is to give back of a column.
pub record Declaration : Type 0 where
  pub name : Text
  pub column_type : SaType
  pub nullable : Bool
  pub default : Option Text
  pub autoincrement : Bool

abbrev pub reflected : ColumnInfo → Declaration
reflected i = record {
  name = i.name;
  column_type = i.column_type;
  nullable = i.nullable;
  default = i.default;
  autoincrement = i.autoincrement;
}

module _ (server : Server) where
  -- The text of a column, with its name quoted.
  abbrev pub ddl_text : Option (Option ℕ) → Column × ColumnType → Text
  ddl_text table c =
      get_column_specification table
        (record c.0 { name = server.quoting.quote_identifier c.0.name })

  -- What the column of a table was declared as.
  abbrev pub declaration : Option (Option ℕ) → Column × ColumnType → Declaration
  declaration table c = record {
    name = c.0.name;
    column_type = reflected_type c.1;
    nullable = c.0.nullable;
    default = shown server.show_default c.0.default;
    autoincrement = is_auto_increment table c.0;
  }

  abbrev stored : Option (Option ℕ) → Column → ReadColumn
  stored table c = record {
    name = c.name;
    column_type = c.column_type;
    auto_increment = is_auto_increment table c;
    default = c.default;
    nullable = c.nullable;
    comment = c.comment;
  }

  module _ (accepts : TypeClass → List Arg → Bool)
      (bare : (cls : TypeClass) → accepts cls [] ≡ true) where
    -- The type is rendered by the type compiler and its class takes its arguments; the server can read the
    -- texts, and shows the type as it was written or in the other spelling that is documented.
    pub record IsDeclared (c : Column × ColumnType) : Type 0 where
      pub rendered : c.0.column_type ≡ ddl_type c.1
      pub accepted : IsAccepted accepts bare c.1
      pub spelling : IsSpelling c.0.column_type (server.show_type c.0.column_type)
      pub type_item : server.items.IsItem c.0.column_type
      pub default_item : AreItems server.items c.0.default
      pub comment_item : AreItems server.items c.0.comment
