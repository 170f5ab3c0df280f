-- ===== src/Dblink.antt =====
-- sqlalchemy_cubrid/dblink.py. `quote_identifier` is SQLAlchemy's and a parameter.
pub mod ReadBack
use sqlalchemy_cubrid.Prelude.{
  ℕ, Bool, List, [], ◌∷◌, ◌++◌, map, Text, codes, join, show_nat, if◌then◌else◌,
}
use sqlalchemy_cubrid.Sql.{escape_quotes}

-- `CreateServer`
pub record CreateServer : Type 0 where
  pub name : Text
  pub host : Text
  pub port : ℕ
  pub dbname : Text
  pub user : Text
  pub password : Text

-- `DropServer`
pub record DropServer : Type 0 where
  pub name : Text
  pub if_exists : Bool

-- `DbLink`, its columns with their types
pub record DbLink : Type 0 where
  pub server : Text
  pub query : Text
  pub columns : List (Text × Text)

module _ (quote_identifier : Text → Text) where
  unfoldable pub visit_create_server : CreateServer → Text
  visit_create_server e =
      codes "CREATE SERVER "
      ++ (quote_identifier e.name
          ++ (codes " (HOST='"
              ++ (escape_quotes e.host
                  ++ (codes "', PORT="
                      ++ (show_nat e.port
                          ++ (codes ", DBNAME='"
                              ++ (escape_quotes e.dbname
                                  ++ (codes "', USER='"
                                      ++ (escape_quotes e.user
                                          ++ (codes "', PASSWORD='"
                                              ++ (escape_quotes e.password ++ codes "')")))))))))))

  unfoldable pub visit_drop_server : DropServer → Text
  visit_drop_server e =
      codes "DROP SERVER "
      ++ ((if e.if_exists then codes "IF EXISTS " else []) ++ quote_identifier e.name)

-- "%s %s" % (name, type_str)
abbrev pub column_def : Text × Text → Text
column_def column = column.0 ++ (codes " " ++ column.1)

-- The alias of a DBLINK expression, behind `if col_defs`.
unfoldable pub alias_of : Text → Text → Text
alias_of [] alias = []
alias_of (c ∷ col_defs) alias =
    codes " AS " ++ (alias ++ (codes "(" ++ ((c ∷ col_defs) ++ codes ")")))

-- `DbLink.as_text`
unfoldable pub as_text : DbLink → Text → Text
unfolding alias_of
as_text link alias =
    codes "DBLINK("
    ++ (link.server
        ++ (codes ", '"
            ++ (escape_quotes link.query
                ++ (codes "')"
                    ++ alias_of (join (codes ", ") (map column_def link.columns)) alias))))
