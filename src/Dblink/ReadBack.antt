-- ===== src/Dblink/ReadBack.antt =====
-- What a server reads out of the statements of sqlalchemy_cubrid/dblink.py.
use sqlalchemy_cubrid.Prelude.{
  ℕ, ◌≡◌, refl, false, Option, some, List, [], ◌∷◌, ◌++◌, map, Text, codes, join,
}
use sqlalchemy_cubrid.Dblink.{
  CreateServer, DbLink, column_def, visit_create_server, as_text, alias_of,
}
use sqlalchemy_cubrid.Sql.{
  ◌>>=◌, read_literal, expect, read_number, read-escape_quotes, expect-append, read_number-show_nat,
}

-- A reader of CREATE SERVER, given the quoted name of the server: what it makes of each option.
unfoldable pub read_create_server : Text → Text → Option (Text × ℕ × Text × Text × Text)
read_create_server name s = do
  s ← expect (codes "CREATE SERVER ") s
  s ← expect name s
  s ← expect (codes " (HOST='") s
  (host, s) ← read_literal [] false s
  s ← expect (codes ", PORT=") s
  let (port, s) = read_number 0 s
  s ← expect (codes ", DBNAME='") s
  (dbname, s) ← read_literal [] false s
  s ← expect (codes ", USER='") s
  (user, s) ← read_literal [] false s
  s ← expect (codes ", PASSWORD='") s
  (password, s) ← read_literal [] false s
  s ← expect (codes ")") s
  some (host, port, dbname, user, password)

-- CREATE SERVER hands every option over unchanged: whatever quotes they hold, the host, port,
-- database, user and password are the ones given, and nothing follows them.
pub read-visit_create_server :
    (quote_identifier : Text → Text) (e : CreateServer)
    → read_create_server (quote_identifier e.name) (visit_create_server quote_identifier e)
      ≡ some (e.host, e.port, e.dbname, e.user, e.password)
unfolding read_create_server visit_create_server
read-visit_create_server q e =
    rw
      (
        expect-append (codes "CREATE SERVER ") _,
        expect-append (q e.name) _,
        expect-append (codes " (HOST='") _,
        read-escape_quotes e.host _ refl,
        expect-append (codes ", PORT=") _,
        read_number-show_nat e.port _ refl,
        expect-append (codes ", DBNAME='") _,
        read-escape_quotes e.dbname _ refl,
        expect-append (codes ", USER='") _,
        read-escape_quotes e.user _ refl,
        expect-append (codes ", PASSWORD='") _,
        read-escape_quotes e.password _ refl,
        expect-append (codes ")") [],
      )
      refl

-- The alias part of a DBLINK expression: there is one exactly if there are columns.
abbrev pub alias_clause : List (Text × Text) → Text → Text
alias_clause [] alias = []
alias_clause (c ∷ cs) alias =
    codes " AS "
    ++ (alias ++ (codes "(" ++ (join (codes ", ") (map column_def (c ∷ cs)) ++ codes ")")))

alias_of-alias_clause :
    (cs : List (Text × Text)) (alias : Text)
    → alias_of (join (codes ", ") (map column_def cs)) alias ≡ alias_clause cs alias
unfolding alias_of join
alias_of-alias_clause [] alias = refl
alias_of-alias_clause (([], type) ∷ []) alias = refl
alias_of-alias_clause ((c ∷ name, type) ∷ []) alias = refl
alias_of-alias_clause (([], type) ∷ d ∷ cs) alias = refl
alias_of-alias_clause ((c ∷ name, type) ∷ d ∷ cs) alias = refl

-- A reader of DBLINK, given the server: the query, and the text behind its literal.
unfoldable pub read_dblink : Text → Text → Option (Text × Text)
read_dblink server s = do
  s ← expect (codes "DBLINK(") s
  s ← expect server s
  s ← expect (codes ", '") s
  read_literal [] false s

-- DBLINK hands the query over unchanged, whatever quotes it holds, and behind it there stands the
-- closing bracket, with an alias and the column definitions exactly if there are columns.
pub read-as_text :
    (link : DbLink) (alias : Text)
    → read_dblink link.server (as_text link alias)
      ≡ some (link.query, codes ")" ++ alias_clause link.columns alias)
unfolding read_dblink as_text
read-as_text link alias =
    rw
      (
        alias_of-alias_clause link.columns alias,
        expect-append (codes "DBLINK(") _,
        expect-append link.server _,
        expect-append (codes ", '") _,
      )
      (read-escape_quotes link.query _ refl)
