-- ===== src/Tests/Statements.antt =====
-- The statements that the package renders, at concrete constructs.
use sqlalchemy_cubrid.Dml.ReadBack.{
  Values, ends_value, read_update, named, read-visit_on_duplicate_key_update,
}
use sqlalchemy_cubrid.Sql.{NoDigit, read_number, read_number-show_nat}
use sqlalchemy_cubrid.Tests.Quoting.{sometimes, quote}
use sqlalchemy_cubrid.Prelude.{ap, ℕ, arith, starts_with, show_nat}
use sqlalchemy_cubrid.Sql.{escape_quotes}
use sqlalchemy_cubrid.Prelude.{
  is_some, true, lower, inr, text_eq_iff, sym, inl, Bool-cases, false, ◌&&◌, text_eq, map, none,
  one_of, join, List, show_nat, ◌≡◌, refl, some, [], ◌∷◌, ◌++◌, Text, codes,
}
use sqlalchemy_cubrid.Prelude.Dict.{lookup}
use sqlalchemy_cubrid.Dml.{
  Column, OnDuplicate, visit_on_duplicate_key_update, columns_in_order, assignments,
  ordered_columns, other_columns, find_column, assignment_text,
}
use sqlalchemy_cubrid.Dml.Render.{
  column_keys, assigned, visit_on_duplicate_key_update-keys, visit_on_duplicate_key_update-unknown,
}
use sqlalchemy_cubrid.Reserved.Spelling.{is_plain_word, reserved_words-lower}
use sqlalchemy_cubrid.Dblink.{CreateServer, DbLink, visit_create_server, as_text}
use sqlalchemy_cubrid.Dblink.ReadBack.{
  read_create_server, read_dblink, alias_clause, read-visit_create_server, read-as_text,
}

-- A quoting function: double quotes round the name.
abbrev quoted : Text → Text
quoted name = codes "\"" ++ (name ++ codes "\"")

abbrev remote : CreateServer
remote = record {
  name = codes "srv";
  host = codes "db.local";
  port = 33000;
  dbname = codes "demodb";
  user = codes "dba";
  password = codes "it's'";
}

read-visit_create_server_example :
    read_create_server (quoted (codes "srv")) (visit_create_server quoted remote)
    ≡ some (codes "db.local", 33000, codes "demodb", codes "dba", codes "it's'")
read-visit_create_server_example = read-visit_create_server quoted remote

remote_statement :
    visit_create_server quoted remote
    ≡ codes
        "CREATE SERVER \"srv\" (HOST='db.local', PORT=33000, DBNAME='demodb', USER='dba', PASSWORD='it''s''')"
unfolding visit_create_server escape_quotes show_nat
remote_statement = refl

abbrev link : DbLink
link = record {
  server = codes "srv";
  query = codes "SELECT 'x'";
  columns = (codes "id", codes "INT") ∷ (codes "name", codes "VARCHAR(50)") ∷ [];
}

read-as_text_example :
    read_dblink (codes "srv") (as_text link (codes "t"))
    ≡ some (codes "SELECT 'x'", codes ")" ++ alias_clause link.columns (codes "t"))
read-as_text_example = read-as_text link (codes "t")

abbrev people : List Column
people =
    record { key = codes "id"; name = codes "id" }
    ∷ record { key = codes "name"; name = codes "full name" }
    ∷ []

-- `on_duplicate_key_update([("name", …), ("id", …)])`
abbrev renaming : OnDuplicate Text
renaming = record {
  parameter_ordering = some (codes "name" ∷ codes "id" ∷ []);
  update = (codes "name", codes "'Lee'") ∷ (codes "id", codes "7") ∷ [];
}

renaming_text :
    visit_on_duplicate_key_update quoted (λ v. v) people renaming
    ≡ codes "ON DUPLICATE KEY UPDATE \"full name\" = 'Lee', \"id\" = 7"
unfolding visit_on_duplicate_key_update columns_in_order assignments join ordered_columns
    other_columns find_column lookup one_of text_eq
renaming_text = refl

visit_on_duplicate_key_update-keys_example :
    (sets : List (Column × Text)) × (visit_on_duplicate_key_update quoted (λ v. v) people renaming
      ≡ codes "ON DUPLICATE KEY UPDATE "
        ++ join (codes ", ") (map (assignment_text quoted (λ v. v)) sets))
    × ((k : Text)
        → one_of k (assigned sets)
          ≡ (is_some (lookup k renaming.update) && one_of k (column_keys people)))
visit_on_duplicate_key_update-keys_example =
    visit_on_duplicate_key_update-keys quoted (λ v. v) people renaming

-- `on_duplicate_key_update(nmae=…)`
abbrev misspelt : OnDuplicate Text
misspelt = record { parameter_ordering = none; update = (codes "nmae", codes "'Lee'") ∷ [] }

misspelt_unknown :
    (k : Text) → (is_some (lookup k misspelt.update) && one_of k (column_keys people)) ≡ false
unfolding lookup one_of
misspelt_unknown k = elim (Bool-cases (text_eq (codes "nmae") k)) [
  | inl e ↦ rw (sym ((text_eq_iff (codes "nmae") k).0 e)) refl
  | inr n ↦ rw n refl
]

visit_on_duplicate_key_update-unknown_example :
    visit_on_duplicate_key_update quoted (λ v. v) people misspelt ≡ codes "ON DUPLICATE KEY UPDATE "
visit_on_duplicate_key_update-unknown_example =
    visit_on_duplicate_key_update-unknown quoted (λ v. v) people misspelt misspelt_unknown

reserved_words-lower_example :
    (lower (codes "select") ≡ codes "select") × (is_plain_word (codes "select") ≡ true)
reserved_words-lower_example = reserved_words-lower (codes "select") (unfold one_of text_eq in refl)

-- Values that are written as numbers.
ends_value-NoDigit : (rest : Text) → ends_value rest ≡ true → NoDigit rest
unfolding ends_value starts_with
ends_value-NoDigit [] h = tt
ends_value-NoDigit (c ∷ s) h = ground arith

abbrev number_values : Values ℕ
number_values = record {
  process = show_nat;
  read_value = λ s. some (read_number 0 s);
  read-process = λ v rest h. ap some (read_number-show_nat v rest (ends_value-NoDigit rest h));
}

abbrev numbering : OnDuplicate ℕ
numbering = record {
  parameter_ordering = some (codes "name" ∷ codes "id" ∷ []);
  update = (codes "id", 7) ∷ (codes "name", 12) ∷ [];
}

-- The columns of the table that are assigned, with their values.
abbrev numbered : List (Column × ℕ)
numbered = assignments numbering.update (columns_in_order numbering.parameter_ordering people)

read-visit_on_duplicate_key_update_example :
    (read_update sometimes number_values 2
        (visit_on_duplicate_key_update quote show_nat people numbering)
      ≡ some (map named numbered, []))
    × ((j : Text)
        → one_of j (assigned numbered)
          ≡ (is_some (lookup j numbering.update) && one_of j (column_keys people)))
read-visit_on_duplicate_key_update_example =
    read-visit_on_duplicate_key_update sometimes number_values 1 people numbering (codes "id")
      (unfold assignments columns_in_order ordered_columns other_columns find_column lookup one_of
          text_eq in
        omega arith)
      (unfold lookup text_eq in refl) (unfold one_of text_eq in refl)
