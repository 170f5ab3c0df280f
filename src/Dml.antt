-- ===== src/Dml.antt =====
-- sqlalchemy_cubrid/dml.py, and `visit_insert` and `visit_on_duplicate_key_update` of
-- sqlalchemy_cubrid/compiler.py. What SQLAlchemy renders (expressions, quoted names, the standard
-- INSERT) is a parameter; keys are texts, which `coercions.expect` leaves as they
-- are; a `Column` object as a key is not modelled.
pub mod ReadBack
pub mod Render
pub mod Statements
use sqlalchemy_cubrid.Prelude.Dict.{lookup, keys, dict_of}
use sqlalchemy_cubrid.Prelude.{
  Bool, true, false, not, Option, none, some, List, [], ◌∷◌, ◌++◌, map, Text, codes, join, drop,
  text_eq, one_of, Result, ok, err, argument_error, value_error, ◌>>=◌, if◌then◌else◌,
}

-- What may be passed as the update: a `dict`, a list that begins with a tuple, any other list, a
-- `ColumnCollection`, or another object.
pub data UpdateArg (V : Type 0) : Type 0 where
  mapping : List (Text × V) → UpdateArg V
  pairs : Text × V → List (Text × V) → UpdateArg V
  other_list : UpdateArg V
  column_collection : List (Text × V) → UpdateArg V
  other : UpdateArg V

-- `OnDuplicateClause`
pub record OnDuplicate (V : Type 0) : Type 0 where
  pub parameter_ordering : Option (List Text)
  pub update : List (Text × V)

-- `OnDuplicateClause.__init__`
unfoldable pub on_duplicate_clause : {V : Type 0} → UpdateArg V → Result (OnDuplicate V)
on_duplicate_clause (mapping []) = err value_error
on_duplicate_clause (mapping (e ∷ es)) = ok (record { parameter_ordering = none; update = e ∷ es })
on_duplicate_clause (pairs e es) =
    ok (record { parameter_ordering = some (keys (e ∷ es)); update = dict_of (e ∷ es) })
on_duplicate_clause other_list = err value_error
on_duplicate_clause (column_collection es) =
    ok (record { parameter_ordering = none; update = dict_of es })
on_duplicate_clause other = err value_error

-- `Insert.on_duplicate_key_update(*args, **kw)`: the clause that it stores.
unfoldable pub on_duplicate_key_update :
    {V : Type 0} → List (UpdateArg V) → List (Text × V) → Result (OnDuplicate V)
unfolding on_duplicate_clause
on_duplicate_key_update [] kw = on_duplicate_clause (mapping kw)
on_duplicate_key_update (a ∷ args) (k ∷ kw) = err argument_error
on_duplicate_key_update (a ∷ []) [] = on_duplicate_clause a
on_duplicate_key_update (a ∷ b ∷ args) [] = err argument_error

-- A column of the table, under its key in `table.c`.
pub record Column : Type 0 where
  pub key : Text
  pub name : Text

-- `table.c[key]`, if `key in table.c`
unfoldable pub find_column : Text → List Column → List Column
find_column k [] = []
find_column k (c ∷ cs) = if text_eq c.key k then c ∷ [] else find_column k cs

-- `[statement.table.c[key] for key in ordering if key in statement.table.c]`
unfoldable pub ordered_columns : List Text → List Column → List Column
unfolding find_column
ordered_columns [] table = []
ordered_columns (k ∷ ks) table = find_column k table ++ ordered_columns ks table

-- `[c for c in statement.table.c if c.key not in ordered_keys]`
unfoldable pub other_columns : List Text → List Column → List Column
other_columns ks [] = []
other_columns ks (c ∷ cs) = if one_of c.key ks then other_columns ks cs else c ∷ other_columns ks cs

-- The columns in the order in which they are looked at.
unfoldable pub columns_in_order : Option (List Text) → List Column → List Column
unfolding ordered_columns other_columns
columns_in_order none table = table
columns_in_order (some []) table = table
columns_in_order (some (k ∷ ks)) table =
    ordered_columns (k ∷ ks) table ++ other_columns (k ∷ ks) table

-- The loop `for col in cols`: the columns that are assigned, with their values.
unfoldable pub assignments : {V : Type 0} → List (Text × V) → List Column → List (Column × V)
assignments update [] = []
assignments update (c ∷ cs) = elim (lookup c.key update) [
  | none ↦ assignments update cs
  | some v ↦ (c, v) ∷ assignments update cs
]

module _ {V : Type 0} (quote : Text → Text) (process : V → Text) where
  -- "%s = %s"
  abbrev pub assignment_text : Column × V → Text
  assignment_text a = quote (a.0.name) ++ (codes " = " ++ process a.1)

  unfoldable pub visit_on_duplicate_key_update : List Column → OnDuplicate V → Text
  unfolding columns_in_order assignments join
  visit_on_duplicate_key_update table clause =
      codes "ON DUPLICATE KEY UPDATE "
      ++ join (codes ", ") (
          map assignment_text
            (assignments clause.update (columns_in_order clause.parameter_ordering table)))

-- `visit_insert`, from the text of the standard compiler.
unfoldable pub visit_insert : Bool → Text → Text
visit_insert is_replace text = if is_replace then codes "REPLACE" ++ drop 6 text else text

pub record Truncate : Type 0 where
  pub table_name : Text

-- `truncate(table_name)`
unfoldable pub truncate : Text → Truncate
truncate table_name = record { table_name = table_name }

-- `visit_truncate`
unfoldable pub visit_truncate : (Text → Text) → Truncate → Text
visit_truncate quote_identifier e = codes "TRUNCATE TABLE " ++ quote_identifier e.table_name
