-- ===== src/Ddl/Indexes.antt =====
-- Indexes and comments of `CubridDDLCompiler` in sqlalchemy_cubrid/compiler.py, and what a server reads
-- out of CREATE INDEX. Names and literals are formatted by SQLAlchemy, expressions compiled by it.
use sqlalchemy_cubrid.Sql.{◌>>=◌, expect, expect-append, read_flag}
use sqlalchemy_cubrid.Sql.Groups.{balanced, read_group, read_group-balanced}
use sqlalchemy_cubrid.Sql.Quoted.{Quoting}
use sqlalchemy_cubrid.Prelude.{
  append-nil, sym, ◌≡◌, refl, ap, ◌∙◌, Bool, true, false, Option, none, some, List, [], ◌∷◌, ◌++◌,
  Text, codes, join, if◌then◌else◌,
}

-- An index with the options of the dialect.
pub record Index : Type 0 where
  pub name : Text
  pub table : Text
  pub unique : Bool
  pub reverse : Bool
  pub function : Option Text
  pub expressions : List Text
  pub filtered : Option Text

-- "(…)": the function, or else the columns.
unfoldable pub indexed : Option Text → List Text → Text
unfolding join
indexed none columns = join (codes ", ") columns
indexed (some []) columns = join (codes ", ") columns
indexed (some (c ∷ f)) columns = c ∷ f

unfoldable pub filter_text : Option Text → Text
filter_text none = []
filter_text (some []) = []
filter_text (some (c ∷ f)) = codes " WHERE " ++ c ∷ f

-- `visit_create_index`
unfoldable pub visit_create_index : (Text → Text) → Index → Text
unfolding indexed filter_text
visit_create_index format e =
    codes "CREATE "
    ++ ((if e.unique then codes "UNIQUE " else [])
        ++ ((if e.reverse then codes "REVERSE " else [])
            ++ (codes "INDEX "
                ++ (format e.name
                    ++ (codes " ON "
                        ++ (format e.table
                            ++ (codes " ("
                                ++ (indexed e.function e.expressions
                                    ++ (codes ")" ++ filter_text e.filtered)))))))))

-- `visit_drop_index`
unfoldable pub visit_drop_index : (Text → Text) → Index → Text
visit_drop_index format e =
    codes "DROP INDEX " ++ (format e.name ++ (codes " ON " ++ format e.table))

-- `visit_set_table_comment`, `visit_drop_table_comment`, `visit_set_column_comment` and
-- `visit_drop_column_comment`, from formatted names and the rendered literal
unfoldable pub visit_set_table_comment : Text → Text → Text
visit_set_table_comment table literal =
    codes "ALTER TABLE " ++ (table ++ (codes " COMMENT=" ++ literal))

unfoldable pub visit_drop_table_comment : Text → Text
visit_drop_table_comment table = codes "ALTER TABLE " ++ (table ++ codes " COMMENT=''")

unfoldable pub visit_set_column_comment : Text → Text → Text → Text
visit_set_column_comment table column literal =
    codes "ALTER TABLE "
    ++ (table ++ (codes " MODIFY " ++ (column ++ (codes " COMMENT " ++ literal))))

unfoldable pub visit_drop_column_comment : Text → Text → Text
visit_drop_column_comment table column =
    codes "ALTER TABLE " ++ (table ++ (codes " MODIFY " ++ (column ++ codes " COMMENT ''")))

-- What a server reads out of CREATE INDEX.
pub record ReadIndex : Type 0 where
  pub unique : Bool
  pub reverse : Bool
  pub name : Text
  pub table : Text
  pub inner : Text
  pub condition : Option Text

-- A text that is `None` or empty is not given.
abbrev pub given : Option Text → Option Text
given none = none
given (some []) = none
given (some (c ∷ f)) = some (c ∷ f)

abbrev at_condition : Text → Option (Option Text)
at_condition [] = some none
at_condition (c ∷ s) = elim (expect (codes " WHERE ") (c ∷ s)) [
  | none ↦ none
  | some f ↦ some (some f)
]

read_unique :
    (b r : Bool) (t : Text)
    → read_flag (codes "UNIQUE ") (
        (if b then codes "UNIQUE " else [])
        ++ ((if r then codes "REVERSE " else []) ++ (codes "INDEX " ++ t)))
      ≡ (b, (if r then codes "REVERSE " else []) ++ (codes "INDEX " ++ t))
unfolding read_flag expect
read_unique true r t = refl
read_unique false true t = refl
read_unique false false t = refl

read_reverse :
    (r : Bool) (t : Text)
    → read_flag (codes "REVERSE ") ((if r then codes "REVERSE " else []) ++ (codes "INDEX " ++ t))
      ≡ (r, codes "INDEX " ++ t)
unfolding read_flag expect
read_reverse true t = refl
read_reverse false t = refl

at_condition-filter_text : (f : Option Text) → at_condition (filter_text f) ≡ some (given f)
unfolding filter_text expect
at_condition-filter_text none = refl
at_condition-filter_text (some []) = refl
at_condition-filter_text (some (c ∷ f)) = refl

module _ (quoting : Quoting) where
  unfoldable pub read_create_index : Text → Option ReadIndex
  read_create_index s = do
    s ← expect (codes "CREATE ") s
    let (unique, s) = read_flag (codes "UNIQUE ") s
    let (reverse, s) = read_flag (codes "REVERSE ") s
    s ← expect (codes "INDEX ") s
    (name, s) ← quoting.read_identifier s
    s ← expect (codes " ON ") s
    (table, s) ← quoting.read_identifier s
    s ← expect (codes " (") s
    (inner, s) ← read_group 0 [] s
    condition ← at_condition s
    some record {
      unique = unique;
      reverse = reverse;
      name = name;
      table = table;
      inner = inner;
      condition = condition;
    }

  unfoldable pub read_drop_index : Text → Option (Text × Text)
  read_drop_index s = do
    s ← expect (codes "DROP INDEX ") s
    (name, s) ← quoting.read_identifier s
    s ← expect (codes " ON ") s
    (table, s) ← quoting.read_identifier s
    elim s [ [] ↦ some (name, table) | c ∷ t ↦ none ]

  -- CREATE INDEX says what it was made from, for any way to quote names that can be read: both flags, the
  -- index and its table, the function or else the columns, and the filter if there is one that is not
  -- empty. What is indexed closes the brackets that it opens. DROP INDEX names the same two.
  pub read-visit_create_index :
      (e : Index)
      → balanced 0 (indexed e.function e.expressions) ≡ true
      → (read_create_index (visit_create_index quoting.quote_identifier e)
          ≡ some record {
            unique = e.unique;
            reverse = e.reverse;
            name = e.name;
            table = e.table;
            inner = indexed e.function e.expressions;
            condition = given e.filtered;
          })
        × (read_drop_index (visit_drop_index quoting.quote_identifier e) ≡ some (e.name, e.table))
  unfolding visit_create_index visit_drop_index read_create_index read_drop_index
  read-visit_create_index e h = (
    rw
        (
          expect-append (codes "CREATE ") _,
          read_unique e.unique e.reverse _,
          read_reverse e.reverse _,
          expect-append (codes "INDEX ") _,
          quoting.read-quote e.name _ refl,
          expect-append (codes " ON ") _,
          quoting.read-quote e.table _ refl,
          expect-append (codes " (") _,
          read_group-balanced 0 [] (indexed e.function e.expressions) (filter_text e.filtered) h,
          at_condition-filter_text e.filtered,
        )
        refl,
    rw
        (
          expect-append (codes "DROP INDEX ") _,
          quoting.read-quote e.name _ refl,
          expect-append (codes " ON ") _,
        )
        (ap
          (λ o. o >>= λ r. elim r.1 as (λ _. Option (Text × Text)) [
            | [] ↦ some (e.name, r.0)
            | c ∷ t ↦ none
          ])
          (ap quoting.read_identifier (sym (append-nil (quoting.quote_identifier e.table)))
            ∙ quoting.read-quote e.table [] tt)),
  )
