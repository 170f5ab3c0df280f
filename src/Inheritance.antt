-- ===== src/Inheritance.antt =====
-- CREATE TABLE … UNDER and DROP TABLE of sqlalchemy_cubrid/inheritance.py, and what a server reads out of
-- them. The catalog queries of that file are in Reflect/Objects.antt.
use sqlalchemy_cubrid.Sql.{◌>>=◌, expect, expect-append}
use sqlalchemy_cubrid.Sql.Groups.{balanced, read_group, read_group-balanced}
use sqlalchemy_cubrid.Sql.Quoted.{EndsName, Quoting}
use sqlalchemy_cubrid.Prelude.{
  ◌≡◌, refl, ap, ◌∙◌, sym, true, Option, none, some, List, [], ◌∷◌, ◌++◌, map, append-nil, Text,
  codes, join,
}

-- `CreateTableUnder`
pub record CreateTableUnder (C : Type 0) : Type 0 where
  pub name : Text
  pub parent_name : Text
  pub columns : List C

-- " (…)", if there are columns
unfoldable pub local_columns : List Text → Text
unfolding join
local_columns [] = []
local_columns (c ∷ cs) = codes " (" ++ (join (codes ", ") (c ∷ cs) ++ codes ")")

-- `visit_create_table_under`
unfoldable pub visit_create_table_under :
    {C : Type 0} → (Text → Text) → (C → Text) → CreateTableUnder C → Text
unfolding local_columns
visit_create_table_under quote_identifier get_column_specification e =
    codes "CREATE TABLE "
    ++ (quote_identifier e.name
        ++ (codes " UNDER "
            ++ (quote_identifier e.parent_name
                ++ local_columns (map get_column_specification e.columns))))

-- `visit_drop_table_inheritance`
unfoldable pub visit_drop_table_inheritance : (Text → Text) → Text → Text
visit_drop_table_inheritance quote_identifier name =
    codes "DROP TABLE IF EXISTS " ++ quote_identifier name

-- The columns behind the parent.
abbrev at_columns : Option (Text × Text) → Option (Option Text)
at_columns none = none
at_columns (some (inner, [])) = some (some inner)
at_columns (some (inner, c ∷ s)) = none

unfoldable pub read_columns : Text → Option (Option Text)
read_columns [] = some none
read_columns (c ∷ s) = elim (expect (codes " (") (c ∷ s)) [
  | none ↦ none
  | some t ↦ at_columns (read_group 0 [] t)
]

abbrev pub joined : List Text → Option Text
joined [] = none
joined (c ∷ cs) = some (join (codes ", ") (c ∷ cs))

read_columns-local_columns :
    (cs : List Text)
    → balanced 0 (join (codes ", ") cs) ≡ true
    → read_columns (local_columns cs) ≡ some (joined cs)
unfolding local_columns read_columns expect
read_columns-local_columns [] h = refl
read_columns-local_columns (c ∷ cs) h =
    ap at_columns (read_group-balanced 0 [] (join (codes ", ") (c ∷ cs)) [] h)

local_columns-EndsName : (cs : List Text) → EndsName (local_columns cs)
unfolding local_columns
local_columns-EndsName [] = tt
local_columns-EndsName (c ∷ cs) = refl

module _ (quoting : Quoting) where
  -- The child, the parent and the columns of its own.
  unfoldable pub read_under : Text → Option (Text × Text × Option Text)
  read_under s = do
    s ← expect (codes "CREATE TABLE ") s
    (name, s) ← quoting.read_identifier s
    s ← expect (codes " UNDER ") s
    (parent, s) ← quoting.read_identifier s
    columns ← read_columns s
    some (name, parent, columns)

  unfoldable pub read_drop : Text → Option (Text × Text)
  read_drop s = do s ← expect (codes "DROP TABLE IF EXISTS ") s; quoting.read_identifier s

  -- CREATE TABLE … UNDER names the child, then its parent, and defines columns exactly if the child has
  -- some of its own, whose specifications close the brackets that they open; DROP TABLE names the child.
  -- This is so for any way to quote names that can be read.
  pub read-visit_create_table_under :
      {C : Type 0} (specification : C → Text) (e : CreateTableUnder C)
      → balanced 0 (join (codes ", ") (map specification e.columns)) ≡ true
      → (read_under (visit_create_table_under quoting.quote_identifier specification e)
          ≡ some (e.name, e.parent_name, joined (map specification e.columns)))
        × (read_drop (visit_drop_table_inheritance quoting.quote_identifier e.name)
            ≡ some (e.name, []))
  unfolding visit_create_table_under visit_drop_table_inheritance read_under read_drop
  read-visit_create_table_under specification e h = (
    rw
        (
          expect-append (codes "CREATE TABLE ") _,
          quoting.read-quote e.name _ refl,
          expect-append (codes " UNDER ") _,
          quoting.read-quote e.parent_name _ (local_columns-EndsName (map specification e.columns)),
          read_columns-local_columns (map specification e.columns) h,
        )
        refl,
    rw (expect-append (codes "DROP TABLE IF EXISTS ") _) (
        ap quoting.read_identifier (sym (append-nil (quoting.quote_identifier e.name)))
        ∙ quoting.read-quote e.name [] tt),
  )
