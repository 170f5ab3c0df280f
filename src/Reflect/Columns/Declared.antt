-- ===== src/Reflect/Columns/Declared.antt =====
-- `get_columns` of sqlalchemy_cubrid/dialect.py on columns whose types sqlalchemy_cubrid/compiler.py and
-- `get_col_spec` of sqlalchemy_cubrid/types.py wrote.
use sqlalchemy_cubrid.Collection.Process.{Kind}
use sqlalchemy_cubrid.Reflect.Columns.{ColumnRow, ColumnInfo, get_columns}
use sqlalchemy_cubrid.Reflect.Columns.Laws.{Describes, get_columns_total}
use sqlalchemy_cubrid.Resolve.{
  sized_bases, collection_bases, type_map, lookup_type, num, TypeClass, collection, Arg, txt,
  SaType, instance_of, get_col_spec, resolve_type,
}
use sqlalchemy_cubrid.Resolve.Pattern.{NoNewline}
use sqlalchemy_cubrid.Resolve.Names.{resolve_type-name}
use sqlalchemy_cubrid.Resolve.Printed.{with_params}
use sqlalchemy_cubrid.Resolve.Laws.{resolve_type-get_col_spec, resolve_type-sized}
use sqlalchemy_cubrid.TypeCompiler.{SqlType, visit_type}
use sqlalchemy_cubrid.TypeCompiler.ReadBack.{
  reflected_class, reflected_args, resolve_type-visit_type,
}
use sqlalchemy_cubrid.Prelude.{
  false, one_of, pos, show_nat, ℕ, ◌≡◌, ◌≢◌, refl, ap, ap₂, ◌∙◌, ◌⊎◌, Bool, true, Option, none,
  some, List, [], ◌∷◌, map, All, Text, ok, Result, Error, database_error,
}

-- The type of a column in a `Table`: one that the type compiler renders, a collection, or one that
-- SQLAlchemy renders by a name of the dialect's table, with or without a length.
pub data ColumnType : Type 0 where
  standard : Text → TypeClass → ColumnType
  sized : Text → TypeClass → ℕ → ColumnType
  plain : SqlType → ColumnType
  collection_type : Kind → Text → ColumnType

-- What CREATE TABLE says of it.
unfoldable pub ddl_type : ColumnType → Text
ddl_type (standard name cls) = name
ddl_type (sized name cls n) = with_params name (show_nat n)
ddl_type (plain t) = visit_type t
ddl_type (collection_type k element_type) = get_col_spec k element_type

-- What it is reflected as.
unfoldable pub reflected_type : ColumnType → SaType
reflected_type (standard name cls) = instance_of cls []
reflected_type (sized name cls n) = instance_of cls (num (pos n) ∷ [])
reflected_type (plain t) = instance_of (reflected_class t) (reflected_args t)
reflected_type (collection_type k element_type) = instance_of (collection k) (txt element_type ∷ [])

-- What a column and the type that it was created with share.
abbrev pub name_and_type : ColumnInfo → Text × SaType
name_and_type i = (i.name, i.column_type)

abbrev pub created : ColumnRow × ColumnType → Text × SaType
created c = (c.0.field, reflected_type c.1)

module _ (accepts : TypeClass → List Arg → Bool)
    (bare : (cls : TypeClass) → accepts cls [] ≡ true) where
  -- The class takes its arguments, a name of SQLAlchemy stands for the class in the dialect's table, and
  -- the type of the elements is a text on one line.
  abbrev pub IsAccepted : ColumnType → Type 0
  IsAccepted (standard name cls) =
      (lookup_type name type_map ≡ some cls)
      × (one_of name collection_bases ≡ false)
      × (accepts cls [] ≡ true)
  IsAccepted (sized name cls n) =
      (one_of name sized_bases ≡ true)
      × (lookup_type name type_map ≡ some cls)
      × (accepts cls (num (pos n) ∷ []) ≡ true)
  IsAccepted (plain t) = accepts (reflected_class t) (reflected_args t) ≡ true
  IsAccepted (collection_type k element_type) =
      (element_type ≢ [])
      × NoNewline element_type
      × (accepts (collection k) (txt element_type ∷ []) ≡ true)

  -- The catalog shows the column with the type that it was created with.
  abbrev pub IsCreated : ColumnRow × ColumnType → Type 0
  IsCreated c = (c.0.type_text ≡ ddl_type c.1) × IsAccepted c.1

  pub resolve_type-ddl_type :
      (t : ColumnType) → IsAccepted t → resolve_type accepts (ddl_type t) ≡ ok (reflected_type t)
  unfolding ddl_type reflected_type
  resolve_type-ddl_type (standard name cls) (found, p, a) =
      resolve_type-name accepts name cls found p a
  resolve_type-ddl_type (sized name cls n) (listed, found, a) =
      resolve_type-sized accepts name n cls listed found a
  resolve_type-ddl_type (plain t) a = resolve_type-visit_type accepts t a
  resolve_type-ddl_type (collection_type k element_type) (n, h, a) =
      resolve_type-get_col_spec accepts k element_type n h a

  pub same_value : {A : Type 0} {x y : A} (r : Result A) → r ≡ ok x → r ≡ ok y → x ≡ y
  same_value r p q = cc (p, q)

  Describes-created :
      (comments : List (Text × Option Text)) (columns : List (ColumnRow × ColumnType))
      (infos : List ColumnInfo)
      → All IsCreated columns
      → Describes accepts comments (map (λ c. c.0) columns) infos
      → map name_and_type infos ≡ map created columns
  Describes-created comments [] [] h d = refl
  Describes-created comments [] (i ∷ infos) h d = absurd d
  Describes-created comments (c ∷ columns) [] h d = absurd d
  Describes-created comments ((r, t) ∷ columns) (i ∷ infos) ((shown, a), h) (p, q, _, _, _, _, d) =
      ap₂ (λ x xs. x ∷ xs)
        (ap₂ (λ (n : Text) (u : SaType). (n, u)) p
          (same_value (resolve_type accepts r.type_text) q
            (ap (resolve_type accepts) shown ∙ resolve_type-ddl_type t a)))
        (Describes-created comments columns infos h d)

  -- When the catalog shows the columns of a table with the types that CREATE TABLE was given,
  -- `get_columns` returns their names in order, each with the type that stands for it, a collection with
  -- the type of its elements, whatever comments arrive before a database error ends them.
  pub get_columns-ddl_type :
      (columns : List (ColumnRow × ColumnType)) (comments : List (Text × Option Text))
      (stop : Option Error)
      → All IsCreated columns
      → (stop ≡ none) ⊎ (stop ≡ some database_error)
      → (infos : List ColumnInfo) × (get_columns accepts
            (ok (map (λ c. c.0) columns, none))
            (comments, stop)
          ≡ ok infos)
        × (map name_and_type infos ≡ map created columns)
  get_columns-ddl_type columns comments stop h s =
      let (infos, e, d) = get_columns_total accepts bare (map (λ c. c.0) columns) comments stop s in
      (infos, e, Describes-created comments columns infos h d)
