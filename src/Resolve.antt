-- ===== src/Resolve.antt =====
-- `_resolve_type` of sqlalchemy_cubrid/dialect.py, and `get_col_spec` of the collection types. The
-- constructors of SQLAlchemy's types are not in the repository: an instance is its class with the
-- arguments, and which arguments a class accepts is a parameter.
pub mod Pattern
pub mod TypeTail
pub mod Regular
pub mod Printed
pub mod Total
pub mod Laws
pub mod Names
use sqlalchemy_cubrid.Collection.Process.{Kind, cubrid_set, cubrid_multiset, cubrid_list}
use sqlalchemy_cubrid.Prelude.{
  ℕ, Bool, true, false, ◌&&◌, ◌||◌, Option, none, some, List, [], ◌∷◌, ◌++◌, map, Text, codes,
  text_eq, one_of, split, strip, upper, ℤ, pos, parse_int, Result, ok, err, Error, type_error,
  value_error, ◌>>=◌, if◌then◌else◌,
}
use sqlalchemy_cubrid.Resolve.Pattern.{match_type, find_quoted}

-- The classes of `_type_map`.
pub data TypeClass : Type 0 where
  integer bigint smallint float double numeric varchar char : TypeClass
  date time datetime timestamp blob clob large_binary enum json : TypeClass
  collection : Kind → TypeClass

-- An argument of a constructor: a number, a text, or `precision=` a number.
pub data Arg : Type 0 where
  num : ℤ → Arg
  txt : Text → Arg
  precision : ℤ → Arg

pub data SaType : Type 0 where
  null_type : SaType
  instance_of : TypeClass → List Arg → SaType

-- `_type_map`
unfoldable pub type_map : List (Text × TypeClass)
type_map =
    (codes "INTEGER", integer)
    ∷ (codes "INT", integer)
    ∷ (codes "BIGINT", bigint)
    ∷ (codes "SHORT", smallint)
    ∷ (codes "SMALLINT", smallint)
    ∷ (codes "FLOAT", float)
    ∷ (codes "REAL", float)
    ∷ (codes "DOUBLE", double)
    ∷ (codes "DOUBLE PRECISION", double)
    ∷ (codes "NUMERIC", numeric)
    ∷ (codes "DECIMAL", numeric)
    ∷ (codes "STRING", varchar)
    ∷ (codes "CHARACTER VARYING", varchar)
    ∷ (codes "VARCHAR", varchar)
    ∷ (codes "CHAR", char)
    ∷ (codes "CHARACTER", char)
    ∷ (codes "DATE", date)
    ∷ (codes "TIME", time)
    ∷ (codes "DATETIME", datetime)
    ∷ (codes "TIMESTAMP", timestamp)
    ∷ (codes "DATETIMELTZ", datetime)
    ∷ (codes "DATETIMETZ", datetime)
    ∷ (codes "TIMESTAMPLTZ", timestamp)
    ∷ (codes "TIMESTAMPTZ", timestamp)
    ∷ (codes "BLOB", blob)
    ∷ (codes "CLOB", clob)
    ∷ (codes "BIT", large_binary)
    ∷ (codes "BIT VARYING", large_binary)
    ∷ (codes "ENUM", enum)
    ∷ (codes "JSON", json)
    ∷ (codes "SET", collection cubrid_set)
    ∷ (codes "SET_OF", collection cubrid_set)
    ∷ (codes "MULTISET", collection cubrid_multiset)
    ∷ (codes "MULTISET_OF", collection cubrid_multiset)
    ∷ (codes "LIST", collection cubrid_list)
    ∷ (codes "LIST_OF", collection cubrid_list)
    ∷ (codes "SEQUENCE", collection cubrid_list)
    ∷ (codes "SEQUENCE_OF", collection cubrid_list)
    ∷ []

unfoldable pub lookup_type : Text → List (Text × TypeClass) → Option TypeClass
lookup_type k [] = none
lookup_type k ((name, cls) ∷ rest) = if text_eq name k then some cls else lookup_type k rest

-- `_COLLECTION_BASES`
unfoldable pub collection_bases : List Text
collection_bases =
    codes "SET"
    ∷ codes "SET_OF"
    ∷ codes "MULTISET"
    ∷ codes "MULTISET_OF"
    ∷ codes "LIST"
    ∷ codes "LIST_OF"
    ∷ codes "SEQUENCE"
    ∷ codes "SEQUENCE_OF"
    ∷ []

abbrev pub default_element : Text
default_element = codes "VARCHAR(1073741823)"

abbrev pub sized_bases : List Text
sized_bases =
    codes "VARCHAR"
    ∷ codes "CHARACTER VARYING"
    ∷ codes "CHAR"
    ∷ codes "CHARACTER"
    ∷ codes "STRING"
    ∷ []

-- `[int(x.strip()) for x in params.split(",")]`
unfoldable pub parse_parts : List Text → Result (List ℤ)
unfolding parse_int strip
parse_parts [] = ok []
parse_parts (x ∷ xs) = do n ← parse_int (strip x); ns ← parse_parts xs; ok (n ∷ ns)

-- The arguments that `_resolve_type` passes to the class, by the base name and the parameters.
unfoldable pub type_args : Text → Option Text → Result (List Arg)
unfolding collection_bases one_of text_eq
type_args base none = if one_of base collection_bases then ok (txt default_element ∷ []) else ok []
type_args base (some params) =
    if one_of base collection_bases
    then ok (txt params ∷ [])
    else if one_of base (codes "NUMERIC" ∷ codes "DECIMAL" ∷ [])
    then (do ns ← parse_parts (split b',' params); ok (map num ns))
    else if one_of base sized_bases
    then (do n ← parse_int params; ok (num n ∷ []))
    else if text_eq base (codes "ENUM")
    then ok (map txt (find_quoted none params))
    else if one_of base (codes "FLOAT" ∷ codes "REAL" ∷ [])
    then (do n ← parse_int params; ok (precision n ∷ []))
    else if text_eq base (codes "DOUBLE")
    then ok []
    else if one_of base (codes "BIT" ∷ codes "BIT VARYING" ∷ [])
    then (do n ← parse_int params; ok (num n ∷ []))
    else ok []

module _ (accepts : TypeClass → List Arg → Bool) where
  -- `type_cls(*args)`
  unfoldable pub construct : TypeClass → List Arg → Result SaType
  construct cls args = if accepts cls args then ok (instance_of cls args) else err type_error

  -- `except (ValueError, TypeError): return type_cls()`
  unfoldable pub or_default : TypeClass → Result SaType → Result SaType
  unfolding construct
  or_default cls (ok t) = ok t
  or_default cls (err value_error) = construct cls []
  or_default cls (err type_error) = construct cls []
  or_default cls (err e) = err e

  unfoldable pub resolve_type : Text → Result SaType
  unfolding construct or_default
  resolve_type type_str = elim (match_type type_str) [
    | none ↦ ok null_type
    | some (name, params) ↦
        let base = upper (strip name) in
        elim (lookup_type base type_map) [
          | none ↦ ok null_type
          | some cls ↦ or_default cls (do args ← type_args base params; construct cls args)
        ]
  ]

-- `_collection_keyword`
unfoldable pub collection_keyword : Kind → Text
collection_keyword cubrid_set = codes "SET"
collection_keyword cubrid_multiset = codes "MULTISET"
collection_keyword cubrid_list = codes "SEQUENCE"

-- `_CollectionType.get_col_spec`
unfoldable pub get_col_spec : Kind → Text → Text
unfolding collection_keyword
get_col_spec k element_type = collection_keyword k ++ (codes "_OF(" ++ (element_type ++ codes ")"))
