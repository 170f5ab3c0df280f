-- ===== src/TypeCompiler/ReadBack.antt =====
-- Reflection of the types that the type compiler of sqlalchemy_cubrid/compiler.py writes.
use sqlalchemy_cubrid.Prelude.{
  ℕ, zero, suc, ◌≡◌, refl, ◌∙◌, Bool, true, false, Option, none, some, List, [], ◌∷◌, Text, codes,
  text_eq, one_of, upper, strip, pos, parse_int, ok, ltb, if◌then◌else◌,
}
use sqlalchemy_cubrid.Resolve.{
  TypeClass, smallint, varchar, char, date, time, datetime, timestamp, blob, clob, large_binary,
  float, double, json, Arg, num, instance_of, type_map, lookup_type, type_args, sized_bases,
  construct, or_default, resolve_type,
}
use sqlalchemy_cubrid.Resolve.Pattern.{match_type}
use sqlalchemy_cubrid.Resolve.Laws.{resolve_type-sized}
use sqlalchemy_cubrid.TypeCompiler.{
  SqlType, sql_boolean, sql_text, sql_unicode_text, sql_datetime, sql_timestamp, sql_date, sql_time,
  sql_blob, sql_clob, sql_large_binary, sql_float, sql_double, sql_double_precision, sql_json,
  sql_nchar, sql_nvarchar, sql_unicode, with_length, visit_float, visit_type,
}

-- The class that a type is reflected as.
unfoldable pub reflected_class : SqlType → TypeClass
reflected_class sql_boolean = smallint
reflected_class sql_text = varchar
reflected_class sql_unicode_text = varchar
reflected_class sql_datetime = datetime
reflected_class sql_timestamp = timestamp
reflected_class sql_date = date
reflected_class sql_time = time
reflected_class sql_blob = blob
reflected_class sql_clob = clob
reflected_class sql_large_binary = large_binary
reflected_class (sql_float none) = double
reflected_class (sql_float (some p)) = if ltb 7 p then double else float
reflected_class sql_double = double
reflected_class sql_double_precision = double
reflected_class sql_json = json
reflected_class (sql_nchar n) = char
reflected_class (sql_nvarchar n) = varchar
reflected_class (sql_unicode n) = varchar

-- A length of 0 is none.
abbrev pub length_args : Option ℕ → List Arg
length_args none = []
length_args (some zero) = []
length_args (some (suc n)) = num (pos (suc n)) ∷ []

abbrev pub reflected_args : SqlType → List Arg
reflected_args sql_large_binary = num (pos 1073741823) ∷ []
reflected_args (sql_nchar n) = length_args n
reflected_args (sql_nvarchar n) = length_args n
reflected_args (sql_unicode n) = length_args n
reflected_args _ = []

module _ (accepts : TypeClass → List Arg → Bool) where
  resolve-with_length :
      (name : Text) (cls : TypeClass) (n : Option ℕ)
      → one_of name sized_bases ≡ true
      → lookup_type name type_map ≡ some cls
      → resolve_type accepts name ≡ or_default accepts cls (construct accepts cls [])
      → accepts cls (length_args n) ≡ true
      → resolve_type accepts (with_length name n) ≡ ok (instance_of cls (length_args n))
  unfolding with_length or_default
  resolve-with_length name cls none listed found bare a = bare ∙ rw a refl
  resolve-with_length name cls (some zero) listed found bare a = bare ∙ rw a refl
  resolve-with_length name cls (some (suc n)) listed found bare a =
      resolve_type-sized accepts name (suc n) cls listed found a

  resolve-double_or_float :
      (b : Bool)
      → accepts (if b then double else float) [] ≡ true
      → resolve_type accepts (if b then codes "DOUBLE" else codes "FLOAT")
        ≡ ok (instance_of (if b then double else float) [])
  unfolding resolve_type match_type upper strip lookup_type type_map type_args text_eq one_of
      or_default
  resolve-double_or_float true a = rw a refl
  resolve-double_or_float false a = rw a refl

  resolve-visit_float :
      (p : Option ℕ)
      → accepts (reflected_class (sql_float p)) [] ≡ true
      → resolve_type accepts (visit_float p) ≡ ok (instance_of (reflected_class (sql_float p)) [])
  unfolding visit_float reflected_class
  resolve-visit_float none a = resolve-double_or_float true a
  resolve-visit_float (some p) a = resolve-double_or_float (ltb 7 p) a

  -- Each type that the type compiler writes is reflected, never as `NullType`: as the class that
  -- stands for it, with its length if it has one, as far as that class accepts the arguments.
  pub resolve_type-visit_type :
      (t : SqlType)
      → accepts (reflected_class t) (reflected_args t) ≡ true
      → resolve_type accepts (visit_type t)
        ≡ ok (instance_of (reflected_class t) (reflected_args t))
  unfolding visit_type reflected_class resolve_type match_type upper strip lookup_type type_map
      type_args text_eq one_of or_default parse_int
  resolve_type-visit_type sql_boolean a = rw a refl
  resolve_type-visit_type sql_text a = rw a refl
  resolve_type-visit_type sql_unicode_text a = rw a refl
  resolve_type-visit_type sql_datetime a = rw a refl
  resolve_type-visit_type sql_timestamp a = rw a refl
  resolve_type-visit_type sql_date a = rw a refl
  resolve_type-visit_type sql_time a = rw a refl
  resolve_type-visit_type sql_blob a = rw a refl
  resolve_type-visit_type sql_clob a = rw a refl
  resolve_type-visit_type sql_large_binary a = rw a refl
  resolve_type-visit_type (sql_float p) a = resolve-visit_float p a
  resolve_type-visit_type sql_double a = rw a refl
  resolve_type-visit_type sql_double_precision a = rw a refl
  resolve_type-visit_type sql_json a = rw a refl
  resolve_type-visit_type (sql_nchar n) a =
      resolve-with_length (codes "CHAR") char n refl refl refl a
  resolve_type-visit_type (sql_nvarchar n) a =
      resolve-with_length (codes "VARCHAR") varchar n refl refl refl a
  resolve_type-visit_type (sql_unicode n) a =
      resolve-with_length (codes "VARCHAR") varchar n refl refl refl a
