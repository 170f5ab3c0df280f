-- ===== src/Tests/Types.antt =====
-- `_resolve_type` of sqlalchemy_cubrid/dialect.py at type strings that CUBRID prints.
use sqlalchemy_cubrid.Prelude.{
  ◌≤◌, none, ◌↔◌, false, one_of, ℕ, ◌≡◌, refl, ◌⊎◌, Bool, true, Option, some, List, [], ◌∷◌, arith,
  Text, codes, pos, ok, show_nat, text_eq, upper, strip, parse_int, split,
}
use sqlalchemy_cubrid.Collection.Process.{cubrid_list, cubrid_set}
use sqlalchemy_cubrid.Resolve.{
  parse_parts, TypeClass, varchar, double, numeric, enum, integer, float, collection, Arg, num, txt,
  precision, SaType, null_type, instance_of, type_map, lookup_type, type_args, resolve_type,
  get_col_spec,
}
use sqlalchemy_cubrid.Resolve.Pattern.{match_type}
use sqlalchemy_cubrid.Resolve.Regular.{match_type-eq}
use sqlalchemy_cubrid.Resolve.TypeTail.{groups_of, type_pattern}
use sqlalchemy_cubrid.Regex.{match}
use sqlalchemy_cubrid.Resolve.Printed.{with_params, pair_text, enum_text}
use sqlalchemy_cubrid.Resolve.Laws.{
  resolve_type-with_params, resolve_type-get_col_spec, resolve_type-sized, resolve_type-numeric,
  resolve_type-enum,
}
use sqlalchemy_cubrid.TypeCompiler.{sql_nvarchar, sql_float, visit_type}
use sqlalchemy_cubrid.TypeCompiler.ReadBack.{
  reflected_class, reflected_args, resolve_type-visit_type,
}
use sqlalchemy_cubrid.Alembic.{compare_type}
use sqlalchemy_cubrid.Alembic.Migrate.{collection_of, compare_type_iff, compare_type-get_col_spec}
use sqlalchemy_cubrid.Ddl.{Column, get_column_specification, is_auto_increment, is_designated}
use sqlalchemy_cubrid.Ddl.AutoIncrement.{count_auto_increment, count_auto_increment_bound}
use sqlalchemy_cubrid.Resolve.Total.{resolve_type_total}

-- A library of types that takes every argument.
abbrev lenient : TypeClass → List Arg → Bool
lenient cls args = true

resolve_type-get_col_spec_example :
    resolve_type lenient (get_col_spec cubrid_list (codes "INTEGER"))
    ≡ ok (instance_of (collection cubrid_list) (txt (codes "INTEGER") ∷ []))
resolve_type-get_col_spec_example =
    resolve_type-get_col_spec lenient cubrid_list (codes "INTEGER") (cc) (omega arith) refl

resolve_type-sized_example :
    resolve_type lenient (with_params (codes "STRING") (show_nat 1073741823))
    ≡ ok (instance_of varchar (num (pos 1073741823) ∷ []))
resolve_type-sized_example =
    resolve_type-sized lenient (codes "STRING") 1073741823 varchar (unfold one_of text_eq in refl)
      (unfold lookup_type type_map text_eq in refl) refl

resolve_type-numeric_example :
    (resolve_type lenient (with_params (codes "NUMERIC") (pair_text 15 2))
      ≡ ok (instance_of numeric (num (pos 15) ∷ num (pos 2) ∷ [])))
    × (resolve_type lenient (with_params (codes "DECIMAL") (pair_text 15 2))
        ≡ ok (instance_of numeric (num (pos 15) ∷ num (pos 2) ∷ [])))
resolve_type-numeric_example = resolve_type-numeric lenient 15 2 refl

resolve_type-enum_example :
    resolve_type lenient (with_params (codes "ENUM") (enum_text (codes "a" ∷ codes "b, c" ∷ [])))
    ≡ ok (instance_of enum (txt (codes "a") ∷ txt (codes "b, c") ∷ []))
resolve_type-enum_example =
    resolve_type-enum lenient (codes "a") (codes "b, c" ∷ []) (omega arith) (omega arith) refl

resolve_type_total_example :
    (resolve_type lenient (codes "??") ≡ ok null_type)
    ⊎ ((name : Text) × (params : Option Text) × (cls : TypeClass) × (args : List Arg) × (match_type
            (codes "??")
          ≡ some (name, params))
        × (lookup_type (upper (strip name)) type_map ≡ some cls)
        × (resolve_type lenient (codes "??") ≡ ok (instance_of cls args)))
resolve_type_total_example = resolve_type_total lenient (λ cls. refl) (codes "??")

-- Lower case, spaces, nested brackets, unknown names, and a length that is no number.
resolved :
    (resolve_type lenient (codes "integer") ≡ ok (instance_of integer []))
    × (resolve_type lenient (codes "numeric(10, 3)")
        ≡ ok (instance_of numeric (num (pos 10) ∷ num (pos 3) ∷ [])))
    × (resolve_type lenient (codes "SET_OF(VARCHAR(50))")
        ≡ ok (instance_of (collection cubrid_set) (txt (codes "VARCHAR(50)") ∷ [])))
    × (resolve_type lenient (codes "FLOAT(7)") ≡ ok (instance_of float (precision (pos 7) ∷ [])))
    × (resolve_type lenient (codes "VARCHAR(abc)") ≡ ok (instance_of varchar []))
    × (resolve_type lenient (codes "GEOMETRY(1)") ≡ ok null_type)
unfolding resolve_type match_type upper strip lookup_type type_map type_args text_eq parse_parts
    parse_int split
resolved = (refl, refl, refl, refl, refl, refl)

-- `String(50)` for national characters, and a float of 10 digits.
resolve_type-visit_type_example :
    resolve_type lenient (visit_type (sql_nvarchar (some 50)))
    ≡ ok (
        instance_of
          (reflected_class (sql_nvarchar (some 50)))
          (reflected_args (sql_nvarchar (some 50))))
resolve_type-visit_type_example = resolve_type-visit_type lenient (sql_nvarchar (some 50)) refl

reflected_float : reflected_class (sql_float (some 10)) ≡ double
unfolding reflected_class
reflected_float = refl

compare_type_iff_example :
    (compare_type
        (λ s t. true)
        (collection_of cubrid_set (codes "varchar(10)"))
        (collection_of cubrid_set (codes " VARCHAR(10)"))
      ≡ false)
    ↔ ((cubrid_set ≡ cubrid_set)
        × (upper (strip (codes "varchar(10)")) ≡ upper (strip (codes " VARCHAR(10)"))))
compare_type_iff_example =
    compare_type_iff (λ s t. true) cubrid_set cubrid_set (codes "varchar(10)")
      (codes " VARCHAR(10)")

compare_type-get_col_spec_example :
    (t : SaType) × (resolve_type lenient (get_col_spec cubrid_list (codes "INTEGER")) ≡ ok t)
    × (compare_type (λ s u. true) t (collection_of cubrid_list (codes "integer")) ≡ false)
compare_type-get_col_spec_example =
    compare_type-get_col_spec lenient (λ s u. true) cubrid_list (codes "INTEGER") (codes "integer")
      (cc) (omega arith) refl (unfold upper strip in refl)

abbrev key_column : ℕ → Column
key_column i = record {
  id = i;
  name = codes "id";
  column_type = codes "INTEGER";
  has_sequence = false;
  primary_key = true;
  autoincrement_off = false;
  is_integer = true;
  has_server_default = false;
  has_identity = false;
  default = none;
  nullable = false;
  comment = none;
}

-- A primary key of two columns, the second one designated.
count_auto_increment_bound_example :
    count_auto_increment (some 1) (key_column 0 ∷ key_column 1 ∷ []) ≤ 1
count_auto_increment_bound_example =
    count_auto_increment_bound (some 1) (key_column 0 ∷ key_column 1 ∷ []) (omega arith)

written :
    get_column_specification (some (some 1)) (key_column 1)
    ≡ codes "id INTEGER AUTO_INCREMENT NOT NULL"
unfolding get_column_specification is_auto_increment is_designated
written = refl

match_type-eq_example :
    match_type (codes "NUMERIC(15, 2)") ≡ groups_of (match type_pattern (codes "NUMERIC(15, 2)"))
match_type-eq_example = match_type-eq (codes "NUMERIC(15, 2)")

resolve_type-with_params_example :
    (resolve_type lenient (with_params (codes "STRING") (show_nat 20))
      ≡ ok (instance_of varchar (num (pos 20) ∷ [])))
    × (resolve_type lenient (with_params (codes "NUMERIC") (pair_text 15 2))
        ≡ ok (instance_of numeric (num (pos 15) ∷ num (pos 2) ∷ [])))
    × (resolve_type lenient (with_params (codes "DECIMAL") (pair_text 15 2))
        ≡ ok (instance_of numeric (num (pos 15) ∷ num (pos 2) ∷ [])))
    × (resolve_type lenient (with_params (codes "ENUM") (enum_text (codes "a" ∷ codes "b, c" ∷ [])))
        ≡ ok (instance_of enum (txt (codes "a") ∷ txt (codes "b, c") ∷ [])))
resolve_type-with_params_example =
    resolve_type-with_params lenient (codes "STRING") 20 varchar 15 2 (codes "a")
      (codes "b, c" ∷ []) (unfold one_of text_eq in refl)
      (unfold lookup_type type_map text_eq in refl) refl refl (omega arith) (omega arith) refl
