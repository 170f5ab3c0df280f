-- ===== src/Tests/Indexes.antt =====
-- Indexes of a catalog at concrete rows, from sqlalchemy_cubrid/dialect.py to
-- sqlalchemy_cubrid/compiler.py and back, and what a server's version turns on.
use sqlalchemy_cubrid.Ddl.{post_create_table}
use sqlalchemy_cubrid.Ddl.ByVersion.{known_version, post_create_table-print_version}
use sqlalchemy_cubrid.Reflect.Groups.{groups}
use sqlalchemy_cubrid.Ddl.Indexes.{indexed}
use sqlalchemy_cubrid.Prelude.Dict.{values, lookup, keys}
use sqlalchemy_cubrid.Reflect.Constraints.{
  set_sorting, row_sorting, IndexRow, Index, row_options, get_indexes, get_unique_constraints,
}
use sqlalchemy_cubrid.Reflect.Constraints.Unique.{
  CatalogRow, index_rows, unique_rows, unique_part, get_unique_constraints-get_indexes,
}
use sqlalchemy_cubrid.Setup.{Argument}
use sqlalchemy_cubrid.Reflect.Constraints.Laws.{index_of, rows_of, sorting_of}
use sqlalchemy_cubrid.Setup.Recreate.{
  Constructs, IsDeclared, or_declared, column_order, IsRecreated, read-get_indexes,
}
use sqlalchemy_cubrid.Sql.Groups.{balanced}
use sqlalchemy_cubrid.Version.{serial_attr_column}
use sqlalchemy_cubrid.Version.Laws.{print_version}
use sqlalchemy_cubrid.Tests.Quoting.{sometimes}
use sqlalchemy_cubrid.Prelude.{
  lower, upper, false, ◌≡◌, refl, Bool, true, ◌&&◌, not, Option, none, some, List, [], ◌∷◌, ◌++◌,
  map, All, Text, codes, text_eq, one_of, Result, ok, err, argument_error, arith, if◌then◌else◌,
}

abbrev index_row : Text → Text → Text → Option Text → IndexRow
index_row name unique column filter = record {
  index_name = name;
  is_unique = unique;
  is_reverse = codes "YES";
  filter_expression = filter;
  have_function = codes "NO";
  key_attr_name = some column;
  asc_desc = some (codes "ASC");
  func = none;
}

-- The primary key, a unique index on two columns and a plain one with a filter.
abbrev catalog : List CatalogRow
catalog =
    record {
      row = index_row (codes "pk") (codes "YES") (codes "id") none;
      is_primary_key = codes "YES";
      is_foreign_key = codes "NO";
    }
    ∷ record {
      row = index_row (codes "u_ab") (codes "YES") (codes "a") none;
      is_primary_key = codes "NO";
      is_foreign_key = codes "NO";
    }
    ∷ record {
      row = index_row (codes "u_ab") (codes "YES") (codes "b") none;
      is_primary_key = codes "NO";
      is_foreign_key = codes "NO";
    }
    ∷ record {
      row = index_row (codes "i_c") (codes "NO") (codes "c") (some (codes "c > 0"));
      is_primary_key = codes "NO";
      is_foreign_key = codes "NO";
    }
    ∷ []

-- Which of its indexes are unique.
abbrev unique_name : Text → Bool
unique_name k = not (text_eq k (codes "i_c"))

get_unique_constraints-get_indexes_example :
    (is : List Index) × (get_indexes true (index_rows catalog) ≡ ok is)
    × (get_unique_constraints true (unique_rows catalog) ≡ ok (unique_part is))
get_unique_constraints-get_indexes_example =
    get_unique_constraints-get_indexes unique_name catalog
      (unfold text_eq in (refl, (refl, (refl, (refl, tt)))))

one_unique :
    get_unique_constraints true (unique_rows catalog)
    ≡ ok (
        record {
          name = codes "u_ab";
          column_names = some (codes "a") ∷ some (codes "b") ∷ [];
          duplicates_index = codes "u_ab";
        }
        ∷ [])
unfolding get_unique_constraints unique_rows text_eq groups
one_unique = refl

-- SQLAlchemy's check of a construct's arguments.
unfoldable are_declared : List (Text × Argument) → List (Text × Argument) → Bool
are_declared declared [] = true
are_declared declared (e ∷ given) =
    one_of e.0 (map (λ k. codes "cubrid_" ++ k) (keys declared)) && are_declared declared given

one_of-prefix :
    (k : Text) (ks : List Text)
    → one_of k ks ≡ true
    → one_of (codes "cubrid_" ++ k) (map (λ j. codes "cubrid_" ++ j) ks) ≡ true
unfolding one_of text_eq
one_of-prefix k [] h = h
one_of-prefix k (j ∷ ks) h = ground (arith, one_of-prefix k ks)

are_declared-IsDeclared :
    (declared given : List (Text × Argument))
    → All (IsDeclared declared) given
    → are_declared declared given ≡ true
unfolding are_declared
are_declared-IsDeclared declared [] h = refl
are_declared-IsDeclared declared (e ∷ given) ((k, p, m), h) =
    rw (p, one_of-prefix k (keys declared) m) (are_declared-IsDeclared declared given h)

unfoldable checked_options :
    List (Text × Argument) → List (Text × Argument) → Result (Text → Option Argument)
checked_options declared given =
    if are_declared declared given
    then ok (λ k. or_declared (lookup (codes "cubrid_" ++ k) given) (lookup k declared))
    else err argument_error

abbrev checked : Constructs
checked = record {
  dialect_options = checked_options;
  accepts_declared = λ declared given h. (
    λ k. or_declared (lookup (codes "cubrid_" ++ k) given) (lookup k declared),
    unfold checked_options in rw (are_declared-IsDeclared declared given h) refl,
    λ k. refl,
  );
}

-- Two columns, the second from the last on, with a filter.
abbrev sorted_rows : List IndexRow
sorted_rows =
    index_row (codes "i_ab") (codes "NO") (codes "a") (some (codes "a > 0"))
    ∷ record (index_row (codes "i_ab") (codes "NO") (codes "b") (some (codes "a > 0"))) {
      asc_desc = some (codes "DESC");
    }
    ∷ []

abbrev sorted_index : Index
sorted_index = record {
  name = codes "i_ab";
  unique = false;
  column_names = some (codes "a") ∷ some (codes "b") ∷ [];
  column_sorting = (some (codes "b"), codes "desc") ∷ [];
  dialect_options = record { reverse = true; filtered = some (codes "a > 0"); function = none };
}

-- "a", or "a DESC"
abbrev render : Option Text → Option Text → Text
render none order = []
render (some column) none = column
render (some column) (some order) = column ++ (codes " " ++ upper order)

read-get_indexes_example :
    (m : List (Text × Index)) × (get_indexes true sorted_rows ≡ ok (values m))
    × (lookup (codes "i_ab") m ≡ some sorted_index)
    × IsRecreated checked sometimes render (codes "t") sorted_index
read-get_indexes_example =
    read-get_indexes checked sometimes render (codes "t") sorted_rows (codes "i_ab") sorted_index
      (unfold index_of rows_of row_options row_sorting set_sorting sorting_of upper lower text_eq in
        refl)
      (unfold balanced indexed column_order text_eq upper in refl)

post_create_table-print_version_example :
    (post_create_table true (known_version (print_version (11 ∷ 2 ∷ 0 ∷ []) (codes "-beta"))) none
      ≡ codes " DONT_REUSE_OID")
    × (serial_attr_column (known_version (print_version (11 ∷ 2 ∷ 0 ∷ []) (codes "-beta")))
        ≡ codes "att_name")
post_create_table-print_version_example =
    post_create_table-print_version 11 2 (0 ∷ []) (codes "-beta") true none (refl, omega arith)
