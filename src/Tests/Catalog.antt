-- ===== src/Tests/Catalog.antt =====
-- Reflection and disconnect detection, at concrete rows and exceptions.
use sqlalchemy_cubrid.Prelude.{
  refl, no_such_table, err, inr, database_error, Result, Bool, [], negsuc, ◌∷◌, some, none, map,
  codes, ok, ◌↔◌, Option, Text, List, true, false, ◌≡◌,
}
use sqlalchemy_cubrid.Prelude.Dict.{set_item, upsert, lookup, keys, values, IsUnique}
use sqlalchemy_cubrid.Resolve.{TypeClass, Arg}
use sqlalchemy_cubrid.Reflect.Columns.{ColumnRow, ColumnInfo, get_columns}
use sqlalchemy_cubrid.Reflect.Columns.Laws.{Describes, get_columns_total}
use sqlalchemy_cubrid.Reflect.Cached.{
  Cache, cached, store, any_named, indexes_or_none, answer_fresh, has_index,
}
use sqlalchemy_cubrid.Reflect.Cached.Laws.{has_index-again}
use sqlalchemy_cubrid.Disconnect.{object, int, Exc, is_disconnect, Reason, is_disconnect_iff}
use sqlalchemy_cubrid.Reflect.Constraints.{
  IndexRow, Index, UniqueConstraint, get_indexes, get_unique_constraints, get_pk_constraint,
}
use sqlalchemy_cubrid.Reflect.Constraints.Laws.{
  get_indexes-lookup, get_unique_constraints-lookup, get_pk_constraint-eq, rows_of, index_of,
  constraint_of, last_name,
}

abbrev key_row : Text → Text → Option Text → IndexRow
key_row name column order = record {
  index_name = name;
  is_unique = codes "YES";
  is_reverse = codes "NO";
  filter_expression = none;
  have_function = codes "NO";
  key_attr_name = some column;
  asc_desc = order;
  func = none;
}

abbrev rows : List IndexRow
rows =
    key_row (codes "u_ab") (codes "a") (some (codes "ASC"))
    ∷ key_row (codes "u_c") (codes "c") none
    ∷ key_row (codes "u_ab") (codes "b") (some (codes "DESC"))
    ∷ []

get_indexes-lookup_example :
    (m : List (Text × Index)) × (get_indexes true rows ≡ ok (values m))
    × IsUnique (keys m)
    × ((k : Text) → lookup k m ≡ index_of (rows_of k rows))
get_indexes-lookup_example = get_indexes-lookup rows

get_unique_constraints-lookup_example :
    (m : List (Text × UniqueConstraint)) × (get_unique_constraints true rows ≡ ok (values m))
    × IsUnique (keys m)
    × ((k : Text) → lookup k m ≡ constraint_of (rows_of k rows))
get_unique_constraints-lookup_example = get_unique_constraints-lookup rows

get_pk_constraint-eq_example :
    get_pk_constraint true rows
    ≡ ok (record {
      constrained_columns = map (λ r. r.key_attr_name) rows;
      name = last_name none rows;
    })
get_pk_constraint-eq_example = get_pk_constraint-eq rows

-- `OperationalError(-21003, "Connection refused")`
abbrev refused : Exc
refused = record {
  is_interface_error = false;
  is_operational_error = true;
  message = codes "(-21003, 'Connection refused')";
  args = int (negsuc 21002) ∷ object ∷ [];
}

is_disconnect_iff_example : (is_disconnect refused ≡ true) ↔ Reason refused
is_disconnect_iff_example = is_disconnect_iff refused

abbrev people_rows : List ColumnRow
people_rows =
    record {
      field = codes "id";
      type_text = codes "INTEGER";
      null = codes "NO";
      default = none;
      extra = some (codes "auto_increment");
    }
    ∷ record {
      field = codes "name";
      type_text = codes "VARCHAR(50)";
      null = codes "YES";
      default = some (codes "x");
      extra = none;
    }
    ∷ []

abbrev people_comments : List (Text × Option Text)
people_comments = (codes "id", some []) ∷ (codes "name", some (codes "full name")) ∷ []

-- A library of types that takes every argument.
abbrev all_accepted : TypeClass → List Arg → Bool
all_accepted cls args = true

-- The connection breaks behind the second comment.
get_columns_total_example :
    (infos : List ColumnInfo) × (get_columns all_accepted
        (ok (people_rows, none))
        (people_comments, some database_error)
      ≡ ok infos)
    × Describes all_accepted people_comments people_rows infos
get_columns_total_example =
    get_columns_total all_accepted (λ cls. refl) people_rows people_comments (some database_error)
      (inr refl)

-- A table that is missing.
abbrev missing : Cache (List Index) → Result (List Index) × Cache (List Index)
missing c = (err no_such_table, c)

has_index-again_example :
    (is : List Index) × (false ≡ any_named (codes "u_ab") is)
    × ((later : Cache (List Index) → Result (List Index) × Cache (List Index)) (other : Text)
        → has_index later (codes "people") other (some ((codes "people", []) ∷ []))
          ≡ (ok (any_named other is), some ((codes "people", []) ∷ [])))
has_index-again_example =
    has_index-again missing (codes "people") (codes "u_ab") (some []) false
      (some ((codes "people", []) ∷ [])) refl
      (unfold has_index cached lookup indexes_or_none answer_fresh any_named store set_item
          upsert in
        refl)
