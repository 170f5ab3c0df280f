-- ===== src/Requirements.antt =====
-- The capabilities that sqlalchemy_cubrid/requirements.py declares to SQLAlchemy's test suite, and
-- the arguments of temporary tables in sqlalchemy_cubrid/provision.py.
pub mod Laws
use sqlalchemy_cubrid.Prelude.Dict.{lookup, dict_of}
use sqlalchemy_cubrid.Prelude.{
  Bool, true, false, Option, none, some, List, [], ◌∷◌, ◌++◌, Text, codes,
}

-- The properties under "Features CUBRID supports", in their order: their names, and whether they return
-- `exclusions.open()`.
abbrev pub supported : List (Text × Bool)
supported =
    (codes "foreign_keys", true)
    ∷ (codes "self_referential_foreign_keys", true)
    ∷ (codes "on_update_cascade", true)
    ∷ (codes "subqueries", true)
    ∷ (codes "offset", true)
    ∷ (codes "window_functions", true)
    ∷ (codes "window_functions_rows_between", false)
    ∷ (codes "ctes", true)
    ∷ (codes "views", true)
    ∷ (codes "sequences", true)
    ∷ (codes "has_sequence", true)
    ∷ (codes "sequences_as_server_defaults", false)
    ∷ (codes "implements_get_lastrowid", true)
    ∷ (codes "table_ddl_if_exists", true)
    ∷ (codes "json_type", true)
    ∷ []

-- The properties under "Features CUBRID does NOT support", up to `savepoints`.
abbrev pub unsupported : List (Text × Bool)
unsupported =
    (codes "returning", false)
    ∷ (codes "insert_returning", false)
    ∷ (codes "update_returning", false)
    ∷ (codes "delete_returning", false)
    ∷ (codes "schemas", false)
    ∷ (codes "temp_table", false)
    ∷ (codes "temporary_tables", false)
    ∷ (codes "temporary_views", false)
    ∷ (codes "temp_table_reflection", false)
    ∷ (codes "has_temp_table", false)
    ∷ (codes "uuid_data_type", false)
    ∷ (codes "array_type", false)
    ∷ (codes "datetime_microseconds", false)
    ∷ (codes "timestamp_microseconds", false)
    ∷ (codes "time_microseconds", false)
    ∷ (codes "duplicate_key_raises_integrity_error", true)
    ∷ (codes "nullable_booleans", true)
    ∷ (codes "empty_strings_varchar", true)
    ∷ (codes "savepoints", true)
    ∷ []

-- From `savepoints_w_release` to `sane_multi_rowcount`.
abbrev pub transactions_and_reflection : List (Text × Bool)
transactions_and_reflection =
    (codes "savepoints_w_release", false)
    ∷ (codes "deferrable_fks", false)
    ∷ (codes "comment_reflection", true)
    ∷ (codes "cross_schema_fk_reflection", false)
    ∷ (codes "index_ddl_if_exists", false)
    ∷ (codes "reflects_pk_names", true)
    ∷ (codes "unique_constraint_reflection", true)
    ∷ (codes "unique_constraints_reflect_as_index", true)
    ∷ (codes "unique_index_reflect_as_unique_constraints", true)
    ∷ (codes "server_side_cursors", false)
    ∷ (codes "independent_connections", true)
    ∷ (codes "autocommit", true)
    ∷ (codes "autocommit_isolation", true)
    ∷ (codes "isolation_level", true)
    ∷ (codes "sane_rowcount", true)
    ∷ (codes "sane_multi_rowcount", true)
    ∷ []

-- From `empty_inserts` to the end.
abbrev pub statements_and_values : List (Text × Bool)
statements_and_values =
    (codes "empty_inserts", false)
    ∷ (codes "insert_from_select", true)
    ∷ (codes "tuple_in", true)
    ∷ (codes "order_by_col_from_union", true)
    ∷ (codes "mod_operator_as_percent_sign", false)
    ∷ (codes "intersect", true)
    ∷ (codes "except_", true)
    ∷ (codes "literal_float_coercion", true)
    ∷ (codes "precision_numerics_enotation_large", false)
    ∷ (codes "precision_numerics_enotation_small", false)
    ∷ (codes "precision_numerics_many_significant_digits", false)
    ∷ (codes "precision_numerics_retains_significant_digits", false)
    ∷ (codes "precision_numerics_general", true)
    ∷ (codes "implicit_decimal_binds", true)
    ∷ (codes "precision_generic_float_type", true)
    ∷ (codes "floats_to_four_decimals", true)
    ∷ (codes "float_is_numeric", true)
    ∷ (codes "like_escapes", true)
    ∷ (codes "fetch_rows_post_commit", true)
    ∷ (codes "supports_is_distinct_from", false)
    ∷ (codes "symbol_names_w_double_quote", false)
    ∷ (codes "unnamed_constraints", true)
    ∷ (codes "implicitly_named_constraints", true)
    ∷ []

-- The body of the class `Requirements`.
abbrev pub declared : List (Text × Bool)
declared = supported ++ (unsupported ++ (transactions_and_reflection ++ statements_and_values))

abbrev pub declared_or : Bool → Option Bool → Bool
declared_or base none = base
declared_or base (some b) = b

-- Whether a requirement is open: the class's own property, or else that of `SuiteRequirements`.
unfoldable pub requirement : (Text → Bool) → Text → Bool
unfolding lookup dict_of
requirement base name = declared_or (base name) (lookup name (dict_of declared))

-- `_cubrid_create_db` and `_cubrid_drop_db` of sqlalchemy_cubrid/provision.py leave the databases as they
-- are.
unfoldable pub create_db : {S : Type 0} → Text → S → S
create_db ident databases = databases

unfoldable pub drop_db : {S : Type 0} → Text → S → S
drop_db ident databases = databases

-- `_cubrid_temp_table_keyword_args` of sqlalchemy_cubrid/provision.py
unfoldable pub temp_table_keyword_args : List (Text × Text)
temp_table_keyword_args = []
