-- ===== src/Setup.antt =====
-- What `CubridDialect` of sqlalchemy_cubrid/dialect.py declares to SQLAlchemy: its class attributes, the
-- serializers that `__init__` keeps, and the dialect's arguments of tables and indexes.
pub mod Recreate
use sqlalchemy_cubrid.Prelude.{ℕ, Bool, true, false, Option, none, some, List, [], ◌∷◌, Text, codes}

-- The attributes that are plain values.
pub record Attributes : Type 0 where
  pub name : Text
  pub driver : Text
  pub supports_statement_cache : Bool
  pub supports_sequences : Bool
  pub sequences_optional : Bool
  pub default_sequence_base : ℕ
  pub supports_savepoints : Bool
  pub insert_returning : Bool
  pub update_returning : Bool
  pub delete_returning : Bool
  pub default_paramstyle : Text
  pub supports_native_decimal : Bool

unfoldable pub attributes : Attributes
attributes = record {
  name = codes "cubrid";
  driver = codes "pycubrid";
  supports_statement_cache = true;
  supports_sequences = true;
  sequences_optional = false;
  default_sequence_base = 1;
  supports_savepoints = true;
  insert_returning = false;
  update_returning = false;
  delete_returning = false;
  default_paramstyle = codes "qmark";
  supports_native_decimal = true;
}

-- `_json_serializer` and `_json_deserializer`
pub record Json (S D : Type 0) : Type 0 where
  pub serializer : S
  pub deserializer : D

abbrev given_or : {A : Type 0} → A → Option A → A
given_or default none = default
given_or default (some a) = a

-- `__init__`, from the class's own serializers.
unfoldable pub init_json : {S D : Type 0} → Json S D → Option S → Option D → Json S D
init_json own serializer deserializer = record {
  serializer = given_or own.serializer serializer;
  deserializer = given_or own.deserializer deserializer;
}

-- The value of a dialect's argument.
pub data Argument : Type 0 where
  absent : Argument
  flag : Bool → Argument
  expression : Text → Argument

-- `construct_arguments`, for `Table` and for `Index`
unfoldable pub table_arguments : List (Text × Argument)
table_arguments = (codes "dont_reuse_oid", flag false) ∷ []

unfoldable pub index_arguments : List (Text × Argument)
index_arguments =
    (codes "reverse", flag false) ∷ (codes "filtered", absent) ∷ (codes "function", absent) ∷ []

-- `if value:`
unfoldable pub is_truthy : Argument → Bool
is_truthy absent = false
is_truthy (flag b) = b
is_truthy (expression []) = false
is_truthy (expression (c ∷ s)) = true

-- `do_release_savepoint`: the statements that it sends.
unfoldable pub do_release_savepoint : Text → List Text
do_release_savepoint name = []
