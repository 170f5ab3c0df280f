-- ===== src/TypeCompiler.antt =====
-- `CubridTypeCompiler` of sqlalchemy_cubrid/compiler.py: the DDL name of each SQLAlchemy type that it
-- has a method for, except that of an OID reference, which is the name of the class.
pub mod ReadBack
use sqlalchemy_cubrid.Prelude.{
  ℕ, zero, suc, Option, none, some, ◌++◌, Text, codes, show_nat, ltb, if◌then◌else◌,
}

-- The types, with the attributes that the methods read.
pub data SqlType : Type 0 where
  sql_boolean sql_text sql_unicode_text : SqlType
  sql_datetime sql_timestamp sql_date sql_time : SqlType
  sql_blob sql_clob sql_large_binary : SqlType
  sql_float : Option ℕ → SqlType
  sql_double sql_double_precision sql_json : SqlType
  sql_nchar sql_nvarchar sql_unicode : Option ℕ → SqlType

-- `if type_.length: return "NAME(%d)" % type_.length`
unfoldable pub with_length : Text → Option ℕ → Text
with_length name none = name
with_length name (some zero) = name
with_length name (some (suc n)) = name ++ (codes "(" ++ (show_nat (suc n) ++ codes ")"))

-- `visit_FLOAT`
unfoldable pub visit_float : Option ℕ → Text
visit_float none = codes "DOUBLE"
visit_float (some p) = if ltb 7 p then codes "DOUBLE" else codes "FLOAT"

-- The methods `visit_BOOLEAN` to `visit_unicode_text`.
unfoldable pub visit_type : SqlType → Text
unfolding with_length visit_float
visit_type sql_boolean = codes "SMALLINT"
visit_type sql_text = codes "STRING"
visit_type sql_unicode_text = codes "STRING"
visit_type sql_datetime = codes "DATETIME"
visit_type sql_timestamp = codes "TIMESTAMP"
visit_type sql_date = codes "DATE"
visit_type sql_time = codes "TIME"
visit_type sql_blob = codes "BLOB"
visit_type sql_clob = codes "CLOB"
visit_type sql_large_binary = codes "BIT VARYING(1073741823)"
visit_type (sql_float p) = visit_float p
visit_type sql_double = codes "DOUBLE"
visit_type sql_double_precision = codes "DOUBLE"
visit_type sql_json = codes "JSON"
visit_type (sql_nchar n) = with_length (codes "CHAR") n
visit_type (sql_nvarchar n) = with_length (codes "VARCHAR") n
visit_type (sql_unicode n) = with_length (codes "VARCHAR") n
