-- ===== src/Oid.antt =====
-- OID references of sqlalchemy_cubrid/oid.py: the type of a reference, paths of `deref`, and the table
-- that can be referred to. `quote_identifier` and the column specifications are parameters.
pub mod Laws
use sqlalchemy_cubrid.Version.{tuple_ge}
use sqlalchemy_cubrid.Prelude.{
  ℕ, Option, none, some, List, [], ◌∷◌, ◌++◌, map, Text, codes, join, if◌then◌else◌,
}

-- `CubridOID`, by the name of its class.
pub record CubridOid : Type 0 where
  pub class_name : Text

-- `get_col_spec`
unfoldable pub oid_col_spec : CubridOid → Text
oid_col_spec t = t.class_name

-- `bind_processor` and `result_processor`
unfoldable pub process_oid : {V : Type 0} → Option V → Option V
process_oid none = none
process_oid (some v) = some v

-- A column, or the attribute of the object that a path refers to (`OIDDeref`).
pub data OidPath : Type 0 where
  column : Text → OidPath
  deref : OidPath → Text → OidPath

-- `visit_oid_deref`, all the way down to the column.
unfoldable pub visit_oid_deref : OidPath → Text
visit_oid_deref (column c) = c
visit_oid_deref (deref p attr_name) = visit_oid_deref p ++ b'.' ∷ attr_name

-- `CreateTableDontReuseOID`
pub record CreateTableDontReuseOid (C : Type 0) : Type 0 where
  pub name : Text
  pub columns : List C

-- `visit_create_table_dont_reuse_oid`
unfoldable pub visit_create_table_dont_reuse_oid :
    {C : Type 0} → (Text → Text) → (C → Text) → List ℕ → CreateTableDontReuseOid C → Text
unfolding tuple_ge join
visit_create_table_dont_reuse_oid quote_identifier get_column_specification version e =
    let suffix = if tuple_ge version (11 ∷ 0 ∷ []) then codes " DONT_REUSE_OID" else [] in
    codes "CREATE TABLE "
    ++ (quote_identifier e.name
        ++ (codes " ("
            ++ (join (codes ", ") (map get_column_specification e.columns)
                ++ (codes ")" ++ suffix))))
