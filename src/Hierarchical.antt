-- ===== src/Hierarchical.antt =====
-- Hierarchical queries: `HierarchicalSelect` of sqlalchemy_cubrid/hierarchical.py and its rendering by
-- `CubridCompiler` of sqlalchemy_cubrid/compiler.py. What SQLAlchemy's `process` makes of an expression,
-- and the literal that it makes of a text, are parameters.
pub mod Clauses
pub mod ReadBack
use sqlalchemy_cubrid.Prelude.{
  Bool, Option, none, some, List, [], ◌∷◌, ◌++◌, map, Text, codes, join, Result, ok, err,
  attribute_error, if◌then◌else◌,
}

-- `HierarchicalSelect`; an absent list of siblings is the empty one.
pub record HierarchicalSelect (E : Type 0) : Type 0 where
  pub table : E
  pub columns : List E
  pub connect_by : Option E
  pub start_with : Option E
  pub where_condition : Option E
  pub order_siblings_by : List E
  pub nocycle : Bool

-- `columns or [table]`
abbrev pub columns_or : {E : Type 0} → E → Option (List E) → List E
columns_or table none = table ∷ []
columns_or table (some []) = table ∷ []
columns_or table (some (c ∷ cs)) = c ∷ cs

abbrev pub siblings_or : {E : Type 0} → Option (List E) → List E
siblings_or none = []
siblings_or (some es) = es

-- `HierarchicalSelect.__init__`
unfoldable pub hierarchical_select :
    {E : Type 0}
    → E
    → Option (List E)
    → Option E
    → Option E
    → Option E
    → Option (List E)
    → Bool
    → HierarchicalSelect E
hierarchical_select table columns connect_by start_with condition siblings nocycle = record {
  table = table;
  columns = columns_or table columns;
  connect_by = connect_by;
  start_with = start_with;
  where_condition = condition;
  order_siblings_by = siblings_or siblings;
  nocycle = nocycle;
}

-- The pseudo-columns and operators.
pub data Pseudo (E : Type 0) : Type 0 where
  level_col connect_by_isleaf connect_by_iscycle rownum : Pseudo E
  prior connect_by_root : E → Pseudo E
  sys_connect_by_path : E → Text → Pseudo E

module _ {E : Type 0} (process : E → Text) where
  -- `visit_level_col`, `visit_connect_by_isleaf`, `visit_connect_by_iscycle`, `visit_rownum`,
  -- `visit_prior`, `visit_connect_by_root` and `visit_sys_connect_by_path`
  unfoldable pub visit_pseudo : (Text → Text) → Pseudo E → Text
  visit_pseudo literal level_col = codes "LEVEL"
  visit_pseudo literal connect_by_isleaf = codes "CONNECT_BY_ISLEAF"
  visit_pseudo literal connect_by_iscycle = codes "CONNECT_BY_ISCYCLE"
  visit_pseudo literal rownum = codes "ROWNUM"
  visit_pseudo literal (prior e) = codes "PRIOR " ++ process e
  visit_pseudo literal (connect_by_root e) = codes "CONNECT_BY_ROOT " ++ process e
  visit_pseudo literal (sys_connect_by_path e separator) =
      codes "SYS_CONNECT_BY_PATH("
      ++ (process e ++ (codes ", " ++ (literal separator ++ codes ")")))

  -- A clause that may be absent.
  unfoldable pub clause_text : Text → Option E → Text
  clause_text keyword none = []
  clause_text keyword (some e) = keyword ++ process e

  unfoldable pub siblings_text : List E → Text
  unfolding join
  siblings_text [] = []
  siblings_text (e ∷ es) = codes " ORDER SIBLINGS BY " ++ join (codes ", ") (map process (e ∷ es))

  -- `visit_hierarchical_select`; the table is processed with `asfrom=True`. SQLAlchemy cannot
  -- process a condition that is missing.
  unfoldable pub visit_hierarchical_select : (E → Text) → HierarchicalSelect E → Result Text
  unfolding clause_text siblings_text join
  visit_hierarchical_select as_from e = elim e.connect_by [
    | none ↦ err attribute_error
    | some condition ↦ ok (
        codes "SELECT "
        ++ (join (codes ", ") (map process e.columns)
            ++ (codes " FROM "
                ++ (as_from e.table
                    ++ (clause_text (codes " WHERE ") e.where_condition
                        ++ (clause_text (codes " START WITH ") e.start_with
                            ++ (codes " CONNECT BY "
                                ++ ((if e.nocycle then codes "NOCYCLE " else [])
                                    ++ (process condition
                                        ++ siblings_text e.order_siblings_by)))))))))
  ]
