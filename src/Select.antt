-- ===== src/Select.antt =====
-- The clauses that `CubridCompiler` of sqlalchemy_cubrid/compiler.py writes itself: LIMIT and OFFSET,
-- FOR UPDATE, the keywords of set operations, CAST, REGEXP and the next value of a serial. What
-- SQLAlchemy's `process` makes of an expression is a parameter.
pub mod Window
use sqlalchemy_cubrid.Prelude.{
  ℕ, Bool, true, false, Option, none, some, List, [], ◌∷◌, ◌++◌, map, Text, codes, join,
}

-- `compound_keywords`
pub data CompoundKeyword : Type 0 where
  union union_all except except_all intersect intersect_all : CompoundKeyword

unfoldable pub compound_keywords : CompoundKeyword → Text
compound_keywords union = codes "UNION"
compound_keywords union_all = codes "UNION ALL"
compound_keywords except = codes "DIFFERENCE"
compound_keywords except_all = codes "DIFFERENCE ALL"
compound_keywords intersect = codes "INTERSECTION"
compound_keywords intersect_all = codes "INTERSECTION ALL"

-- `select._for_update_arg`: its `read`, and its `of`, which may be absent or empty.
pub record ForUpdate (E : Type 0) : Type 0 where
  pub read : Bool
  pub columns : List E

module _ {E : Type 0} (process : E → Text) where
  -- "LIMIT", if there is a limit or an offset
  unfoldable pub limit_part : Option E → Option E → Text
  limit_part none none = []
  limit_part none (some o) = codes "\n LIMIT 9999999999"
  limit_part (some l) o = codes "\n LIMIT " ++ process l

  unfoldable pub offset_part : Option E → Text
  offset_part none = []
  offset_part (some o) = codes " OFFSET " ++ process o

  -- `limit_clause`
  unfoldable pub limit_clause : Option E → Option E → Text
  unfolding limit_part offset_part
  limit_clause limit offset = limit_part limit offset ++ offset_part offset

  -- " OF …", if there are columns
  unfoldable pub of_part : List E → Text
  unfolding join
  of_part [] = []
  of_part (c ∷ cs) = codes " OF " ++ join (codes ", ") (map process (c ∷ cs))

  -- `for_update_clause`
  unfoldable pub for_update_clause : Option (ForUpdate E) → Text
  unfolding of_part
  for_update_clause none = []
  for_update_clause (some f) = elim f.read [
    | true ↦ []
    | false ↦ codes " FOR UPDATE" ++ of_part f.columns
  ]

  -- `visit_cast`, from the name of the type
  unfoldable pub visit_cast : E → Text → Text
  visit_cast e type_clause =
      codes "CAST(" ++ (process e ++ (codes " AS " ++ (type_clause ++ codes ")")))

  -- `visit_regexp_match_op_binary`; SQLAlchemy writes both operands round the operator.
  unfoldable pub visit_regexp : E → E → Text
  visit_regexp a b = process a ++ (codes " REGEXP " ++ process b)

  unfoldable pub visit_not_regexp : E → E → Text
  unfolding visit_regexp
  visit_not_regexp a b = codes "NOT (" ++ (visit_regexp a b ++ codes ")")

-- `visit_sequence` and `fire_sequence`, from the formatted name
unfoldable pub visit_sequence : Text → Text
visit_sequence name = name ++ codes ".NEXT_VALUE"

unfoldable pub fire_sequence : Text → Text
fire_sequence name = codes "SELECT " ++ (name ++ codes ".NEXT_VALUE")

-- `default_from`, for a WHERE without a table.
abbrev pub default_from : Text
default_from = codes " FROM db_root"
