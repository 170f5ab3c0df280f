-- ===== src/Merge.antt =====
-- The builder of sqlalchemy_cubrid/merge.py, and `visit_cubrid_merge` of
-- sqlalchemy_cubrid/compiler.py. Expressions and tables are a parameter, and so is the text that
-- SQLAlchemy's `process` makes of them.
pub mod Build
pub mod Clauses
pub mod Inserts
pub mod ReadBack
use sqlalchemy_cubrid.Prelude.{
  Bool, true, false, Option, none, some, List, [], ◌∷◌, ◌++◌, map, Text, codes, join, if◌then◌else◌,
}

-- `Merge`; a dictionary is the list of its entries.
pub record Merge (E : Type 0) : Type 0 where
  pub target : E
  pub source : Option E
  pub on_condition : Option E
  pub update_values : Option (List (E × E))
  pub update_condition : Option E
  pub delete : Bool
  pub delete_condition : Option E
  pub insert_values : Option (List (E × E))
  pub insert_condition : Option E

-- A call of a method of the builder.
pub data Call (E : Type 0) : Type 0 where
  using : E → Call E
  on : E → Call E
  when_matched_then_update : List (E × E) → Option E → Call E
  when_matched_then_delete : Option E → Call E
  when_not_matched_then_insert : List (E × E) → Option E → Call E

module _ {E : Type 0} where
  -- `Merge.__init__`
  unfoldable pub merge : E → Merge E
  merge t = record {
    target = t;
    source = none;
    on_condition = none;
    update_values = none;
    update_condition = none;
    delete = false;
    delete_condition = none;
    insert_values = none;
    insert_condition = none;
  }

  -- The methods.
  unfoldable pub apply_call : Merge E → Call E → Merge E
  apply_call m (using s) = record m { source = some s }
  apply_call m (on c) = record m { on_condition = some c }
  apply_call m (when_matched_then_update vs c) = record m {
    update_values = some vs;
    update_condition = c;
  }
  apply_call m (when_matched_then_delete c) = record m { delete = true; delete_condition = c }
  apply_call m (when_not_matched_then_insert vs c) = record m {
    insert_values = some vs;
    insert_condition = c;
  }

  -- A chain of calls.
  unfoldable pub run : Merge E → List (Call E) → Merge E
  unfolding apply_call
  run m [] = m
  run m (c ∷ cs) = run (apply_call m c) cs

  -- `if values:`, where `None` and the empty dictionary are both false.
  abbrev pub entries : Option (List (E × E)) → List (E × E)
  entries none = []
  entries (some vs) = vs

  module _ (process as_from : E → Text) where
    -- " AND …", if there is a condition
    unfoldable pub and_condition : Option E → Text
    and_condition none = []
    and_condition (some c) = codes " AND " ++ process c

    -- WHEN MATCHED THEN UPDATE
    unfoldable pub update_clause : List (E × E) → Option E → Text
    unfolding and_condition join
    update_clause [] c = []
    update_clause (v ∷ vs) c =
        codes " WHEN MATCHED"
        ++ (and_condition c
            ++ (codes " THEN UPDATE SET "
                ++ join (codes ", ")
                    (map (λ a. process a.0 ++ (codes " = " ++ process a.1)) (v ∷ vs))))

    -- WHEN MATCHED THEN DELETE
    unfoldable pub delete_clause : Bool → Option E → Text
    unfolding and_condition
    delete_clause false c = []
    delete_clause true c = codes " WHEN MATCHED" ++ (and_condition c ++ codes " THEN DELETE")

    -- WHEN NOT MATCHED THEN INSERT
    unfoldable pub insert_clause : List (E × E) → Option E → Text
    unfolding and_condition join
    insert_clause [] c = []
    insert_clause (v ∷ vs) c =
        codes " WHEN NOT MATCHED"
        ++ (and_condition c
            ++ (codes " THEN INSERT ("
                ++ (join (codes ", ") (map (λ a. process a.0) (v ∷ vs))
                    ++ (codes ") VALUES ("
                        ++ (join (codes ", ") (map (λ a. process a.1) (v ∷ vs)) ++ codes ")")))))

    -- `visit_cubrid_merge`; `none` stands for the AttributeError of `process(None)`.
    unfoldable pub visit_cubrid_merge : Merge E → Option Text
    unfolding update_clause delete_clause insert_clause
    visit_cubrid_merge m = elim m.source [
      | none ↦ none
      | some s ↦ elim m.on_condition [
        | none ↦ none
        | some c ↦ some (
            codes "MERGE INTO "
            ++ (as_from m.target
                ++ (codes " USING "
                    ++ (as_from s
                        ++ (codes " ON ("
                            ++ (process c
                                ++ (codes ")"
                                    ++ (update_clause (entries m.update_values) m.update_condition
                                        ++ (delete_clause m.delete m.delete_condition
                                            ++ insert_clause (entries m.insert_values)
                                                m.insert_condition)))))))))
      ]
    ]
