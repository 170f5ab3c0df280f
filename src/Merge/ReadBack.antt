-- ===== src/Merge/ReadBack.antt =====
-- What a server reads out of a MERGE statement, as `visit_cubrid_merge` of
-- sqlalchemy_cubrid/compiler.py writes it.
use sqlalchemy_cubrid.Merge.{Merge, entries, update_clause, visit_cubrid_merge}
use sqlalchemy_cubrid.Merge.Clauses.{
  IsAssignment, IsGiven, Expressions, ReadMerge, ends_bracket, ends_using, ends_on, read_update,
  read_delete, update_text, delete_text, insert_text, given_update, given_delete, given_insert,
  ends_tail, read_update-tail, read_update-text, read_delete-text,
}
use sqlalchemy_cubrid.Merge.Inserts.{read_insert, read_insert-text}
use sqlalchemy_cubrid.Sql.{◌>>=◌, expect, expect-append}
use sqlalchemy_cubrid.Prelude.{
  All, ℕ, suc, ◌≡◌, ◌≤◌, refl, Bool, Option, some, List, [], ◌∷◌, ◌++◌, arith, Text, codes, length,
}

-- The parts of a statement that the builder made, from the source and under the condition given, can be
-- read.
pub record IsReadable {E : Type 0} (expressions : Expressions E) (m : Merge E) (s c : E)
    : Type 0 where
  pub target_table : expressions.IsTable m.target
  pub source_table : expressions.IsTable s
  pub on_expression : expressions.IsExpression c
  pub updated : All (IsAssignment expressions) (entries m.update_values)
  pub update_given : IsGiven expressions m.update_condition
  pub delete_given : IsGiven expressions m.delete_condition
  pub inserted : All (IsAssignment expressions) (entries m.insert_values)
  pub insert_given : IsGiven expressions m.insert_condition

module _ {E : Type 0} (expressions : Expressions E) where
  -- A reader of the whole statement; the number bounds the lists.
  unfoldable pub read_merge : ℕ → Text → Option (ReadMerge E)
  read_merge fuel s = do
    s ← expect (codes "MERGE INTO ") s
    (target, s) ← expressions.read_table s
    s ← expect (codes " USING ") s
    (source, s) ← expressions.read_table s
    s ← expect (codes " ON (") s
    (condition, s) ← expressions.read_expression s
    s ← expect (codes ")") s
    (update, s) ← read_update expressions fuel s
    (delete, s) ← read_delete expressions s
    (insert, s) ← read_insert expressions fuel s
    some record {
      target = target;
      source = source;
      on_condition = condition;
      update = update;
      delete = delete;
      insert = insert;
    }

  read_update-clauses :
      (n : ℕ) (us : List (E × E)) (u : Option E) (b : Bool) (d : Option E) (vs : List (E × E))
      (k : Option E)
      → All (IsAssignment expressions) us
      → IsGiven expressions u
      → IsGiven expressions d
      → length us ≤ suc n
      → read_update expressions (suc n) (
          update_text expressions us u
          ++ (delete_text expressions b d ++ insert_text expressions vs k))
        ≡ some (given_update us u, delete_text expressions b d ++ insert_text expressions vs k)
  read_update-clauses n [] u b d vs k gs gu gd h =
      unfold update_clause in read_update-tail expressions (suc n) b d vs k gd
  read_update-clauses n (a ∷ us) u b d vs k gs gu gd h =
      let (ends, no_more) = ends_tail expressions b d vs k in
      read_update-text expressions n a us u
        (delete_text expressions b d ++ insert_text expressions vs k) gs gu (omega arith) ends
        no_more

  -- The text of a statement with a source and a condition.
  abbrev merge_text : Merge E → E → E → Text
  merge_text m s c =
      codes "MERGE INTO "
      ++ (expressions.as_from m.target
          ++ (codes " USING "
              ++ (expressions.as_from s
                  ++ (codes " ON ("
                      ++ (expressions.process c
                          ++ (codes ")"
                              ++ (update_text expressions (entries m.update_values)
                                    m.update_condition
                                  ++ (delete_text expressions m.delete m.delete_condition
                                      ++ insert_text expressions (entries m.insert_values)
                                          m.insert_condition))))))))

  -- A statement that the builder made, with a source and a condition, is rendered, and the text reads back,
  -- for expressions, columns and tables that can be read: the tables, the condition, and for each of UPDATE, DELETE
  -- and INSERT whether it is there, with its own condition, the assignments, and the columns and values.
  -- The lists are as long as the bound at most.
  pub read-visit_cubrid_merge :
      (n : ℕ) (m : Merge E) (s c : E)
      → m.source ≡ some s
      → m.on_condition ≡ some c
      → IsReadable expressions m s c
      → length (entries m.update_values) ≤ suc n
      → length (entries m.insert_values) ≤ suc n
      → (text : Text) × (visit_cubrid_merge expressions.process expressions.as_from m ≡ some text)
        × (read_merge (suc n) text
            ≡ some record {
              target = m.target;
              source = s;
              on_condition = c;
              update = given_update (entries m.update_values) m.update_condition;
              delete = given_delete m.delete m.delete_condition;
              insert = given_insert (entries m.insert_values) m.insert_condition;
            })
  unfolding visit_cubrid_merge read_merge
  read-visit_cubrid_merge n m s c p q g hu hi =
      let us = entries m.update_values in
      let vs = entries m.insert_values in
      let clauses =
        update_text expressions us m.update_condition
        ++ (delete_text expressions m.delete m.delete_condition
            ++ insert_text expressions vs m.insert_condition) in
      let on_part = expressions.process c ++ (codes ")" ++ clauses) in
      let source_part = expressions.as_from s ++ (codes " ON (" ++ on_part) in
      (
        merge_text m s c,
        rw (p, visit_cubrid_merge) (rw q refl),
        rw
            (
              expect-append (codes "MERGE INTO ") _,
              expressions.read-as_from m.target _ g.target_table (ends_using source_part),
              expect-append (codes " USING ") _,
              expressions.read-as_from s _ g.source_table (ends_on on_part),
              expect-append (codes " ON (") _,
              expressions.read-process c _ g.on_expression (ends_bracket clauses),
              expect-append (codes ")") _,
              read_update-clauses n us m.update_condition m.delete m.delete_condition vs
                  m.insert_condition g.updated g.update_given g.delete_given hu,
              read_delete-text expressions m.delete m.delete_condition vs m.insert_condition
                  g.delete_given,
              read_insert-text expressions n vs m.insert_condition g.inserted g.insert_given hi,
            )
            refl,
      )
