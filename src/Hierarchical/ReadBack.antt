-- ===== src/Hierarchical/ReadBack.antt =====
-- What a server reads out of a hierarchical query of sqlalchemy_cubrid/compiler.py.
use sqlalchemy_cubrid.Hierarchical.Clauses.{
  IsGiven, Expressions, ends_expression, read_expressions, read_clause, read_siblings,
  read_expressions-join, read_clause-clause_text, read_siblings-siblings_text, read_flag-nocycle,
}
use sqlalchemy_cubrid.Sql.{read_flag, ◌>>=◌, expect, expect-append}
use sqlalchemy_cubrid.Hierarchical.{
  HierarchicalSelect, hierarchical_select, siblings_or, clause_text, siblings_text,
  visit_hierarchical_select,
}
use sqlalchemy_cubrid.Prelude.{
  All, starts_with, ℕ, suc, ◌≡◌, ◌≤◌, refl, Bool, true, Option, none, some, List, [], ◌∷◌, ◌++◌,
  map, Text, codes, join, ok, length, if◌then◌else◌,
}

module _ {E : Type 0} (expressions : Expressions E) where
  -- A reader of the whole query.
  unfoldable pub read_hierarchical : ℕ → Text → Option (HierarchicalSelect E × Text)
  read_hierarchical fuel s = do
    s ← expect (codes "SELECT ") s
    (columns, s) ← read_expressions expressions fuel s
    s ← expect (codes " FROM ") s
    (table, s) ← expressions.read_table s
    (condition, s) ← read_clause expressions (codes " WHERE ") s
    (start, s) ← read_clause expressions (codes " START WITH ") s
    s ← expect (codes " CONNECT BY ") s
    let (nocycle, s) = read_flag (codes "NOCYCLE ") s
    (connect, s) ← expressions.read_expression s
    (siblings, s) ← read_siblings expressions fuel s
    some (
      record {
        table = table;
        columns = columns;
        connect_by = some connect;
        start_with = start;
        where_condition = condition;
        order_siblings_by = siblings;
        nocycle = nocycle;
      },
      s,
    )

  -- What stands behind the table, and in front of CONNECT BY, ends an expression.
  abbrev conditions_text : Option E → Option E → Text → Text
  conditions_text w st t =
      clause_text expressions.process (codes " WHERE ") w
      ++ (clause_text expressions.process (codes " START WITH ") st ++ (codes " CONNECT BY " ++ t))

  ends_conditions : (w st : Option E) (t : Text) → ends_expression (conditions_text w st t) ≡ true
  unfolding ends_expression starts_with clause_text
  ends_conditions none none t = refl
  ends_conditions none (some e) t = refl
  ends_conditions (some d) st t = refl

  ends_start :
      (st : Option E) (t : Text)
      → ends_expression
          (clause_text expressions.process (codes " START WITH ") st ++ (codes " CONNECT BY " ++ t))
        ≡ true
  unfolding ends_expression starts_with clause_text
  ends_start none t = refl
  ends_start (some e) t = refl

  no_where :
      (st : Option E) (t : Text)
      → expect
          (codes " WHERE ")
          (clause_text expressions.process (codes " START WITH ") st ++ (codes " CONNECT BY " ++ t))
        ≡ none
  unfolding expect clause_text
  no_where none t = refl
  no_where (some e) t = refl

  no_start : (t : Text) → expect (codes " START WITH ") (codes " CONNECT BY " ++ t) ≡ none
  unfolding expect
  no_start t = refl

  ends_connect_by : (t : Text) → ends_expression (codes " CONNECT BY " ++ t) ≡ true
  unfolding ends_expression starts_with
  ends_connect_by t = refl

  ends_siblings : (es : List E) → ends_expression (siblings_text expressions.process es) ≡ true
  unfolding ends_expression starts_with siblings_text
  ends_siblings [] = refl
  ends_siblings (e ∷ es) = refl

  ends_from : (t : Text) → ends_expression (codes " FROM " ++ t) ≡ true
  unfolding ends_expression starts_with
  ends_from t = refl

  no_comma : (t : Text) → expect (codes ", ") (codes " FROM " ++ t) ≡ none
  unfolding expect
  no_comma t = refl

  -- The text of a query by its parts.
  abbrev query_text : List E → E → Option E → Option E → E → List E → Bool → Text
  query_text columns table w st connect siblings nocycle =
      codes "SELECT "
      ++ (join (codes ", ") (map expressions.process columns)
          ++ (codes " FROM "
              ++ (expressions.as_from table
                  ++ conditions_text w st (
                      (if nocycle then codes "NOCYCLE " else [])
                      ++ (expressions.process connect
                          ++ siblings_text expressions.process siblings)))))

  read-query_text :
      (n : ℕ) (c : E) (cs : List E) (table : E) (w st : Option E) (connect : E) (siblings : List E)
      (nocycle : Bool)
      → All expressions.IsExpression (c ∷ cs)
      → expressions.IsTable table
      → IsGiven expressions w
      → IsGiven expressions st
      → expressions.IsExpression connect
      → All expressions.IsExpression siblings
      → length cs ≤ n
      → length siblings ≤ suc n
      → read_hierarchical (suc n) (query_text (c ∷ cs) table w st connect siblings nocycle)
        ≡ some (
          record {
            table = table;
            columns = c ∷ cs;
            connect_by = some connect;
            start_with = st;
            where_condition = w;
            order_siblings_by = siblings;
            nocycle = nocycle;
          },
          [],
        )
  unfolding read_hierarchical
  read-query_text n c cs table w st connect siblings nocycle gc gt gw gs ge gb hc hs =
      let tail =
        (if nocycle then codes "NOCYCLE " else [])
        ++ (expressions.process connect ++ siblings_text expressions.process siblings) in
      let behind = expressions.as_from table ++ conditions_text w st tail in
      rw
        (
          expect-append (codes "SELECT ") _,
          read_expressions-join expressions n c cs (codes " FROM " ++ behind) gc hc
              (ends_from behind) (no_comma behind),
          expect-append (codes " FROM ") behind,
          expressions.read-as_from table (conditions_text w st tail) gt (ends_conditions w st tail),
          read_clause-clause_text expressions (codes " WHERE ") w _ gw (ends_start st tail)
              (no_where st tail),
          read_clause-clause_text expressions (codes " START WITH ") st _ gs (ends_connect_by tail)
              (no_start tail),
          expect-append (codes " CONNECT BY ") tail,
          read_flag-nocycle expressions nocycle connect _ ge,
          expressions.read-process connect _ ge (ends_siblings siblings),
          read_siblings-siblings_text expressions (suc n) siblings gb hs,
        )
        refl

  -- A hierarchical query with columns says what it was made from, for any expressions and tables that can
  -- be read: its columns, the table, both conditions, NOCYCLE, the CONNECT BY condition and the order of the
  -- siblings, each clause exactly if it was given. The number bounds both lists.
  pub read-visit_hierarchical_select :
      (n : ℕ) (table c : E) (cs : List E) (connect : E) (start condition : Option E)
      (siblings : Option (List E)) (nocycle : Bool)
      → All expressions.IsExpression (c ∷ cs)
      → expressions.IsTable table
      → IsGiven expressions condition
      → IsGiven expressions start
      → expressions.IsExpression connect
      → All expressions.IsExpression (siblings_or siblings)
      → length cs ≤ n
      → length (siblings_or siblings) ≤ suc n
      → let q =
          hierarchical_select table
            (some (c ∷ cs))
            (some connect)
            start
            condition
            siblings
            nocycle in
        (text : Text) × (visit_hierarchical_select expressions.process expressions.as_from q
          ≡ ok text)
        × (read_hierarchical (suc n) text ≡ some (q, []))
  unfolding visit_hierarchical_select hierarchical_select
  read-visit_hierarchical_select n table c cs connect start condition siblings nocycle gc gt gw gs
        ge gb hc hs =
      (
        query_text (c ∷ cs) table condition start connect (siblings_or siblings) nocycle,
        refl,
        read-query_text n c cs table condition start connect (siblings_or siblings) nocycle gc gt gw
            gs ge gb hc hs,
      )
