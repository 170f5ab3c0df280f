-- ===== src/Merge/Inserts.antt =====
-- WHEN NOT MATCHED THEN INSERT in a MERGE statement of sqlalchemy_cubrid/compiler.py, and a reader.
use sqlalchemy_cubrid.Merge.{true, insert_clause}
use sqlalchemy_cubrid.Merge.Clauses.{
  IsAssignment, IsGiven, ends_column, Expressions, ends_expression, ends_comma, ends_bracket,
  and_text, insert_text, given_insert, read_condition, read_condition-text,
}
use sqlalchemy_cubrid.Sql.{◌>>=◌, expect, expect-append}
use sqlalchemy_cubrid.Sql.Lists.{read_list, read_list-join}
use sqlalchemy_cubrid.Prelude.{
  All, length-map, ℕ, suc, ◌≡◌, ◌≤◌, refl, ap, ap₂, ◌∙◌, Option, none, some, List, [], ◌∷◌, ◌++◌,
  map, arith, Text, codes, join, length,
}

column_comma : (t : Text) → ends_column (codes ", " ++ t) ≡ true
unfolding ends_column
column_comma t = refl

column_bracket : (t : Text) → ends_column (codes ")" ++ t) ≡ true
unfolding ends_column
column_bracket t = refl

module _ {E : Type 0} (expressions : Expressions E) where
  -- WHEN NOT MATCHED THEN INSERT, if it stands there
  abbrev at_values :
      ℕ → Option E → List E × Text → Option (Option (List E × List E × Option E) × Text)
  at_values fuel c r = expect (codes ") VALUES (") r.1 >>= λ t.
      read_list expressions.read_expression fuel t >>= λ q.
      expect (codes ")") q.1 >>= λ u. some (some (r.0, q.0, c), u)

  abbrev at_insert : ℕ → Text → Option Text → Option (Option (List E × List E × Option E) × Text)
  at_insert fuel s none = some (none, s)
  at_insert fuel s (some t) = read_condition expressions t >>= λ r.
      expect (codes " THEN INSERT (") r.1 >>= λ u.
      read_list expressions.read_column fuel u >>= at_values fuel r.0

  unfoldable pub read_insert : ℕ → Text → Option (Option (List E × List E × Option E) × Text)
  read_insert fuel s = at_insert fuel s (expect (codes " WHEN NOT MATCHED") s)

  read_columns-join :
      (n : ℕ) (e : E) (es : List E) (rest : Text)
      → All expressions.IsColumn (e ∷ es)
      → length es ≤ n
      → read_list expressions.read_column
          (suc n)
          (join (codes ", ") (map expressions.process (e ∷ es)) ++ (codes ")" ++ rest))
        ≡ some (e ∷ es, codes ")" ++ rest)
  read_columns-join n e es rest g h =
      read_list-join expressions.IsColumn expressions.read_column expressions.process ends_column
        column_comma expressions.column-process n e es (codes ")" ++ rest) g h (column_bracket rest)
        (unfold expect in refl)

  read_names-join :
      (n : ℕ) (e : E) (es : List E) (rest : Text)
      → All expressions.IsExpression (e ∷ es)
      → length es ≤ n
      → read_list expressions.read_expression
          (suc n)
          (join (codes ", ") (map expressions.process (e ∷ es)) ++ (codes ")" ++ rest))
        ≡ some (e ∷ es, codes ")" ++ rest)
  read_names-join n e es rest g h =
      read_list-join expressions.IsExpression expressions.read_expression expressions.process
        ends_expression ends_comma expressions.read-process n e es (codes ")" ++ rest) g h
        (ends_bracket rest) (unfold expect in refl)

  -- The names, the values and the end of an INSERT.
  abbrev values_part : List E → Text
  values_part es = join (codes ", ") (map expressions.process es) ++ codes ")"

  abbrev columns_part : List E → List E → Text
  columns_part cs es =
      join (codes ", ") (map expressions.process cs) ++ (codes ") VALUES (" ++ values_part es)

  read_values :
      (n : ℕ) (c : Option E) (cs : List E) (e : E) (es : List E)
      → All expressions.IsExpression (e ∷ es)
      → length es ≤ n
      → at_values (suc n) c (cs, codes ") VALUES (" ++ values_part (e ∷ es))
        ≡ some (some (cs, e ∷ es, c), [])
  read_values n c cs e es g h =
      ap
        (λ o. o >>= λ t. read_list expressions.read_expression (suc n) t >>= λ q.
          expect (codes ")") q.1 >>= λ u. some (some (cs, q.0, c), u))
        (expect-append (codes ") VALUES (") (values_part (e ∷ es)))
      ∙ ap (λ o. o >>= λ q. expect (codes ")") q.1 >>= λ u. some (some (cs, q.0, c), u))
          (read_names-join n e es [] g h)
      ∙ ap (λ o. o >>= λ u. some (some (cs, e ∷ es, c), u)) (expect-append (codes ")") [])

  columns-All :
      (vs : List (E × E))
      → All (IsAssignment expressions) vs
      → All expressions.IsColumn (map (λ a. a.0) vs)
  columns-All [] h = tt
  columns-All (v ∷ vs) ((c, e), h) = (c, columns-All vs h)

  values-All :
      (vs : List (E × E))
      → All (IsAssignment expressions) vs
      → All expressions.IsExpression (map (λ a. a.1) vs)
  values-All [] h = tt
  values-All (v ∷ vs) ((c, e), h) = (e, values-All vs h)

  process-map :
      (f : E × E → E) (vs : List (E × E))
      → map (λ a. expressions.process (f a)) vs ≡ map expressions.process (map f vs)
  process-map f [] = refl
  process-map f (v ∷ vs) = ap (λ ts. expressions.process (f v) ∷ ts) (process-map f vs)

  insert_text-eq :
      (v : E × E) (vs : List (E × E)) (c : Option E)
      → insert_text expressions (v ∷ vs) c
        ≡ codes " WHEN NOT MATCHED"
          ++ (and_text expressions c
              ++ (codes " THEN INSERT ("
                  ++ columns_part (v.0 ∷ map (λ a. a.0) vs) (v.1 ∷ map (λ a. a.1) vs)))
  unfolding insert_clause
  insert_text-eq v vs c =
      ap₂
        (λ xs ys.
          codes " WHEN NOT MATCHED"
          ++ (and_text expressions c
              ++ (codes " THEN INSERT ("
                  ++ (join (codes ", ") (expressions.process v.0 ∷ xs)
                      ++ (codes ") VALUES ("
                          ++ (join (codes ", ") (expressions.process v.1 ∷ ys) ++ codes ")"))))))
        (process-map (λ a. a.0) vs) (process-map (λ a. a.1) vs)

  pub read_insert-text :
      (n : ℕ) (vs : List (E × E)) (c : Option E)
      → All (IsAssignment expressions) vs
      → IsGiven expressions c
      → length vs ≤ suc n
      → read_insert (suc n) (insert_text expressions vs c) ≡ some (given_insert vs c, [])
  unfolding read_insert insert_clause
  read_insert-text n [] c gs g h = unfold expect in refl
  read_insert-text n (v ∷ vs) c gs g h =
      let cs = map (λ a. a.0) vs in
      let es = map (λ a. a.1) vs in
      let columns = columns_part (v.0 ∷ cs) (v.1 ∷ es) in
      let s =
        codes " WHEN NOT MATCHED"
        ++ (and_text expressions c ++ (codes " THEN INSERT (" ++ columns)) in
      ap (λ t. at_insert (suc n) t (expect (codes " WHEN NOT MATCHED") t)) (insert_text-eq v vs c)
      ∙ ap (at_insert (suc n) s) (
          expect-append (codes " WHEN NOT MATCHED")
            (and_text expressions c ++ (codes " THEN INSERT (" ++ columns)))
      ∙ ap
          (λ o. o >>= λ r. expect (codes " THEN INSERT (") r.1 >>= λ u.
            read_list expressions.read_column (suc n) u >>= at_values (suc n) r.0)
          (read_condition-text expressions c (codes "INSERT (" ++ columns) g)
      ∙ ap (λ o. o >>= λ u. read_list expressions.read_column (suc n) u >>= at_values (suc n) c)
          (expect-append (codes " THEN INSERT (") columns)
      ∙ ap (λ o. o >>= at_values (suc n) c)
          (read_columns-join n (v.0) cs (codes " VALUES (" ++ values_part (v.1 ∷ es))
            (columns-All (v ∷ vs) gs) (omega (arith, length-map (λ a. a.0) vs)))
      ∙ read_values n c (v.0 ∷ cs) (v.1) es (values-All (v ∷ vs) gs)
          (omega (arith, length-map (λ a. a.1) vs))
