-- ===== src/Merge/Clauses.antt =====
-- The clauses of a MERGE statement of sqlalchemy_cubrid/compiler.py, and readers for them.
use sqlalchemy_cubrid.Merge.{and_condition, update_clause, delete_clause, insert_clause}
use sqlalchemy_cubrid.Sql.{◌>>=◌, expect, expect-append}
use sqlalchemy_cubrid.Sql.Lists.{read_list, read_list-join}
use sqlalchemy_cubrid.Prelude.{
  All, ℕ, suc, ◌≡◌, ◌≤◌, refl, ap, ◌∙◌, Bool, true, false, ◌||◌, Option, none, some, List, [], ◌∷◌,
  ◌++◌, map, append_assoc, Text, codes, join, starts_with, length,
}

-- What may follow an expression or a table.
unfoldable pub ends_expression : Text → Bool
unfolding starts_with
ends_expression [] = true
ends_expression (c ∷ s) =
    starts_with (c ∷ s) (codes ", ")
    || (starts_with (c ∷ s) (codes ")")
        || (starts_with (c ∷ s) (codes " THEN ")
            || (starts_with (c ∷ s) (codes " USING ")
                || (starts_with (c ∷ s) (codes " ON (") || starts_with (c ∷ s) (codes " WHEN ")))))

-- What may follow a column that is set.
unfoldable pub ends_column : Text → Bool
unfolding starts_with
ends_column s =
    starts_with s (codes " = ") || (starts_with s (codes ", ") || starts_with s (codes ")"))

-- Expressions, columns and tables with their texts, and readers that find one and what follows it. A
-- column that is set has a reader of its own, since an expression may go on behind it, as in t.id = s.id.
pub record Expressions (E : Type 0) : Type 1 where
  pub IsExpression : E → Type 0
  pub IsColumn : E → Type 0
  pub IsTable : E → Type 0
  pub process : E → Text
  pub as_from : E → Text
  pub read_expression : Text → Option (E × Text)
  pub read_column : Text → Option (E × Text)
  pub read_table : Text → Option (E × Text)
  pub read-process :
      (e : E) (rest : Text)
      → IsExpression e
      → ends_expression rest ≡ true
      → read_expression (process e ++ rest) ≡ some (e, rest)
  pub column-process :
      (e : E) (rest : Text)
      → IsColumn e
      → ends_column rest ≡ true
      → read_column (process e ++ rest) ≡ some (e, rest)
  pub read-as_from :
      (e : E) (rest : Text)
      → IsTable e
      → ends_expression rest ≡ true
      → read_table (as_from e ++ rest) ≡ some (e, rest)

pub ends_comma : (t : Text) → ends_expression (codes ", " ++ t) ≡ true
unfolding ends_expression
ends_comma t = refl

pub ends_bracket : (t : Text) → ends_expression (codes ")" ++ t) ≡ true
unfolding ends_expression
ends_bracket t = refl

ends_then : (t : Text) → ends_expression (codes " THEN " ++ t) ≡ true
unfolding ends_expression
ends_then t = refl

pub ends_using : (t : Text) → ends_expression (codes " USING " ++ t) ≡ true
unfolding ends_expression
ends_using t = refl

pub ends_on : (t : Text) → ends_expression (codes " ON (" ++ t) ≡ true
unfolding ends_expression
ends_on t = refl

no_set : (t : Text) → expect (codes " THEN UPDATE SET ") (codes " THEN DELETE" ++ t) ≡ none
unfolding expect
no_set t = refl

-- The statement as the server sees it. Each clause has its condition, if there is one.
pub record ReadMerge (E : Type 0) : Type 0 where
  pub target : E
  pub source : E
  pub on_condition : E
  pub update : Option (List (E × E) × Option E)
  pub delete : Option (Option E)
  pub insert : Option (List E × List E × Option E)

module _ {E : Type 0} where
  -- The clauses as they are read.
  abbrev pub given_update : List (E × E) → Option E → Option (List (E × E) × Option E)
  given_update [] c = none
  given_update (v ∷ vs) c = some (v ∷ vs, c)

  abbrev pub given_delete : Bool → Option E → Option (Option E)
  given_delete false c = none
  given_delete true c = some c

  abbrev pub given_insert : List (E × E) → Option E → Option (List E × List E × Option E)
  given_insert [] c = none
  given_insert (v ∷ vs) c = some (map (λ a. a.0) (v ∷ vs), map (λ a. a.1) (v ∷ vs), c)

module _ {E : Type 0} (expressions : Expressions E) where
  abbrev read_e : Text → Option (E × Text)
  read_e = expressions.read_expression

  abbrev pub IsGiven : Option E → Type 0
  IsGiven none = Unit
  IsGiven (some e) = expressions.IsExpression e

  -- A column and its value.
  abbrev pub IsAssignment : E × E → Type 0
  IsAssignment a = expressions.IsColumn a.0 × expressions.IsExpression a.1

  -- "a = b"
  abbrev pub assignment_text : E × E → Text
  assignment_text a = expressions.process a.0 ++ (codes " = " ++ expressions.process a.1)

  abbrev after_left : E × Text → Option ((E × E) × Text)
  after_left r = expect (codes " = ") r.1 >>= λ t. read_e t >>= λ q. some ((r.0, q.0), q.1)

  unfoldable pub read_assignment : Text → Option ((E × E) × Text)
  read_assignment s = expressions.read_column s >>= after_left

  read_assignment-text :
      (a : E × E) (rest : Text)
      → IsAssignment a
      → ends_expression rest ≡ true
      → read_assignment (assignment_text a ++ rest) ≡ some (a, rest)
  unfolding read_assignment
  read_assignment-text (a, b) rest (ga, gb) h =
      let t = codes " = " ++ (expressions.process b ++ rest) in
      ap (λ s. expressions.read_column s >>= after_left)
        (append_assoc (expressions.process a) (codes " = " ++ expressions.process b) rest)
      ∙ ap (λ o. o >>= after_left) (expressions.column-process a t ga (unfold ends_column in refl))
      ∙ ap (λ o. o >>= λ u. read_e u >>= λ q. some ((a, q.0), q.1))
          (expect-append (codes " = ") (expressions.process b ++ rest))
      ∙ ap (λ o. o >>= λ q. some ((a, q.0), q.1)) (expressions.read-process b rest gb h)

  abbrev pub and_text : Option E → Text
  and_text = and_condition expressions.process expressions.as_from

  abbrev at_and : Text → Option Text → Option (Option E × Text)
  at_and s none = some (none, s)
  at_and s (some t) = read_e t >>= λ r. some (some r.0, r.1)

  -- " AND …", if it stands there
  unfoldable pub read_condition : Text → Option (Option E × Text)
  read_condition s = at_and s (expect (codes " AND ") s)

  pub read_condition-text :
      (c : Option E) (t : Text)
      → IsGiven c
      → read_condition (and_text c ++ (codes " THEN " ++ t)) ≡ some (c, codes " THEN " ++ t)
  unfolding read_condition and_condition
  read_condition-text none t g = unfold expect in refl
  read_condition-text (some e) t g =
      let rest = codes " THEN " ++ t in
      ap (λ s. at_and s (expect (codes " AND ") s))
        (append_assoc (codes " AND ") (expressions.process e) rest)
      ∙ ap (at_and (codes " AND " ++ (expressions.process e ++ rest)))
          (expect-append (codes " AND ") (expressions.process e ++ rest))
      ∙ ap (λ o. o >>= λ r. some (some r.0, r.1)) (expressions.read-process e rest g (ends_then t))

  -- WHEN MATCHED THEN UPDATE, if it stands there
  abbrev at_set :
      ℕ → Text → Option E → Option Text → Option (Option (List (E × E) × Option E) × Text)
  at_set fuel s c none = some (none, s)
  at_set fuel s c (some t) = read_list read_assignment fuel t >>= λ r. some (some (r.0, c), r.1)

  abbrev at_update : ℕ → Text → Option Text → Option (Option (List (E × E) × Option E) × Text)
  at_update fuel s none = some (none, s)
  at_update fuel s (some t) =
      read_condition t >>= λ r. at_set fuel s r.0 (expect (codes " THEN UPDATE SET ") r.1)

  unfoldable pub read_update : ℕ → Text → Option (Option (List (E × E) × Option E) × Text)
  read_update fuel s = at_update fuel s (expect (codes " WHEN MATCHED") s)

  -- WHEN MATCHED THEN DELETE, if it stands there
  abbrev at_then : Text → Option E → Option Text → Option (Option (Option E) × Text)
  at_then s c none = some (none, s)
  at_then s c (some t) = some (some c, t)

  abbrev at_delete : Text → Option Text → Option (Option (Option E) × Text)
  at_delete s none = some (none, s)
  at_delete s (some t) = read_condition t >>= λ r. at_then s r.0 (expect (codes " THEN DELETE") r.1)

  unfoldable pub read_delete : Text → Option (Option (Option E) × Text)
  read_delete s = at_delete s (expect (codes " WHEN MATCHED") s)

  abbrev pub update_text : List (E × E) → Option E → Text
  update_text = update_clause expressions.process expressions.as_from

  abbrev pub delete_text : Bool → Option E → Text
  delete_text = delete_clause expressions.process expressions.as_from

  abbrev pub insert_text : List (E × E) → Option E → Text
  insert_text = insert_clause expressions.process expressions.as_from

  -- Behind an update stands nothing, or the next WHEN.
  pub ends_tail :
      (b : Bool) (d : Option E) (vs : List (E × E)) (k : Option E)
      → (ends_expression (delete_text b d ++ insert_text vs k) ≡ true)
        × (expect (codes ", ") (delete_text b d ++ insert_text vs k) ≡ none)
  unfolding ends_expression delete_clause insert_clause expect
  ends_tail true d vs k = (refl, refl)
  ends_tail false d [] k = (refl, refl)
  ends_tail false d (v ∷ vs) k = (refl, refl)

  pub read_update-tail :
      (fuel : ℕ) (b : Bool) (d : Option E) (vs : List (E × E)) (k : Option E)
      → IsGiven d
      → read_update fuel (delete_text b d ++ insert_text vs k)
        ≡ some (none, delete_text b d ++ insert_text vs k)
  unfolding read_update delete_clause insert_clause
  read_update-tail fuel false d [] k g = unfold expect in refl
  read_update-tail fuel false d (v ∷ vs) k g = unfold expect in refl
  read_update-tail fuel true d vs k g =
      let rest = codes "DELETE" ++ insert_text vs k in
      let s = delete_text true d ++ insert_text vs k in
      ap (λ t. at_update fuel s (expect (codes " WHEN MATCHED") (codes " WHEN MATCHED" ++ t)))
        (append_assoc (and_text d) (codes " THEN DELETE") (insert_text vs k))
      ∙ ap (at_update fuel s)
          (expect-append (codes " WHEN MATCHED") (and_text d ++ (codes " THEN " ++ rest)))
      ∙ ap (λ o. o >>= λ r. at_set fuel s r.0 (expect (codes " THEN UPDATE SET ") r.1))
          (read_condition-text d rest g)
      ∙ ap (at_set fuel s d) (no_set (insert_text vs k))

  pub read_update-text :
      (n : ℕ) (v : E × E) (vs : List (E × E)) (c : Option E) (rest : Text)
      → All IsAssignment (v ∷ vs)
      → IsGiven c
      → length vs ≤ n
      → ends_expression rest ≡ true
      → expect (codes ", ") rest ≡ none
      → read_update (suc n) (update_text (v ∷ vs) c ++ rest) ≡ some (some (v ∷ vs, c), rest)
  unfolding read_update update_clause
  read_update-text n v vs c rest gs g h ends no_more =
      let joined = join (codes ", ") (map assignment_text (v ∷ vs)) in
      let s = update_text (v ∷ vs) c ++ rest in
      ap (λ t. at_update (suc n) s (expect (codes " WHEN MATCHED") (codes " WHEN MATCHED" ++ t)))
        (append_assoc (and_text c) (codes " THEN UPDATE SET " ++ joined) rest)
      ∙ ap (at_update (suc n) s) (
          expect-append (codes " WHEN MATCHED")
            (and_text c ++ (codes " THEN UPDATE SET " ++ (joined ++ rest))))
      ∙ ap (λ o. o >>= λ r. at_set (suc n) s r.0 (expect (codes " THEN UPDATE SET ") r.1))
          (read_condition-text c (codes "UPDATE SET " ++ (joined ++ rest)) g)
      ∙ ap (at_set (suc n) s c) (expect-append (codes " THEN UPDATE SET ") (joined ++ rest))
      ∙ ap (λ o. o >>= λ r. some (some (r.0, c), r.1))
          (read_list-join IsAssignment read_assignment assignment_text ends_expression ends_comma
            read_assignment-text n v vs rest gs h ends no_more)

  pub read_delete-text :
      (b : Bool) (d : Option E) (vs : List (E × E)) (k : Option E)
      → IsGiven d
      → read_delete (delete_text b d ++ insert_text vs k)
        ≡ some (given_delete b d, insert_text vs k)
  unfolding read_delete delete_clause insert_clause
  read_delete-text false d [] k g = unfold expect in refl
  read_delete-text false d (v ∷ vs) k g = unfold expect in refl
  read_delete-text true d vs k g =
      let rest = insert_text vs k in
      let s = delete_text true d ++ rest in
      ap (λ t. at_delete s (expect (codes " WHEN MATCHED") (codes " WHEN MATCHED" ++ t)))
        (append_assoc (and_text d) (codes " THEN DELETE") rest)
      ∙ ap (at_delete s)
          (expect-append (codes " WHEN MATCHED") (and_text d ++ (codes " THEN DELETE" ++ rest)))
      ∙ ap (λ o. o >>= λ r. at_then s r.0 (expect (codes " THEN DELETE") r.1))
          (read_condition-text d (codes "DELETE" ++ rest) g)
      ∙ ap (at_then s d) (expect-append (codes " THEN DELETE") rest)
