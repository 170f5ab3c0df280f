-- ===== src/Hierarchical/Clauses.antt =====
-- The clauses of a hierarchical query of sqlalchemy_cubrid/compiler.py, and readers for them.
use sqlalchemy_cubrid.Sql.{at_flag, read_flag, ◌>>=◌, expect, expect-append}
use sqlalchemy_cubrid.Sql.Lists.{read_list, read_list-join}
use sqlalchemy_cubrid.Hierarchical.{clause_text, siblings_text}
use sqlalchemy_cubrid.Prelude.{
  All, ℕ, zero, suc, ◌≡◌, ◌≤◌, refl, sym, ap, ◌∙◌, Bool, true, false, ◌||◌, Option, none, some,
  List, [], ◌∷◌, ◌++◌, map, append_assoc, append-nil, arith, Text, codes, join, starts_with, length,
  if◌then◌else◌,
}

-- An expression ends at the end of the text, at a comma and at the keyword of a clause.
unfoldable pub ends_expression : Text → Bool
ends_expression [] = true
ends_expression (c ∷ s) =
    starts_with (c ∷ s) (codes ", ")
    || (starts_with (c ∷ s) (codes " FROM ")
        || (starts_with (c ∷ s) (codes " WHERE ")
            || (starts_with (c ∷ s) (codes " START WITH ")
                || (starts_with (c ∷ s) (codes " CONNECT BY ")
                    || starts_with (c ∷ s) (codes " ORDER SIBLINGS BY ")))))

-- Expressions and tables with their texts, and readers that find one and what follows it; the text of an
-- expression does not begin with NOCYCLE. Not everything that can be processed is an expression.
pub record Expressions (E : Type 0) : Type 1 where
  pub IsExpression : E → Type 0
  pub IsTable : E → Type 0
  pub process : E → Text
  pub as_from : E → Text
  pub read_expression : Text → Option (E × Text)
  pub read_table : Text → Option (E × Text)
  pub read-process :
      (e : E) (rest : Text)
      → IsExpression e
      → ends_expression rest ≡ true
      → read_expression (process e ++ rest) ≡ some (e, rest)
  pub read-as_from :
      (e : E) (rest : Text)
      → IsTable e
      → ends_expression rest ≡ true
      → read_table (as_from e ++ rest) ≡ some (e, rest)
  pub expect-nocycle :
      (e : E) (rest : Text) → IsExpression e → expect (codes "NOCYCLE ") (process e ++ rest) ≡ none

ends_comma : (t : Text) → ends_expression (codes ", " ++ t) ≡ true
unfolding ends_expression starts_with
ends_comma t = refl

module _ {E : Type 0} (expressions : Expressions E) where
  abbrev pub IsGiven : Option E → Type 0
  IsGiven none = Unit
  IsGiven (some e) = expressions.IsExpression e

  -- Expressions with commas between them; the number bounds them.
  abbrev pub read_expressions : ℕ → Text → Option (List E × Text)
  read_expressions = read_list expressions.read_expression

  abbrev pub at_clause : Text → Option Text → Option (Option E × Text)
  at_clause s none = some (none, s)
  at_clause s (some t) = expressions.read_expression t >>= λ r. some (some r.0, r.1)

  unfoldable pub read_clause : Text → Text → Option (Option E × Text)
  read_clause keyword s = at_clause s (expect keyword s)

  abbrev pub at_siblings : ℕ → Text → Option Text → Option (List E × Text)
  at_siblings fuel s none = some ([], s)
  at_siblings fuel s (some t) = read_expressions fuel t

  unfoldable pub read_siblings : ℕ → Text → Option (List E × Text)
  read_siblings fuel s = at_siblings fuel s (expect (codes " ORDER SIBLINGS BY ") s)

  pub read_expressions-join :
      (n : ℕ) (e : E) (es : List E) (rest : Text)
      → All expressions.IsExpression (e ∷ es)
      → length es ≤ n
      → ends_expression rest ≡ true
      → expect (codes ", ") rest ≡ none
      → read_expressions (suc n) (join (codes ", ") (map expressions.process (e ∷ es)) ++ rest)
        ≡ some (e ∷ es, rest)
  read_expressions-join =
      read_list-join expressions.IsExpression expressions.read_expression expressions.process
        ends_expression ends_comma expressions.read-process

  pub read_clause-clause_text :
      (keyword : Text) (o : Option E) (rest : Text)
      → IsGiven o
      → ends_expression rest ≡ true
      → expect keyword rest ≡ none
      → read_clause keyword (clause_text expressions.process keyword o ++ rest) ≡ some (o, rest)
  unfolding read_clause clause_text
  read_clause-clause_text keyword none rest g ends absent = ap (at_clause rest) absent
  read_clause-clause_text keyword (some e) rest g ends absent =
      ap (read_clause keyword) (append_assoc keyword (expressions.process e) rest)
      ∙ (ap (at_clause (keyword ++ (expressions.process e ++ rest)))
            (expect-append keyword (expressions.process e ++ rest))
          ∙ ap (λ o. o >>= λ r. some (some r.0, r.1)) (expressions.read-process e rest g ends))

  pub read_siblings-siblings_text :
      (fuel : ℕ) (es : List E)
      → All expressions.IsExpression es
      → length es ≤ fuel
      → read_siblings fuel (siblings_text expressions.process es) ≡ some (es, [])
  unfolding read_siblings siblings_text
  read_siblings-siblings_text fuel [] g h = unfold expect in refl
  read_siblings-siblings_text zero (e ∷ es) g h = absurd (omega arith)
  read_siblings-siblings_text (suc n) (e ∷ es) g h =
      let joined = join (codes ", ") (map expressions.process (e ∷ es)) in
      ap (at_siblings (suc n) (codes " ORDER SIBLINGS BY " ++ joined))
        (expect-append (codes " ORDER SIBLINGS BY ") joined)
      ∙ (ap (read_expressions (suc n)) (sym (append-nil joined))
          ∙ read_expressions-join n e es [] g (omega arith) (unfold ends_expression in refl)
              (unfold expect in refl))

  pub read_flag-nocycle :
      (b : Bool) (e : E) (rest : Text)
      → expressions.IsExpression e
      → read_flag
          (codes "NOCYCLE ")
          ((if b then codes "NOCYCLE " else []) ++ (expressions.process e ++ rest))
        ≡ (b, expressions.process e ++ rest)
  unfolding read_flag
  read_flag-nocycle true e rest g =
      ap (at_flag (codes "NOCYCLE " ++ (expressions.process e ++ rest)))
        (expect-append (codes "NOCYCLE ") (expressions.process e ++ rest))
  read_flag-nocycle false e rest g =
      ap (at_flag (expressions.process e ++ rest)) (expressions.expect-nocycle e rest g)
