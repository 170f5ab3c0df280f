-- ===== src/Dml/ReadBack.antt =====
-- What a server reads out of ON DUPLICATE KEY UPDATE, as `visit_on_duplicate_key_update` of
-- sqlalchemy_cubrid/compiler.py writes it.
use sqlalchemy_cubrid.Dml.{
  OnDuplicate, Column, columns_in_order, assignments, assignment_text,
  visit_on_duplicate_key_update,
}
use sqlalchemy_cubrid.Dml.Render.{
  assigned, column_keys, one_of-assignments, one_of-columns_in_order,
}
use sqlalchemy_cubrid.Prelude.Dict.{lookup}
use sqlalchemy_cubrid.Sql.{◌>>=◌, expect, expect-append}
use sqlalchemy_cubrid.Sql.Lists.{any-All, read_list, read_list-join}
use sqlalchemy_cubrid.Sql.Quoted.{Quoting}
use sqlalchemy_cubrid.Prelude.{
  ◌&&◌, ℕ, suc, ◌≡◌, ◌≤◌, refl, sym, ap, ◌∙◌, Bool, true, Option, some, List, [], ◌∷◌, ◌++◌, map,
  append_assoc, append-nil, arith, Text, codes, join, starts_with, length, is_some, one_of,
  length-map,
}

-- What may follow a value.
unfoldable pub ends_value : Text → Bool
ends_value [] = true
ends_value (c ∷ s) = starts_with (c ∷ s) (codes ", ")

ends_comma : (t : Text) → ends_value (codes ", " ++ t) ≡ true
unfolding ends_value starts_with
ends_comma t = refl

-- Values with their texts, and a reader that finds a value and what follows it.
pub record Values (V : Type 0) : Type 0 where
  pub process : V → Text
  pub read_value : Text → Option (V × Text)
  pub read-process :
      (v : V) (rest : Text)
      → ends_value rest ≡ true
      → read_value (process v ++ rest) ≡ some (v, rest)

-- The name of a column that is assigned, and the value.
abbrev pub named : {V : Type 0} → Column × V → Text × V
named a = (a.0.name, a.1)

module _ {V : Type 0} (quoting : Quoting) (values : Values V) where
  abbrev after_name : Text × Text → Option ((Text × V) × Text)
  after_name r =
      expect (codes " = ") r.1 >>= λ t. values.read_value t >>= λ q. some ((r.0, q.0), q.1)

  unfoldable pub read_assignment : Text → Option ((Text × V) × Text)
  read_assignment s = quoting.read_identifier s >>= after_name

  unfoldable pub read_update : ℕ → Text → Option (List (Text × V) × Text)
  read_update fuel s =
      expect (codes "ON DUPLICATE KEY UPDATE ") s >>= λ t. read_list read_assignment fuel t

  abbrev named_text : Text × V → Text
  named_text a = quoting.quote_identifier a.0 ++ (codes " = " ++ values.process a.1)

  read_assignment-text :
      (a : Text × V) (rest : Text)
      → ends_value rest ≡ true
      → read_assignment (named_text a ++ rest) ≡ some (a, rest)
  unfolding read_assignment
  read_assignment-text (name, v) rest h =
      let t = values.process v ++ rest in
      ap (λ s. quoting.read_identifier s >>= after_name)
        (append_assoc (quoting.quote_identifier name) (codes " = " ++ values.process v) rest)
      ∙ ap (λ o. o >>= after_name) (quoting.read-quote name (codes " = " ++ t) refl)
      ∙ ap (λ o. o >>= λ u. values.read_value u >>= λ q. some ((name, q.0), q.1))
          (expect-append (codes " = ") t)
      ∙ ap (λ o. o >>= λ q. some ((name, q.0), q.1)) (values.read-process v rest h)

  named-map :
      (sets : List (Column × V))
      → map (assignment_text quoting.quote_identifier values.process) sets
        ≡ map named_text (map named sets)
  named-map [] = refl
  named-map (a ∷ sets) =
      ap (λ ts. assignment_text quoting.quote_identifier values.process a ∷ ts) (named-map sets)

  read_sets :
      (n : ℕ) (sets : List (Column × V)) (k : Text)
      → length sets ≤ suc n
      → one_of k (assigned sets) ≡ true
      → read_list read_assignment
          (suc n)
          (join (codes ", ") (map (assignment_text quoting.quote_identifier values.process) sets))
        ≡ some (map named sets, [])
  unfolding one_of
  read_sets n [] k h m = cc
  read_sets n (a ∷ sets) k h m =
      let texts = map (assignment_text quoting.quote_identifier values.process) (a ∷ sets) in
      ap (read_list read_assignment (suc n)) (sym (append-nil (join (codes ", ") texts)))
      ∙ ap (λ ts. read_list read_assignment (suc n) (join (codes ", ") ts ++ []))
          (named-map (a ∷ sets))
      ∙ read_list-join (λ _. Unit {0}) read_assignment named_text ends_value ends_comma
          (λ b rest _. read_assignment-text b rest) n (named a) (map named sets) []
          (any-All (map named (a ∷ sets))) (omega (arith, length-map named sets))
          (unfold ends_value in refl) (unfold expect in refl)

  -- The clause reads back, for any way to quote names and any texts of values that can be read, when at
  -- least one key of the update is a column's: as assignments under the columns' names, in the order of a
  -- given ordering and then of the table, and the columns that are assigned are exactly those that are both
  -- in the table and in the update. The list of them is as long as the bound at most.
  pub read-visit_on_duplicate_key_update :
      (n : ℕ) (table : List Column) (clause : OnDuplicate V) (k : Text)
      → length (assignments clause.update (columns_in_order clause.parameter_ordering table))
        ≤ suc n
      → is_some (lookup k clause.update) ≡ true
      → one_of k (column_keys table) ≡ true
      → let sets = assignments clause.update (columns_in_order clause.parameter_ordering table) in
        (read_update
            (suc n)
            (visit_on_duplicate_key_update quoting.quote_identifier values.process table clause)
          ≡ some (map named sets, []))
        × ((j : Text)
            → one_of j (assigned sets)
              ≡ (is_some (lookup j clause.update) && one_of j (column_keys table)))
  unfolding read_update visit_on_duplicate_key_update
  read-visit_on_duplicate_key_update n table clause k h updated listed =
      let sets = assignments clause.update (columns_in_order clause.parameter_ordering table) in
      let keys : (j : Text)
          → one_of j (assigned sets)
            ≡ (is_some (lookup j clause.update) && one_of j (column_keys table)) =
        λ j.
          one_of-assignments clause.update j (columns_in_order clause.parameter_ordering table)
          ∙ ap (λ b. is_some (lookup j clause.update) && b)
              (one_of-columns_in_order clause.parameter_ordering j table) in
      let found : one_of k (assigned sets) ≡ true = keys k ∙ rw updated listed in
      (
        ap (λ o. o >>= λ t. read_list read_assignment (suc n) t)
              (expect-append (codes "ON DUPLICATE KEY UPDATE ") (
                join (codes ", ")
                  (map (assignment_text quoting.quote_identifier values.process) sets)))
            ∙ read_sets n sets k h found,
        keys,
      )
