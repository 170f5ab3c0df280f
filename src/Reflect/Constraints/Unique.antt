-- ===== src/Reflect/Constraints/Unique.antt =====
-- `get_unique_constraints` and `get_indexes` of sqlalchemy_cubrid/dialect.py over one catalog: the
-- conditions of their queries, and how their answers agree.
use mathlib.Core.List.{foldl}
use sqlalchemy_cubrid.Prelude.Dict.{upsert, values}
use sqlalchemy_cubrid.Reflect.Groups.{group_step, groups}
use sqlalchemy_cubrid.Reflect.Constraints.{
  IndexRow, UniqueConstraint, Index, is_yes, row_name, new_constraint, add_column, new_index,
  add_index_column, constraint_groups, index_groups, get_unique_constraints, get_indexes,
}
use sqlalchemy_cubrid.Prelude.{
  text_eq_iff, arith, sym, ◌≡◌, refl, ap, ◌∙◌, Bool, true, List, [], ◌∷◌, All, Text, codes, text_eq,
  ok, ◌&&◌, Bool-cases, inl, inr, if◌then◌else◌,
}

-- A row of `db_index` joined with `db_index_key`, for one table.
pub record CatalogRow : Type 0 where
  pub row : IndexRow
  pub is_primary_key : Text
  pub is_foreign_key : Text

-- "is_primary_key = 'NO' AND is_foreign_key = 'NO'"
unfoldable pub is_plain : CatalogRow → Bool
is_plain c = text_eq c.is_primary_key (codes "NO") && text_eq c.is_foreign_key (codes "NO")

-- The rows of the query of `get_indexes`, from those of the table in the query's order.
unfoldable pub index_rows : List CatalogRow → List IndexRow
unfolding is_plain
index_rows [] = []
index_rows (c ∷ rows) = let rest = index_rows rows in if is_plain c then c.row ∷ rest else rest

-- The rows of the query of `get_unique_constraints`: "is_unique = 'YES'" besides.
unfoldable pub unique_rows : List CatalogRow → List IndexRow
unfolding is_plain
unique_rows [] = []
unique_rows (c ∷ rows) =
    let rest = unique_rows rows in
    if is_yes c.row.is_unique && is_plain c then c.row ∷ rest else rest

-- The constraint that a unique index stands for.
abbrev pub as_constraint : Index → UniqueConstraint
as_constraint i = record { name = i.name; column_names = i.column_names; duplicates_index = i.name }

-- The constraints of the unique ones among the indexes, in their order.
unfoldable pub unique_part : List Index → List UniqueConstraint
unique_part [] = []
unique_part (i ∷ is) =
    let rest = unique_part is in if i.unique then as_constraint i ∷ rest else rest

unfoldable unique_entries : List (Text × Index) → List (Text × UniqueConstraint)
unique_entries [] = []
unique_entries ((k, i) ∷ m) =
    let rest = unique_entries m in if i.unique then (k, as_constraint i) ∷ rest else rest

values-unique_entries :
    (m : List (Text × Index)) → values (unique_entries m) ≡ unique_part (values m)
unfolding unique_entries unique_part
values-unique_entries [] = refl
values-unique_entries ((k, i) ∷ m) = ground (arith, values-unique_entries m)

module _ (unique_name : Text → Bool) where
  -- Uniqueness is an attribute of the index, the same in all of its rows.
  abbrev pub Agrees : IndexRow → Type 0
  Agrees r = is_yes r.is_unique ≡ unique_name r.index_name

  abbrev EntryAgrees : Text × Index → Type 0
  EntryAgrees e = e.1.unique ≡ unique_name e.0

  abbrev index_step : List (Text × Index) → IndexRow → List (Text × Index)
  index_step = group_step row_name new_index add_index_column

  abbrev constraint_step :
      List (Text × UniqueConstraint) → IndexRow → List (Text × UniqueConstraint)
  constraint_step = group_step row_name new_constraint add_column

  step-Agrees :
      (m : List (Text × Index)) (r : IndexRow)
      → All EntryAgrees m
      → Agrees r
      → All EntryAgrees (index_step m r)
  unfolding upsert
  step-Agrees [] r h a = (a, tt)
  step-Agrees ((k, i) ∷ m) r (hi, h) a = elim (Bool-cases (text_eq k r.index_name)) [
    | inl e ↦ rw e (hi, h)
    | inr n ↦ rw n (hi, step-Agrees m r h a)
  ]

  step_unique :
      (m : List (Text × Index)) (r : IndexRow)
      → All EntryAgrees m
      → Agrees r
      → unique_entries (index_step m r)
        ≡ (if is_yes r.is_unique then constraint_step (unique_entries m) r else unique_entries m)
  unfolding upsert unique_entries
  step_unique [] r h a = refl
  step_unique ((k, i) ∷ m) r (hi, h) a =
      let p : unique_name k ≡ unique_name r.index_name → i.unique ≡ is_yes r.is_unique =
        λ q. hi ∙ q ∙ sym a in
      elim (Bool-cases (text_eq k r.index_name)) [
        | inl e ↦ rw (e, p (ap unique_name ((text_eq_iff k r.index_name).0 e))) ground arith
        | inr n ↦ rw n ground (arith, step_unique m r h a)
      ]

  foldl_unique :
      (m : List (Text × Index)) (rows : List CatalogRow)
      → All EntryAgrees m
      → All (λ c. Agrees c.row) rows
      → unique_entries (foldl index_step m (index_rows rows))
        ≡ foldl constraint_step (unique_entries m) (unique_rows rows)
  unfolding index_rows unique_rows
  foldl_unique m [] h a = refl
  foldl_unique m (c ∷ rows) h (ac, a) =
      let step = step_unique m c.row h ac in
      elim (Bool-cases (is_plain c)) [
        | inr n ↦ elim (Bool-cases (is_yes c.row.is_unique)) [
          | inl y ↦ rw (n, y) (foldl_unique m rows h a)
          | inr y ↦ rw (n, y) (foldl_unique m rows h a)
        ]
        | inl p ↦ rw p (
            foldl_unique (index_step m c.row) rows (step-Agrees m c.row h ac) a
            ∙ ap (λ u. foldl constraint_step u (unique_rows rows)) step
            ∙ elim (Bool-cases (is_yes c.row.is_unique)) [ inl y ↦ rw y refl | inr y ↦ rw y refl ])
      ]

  -- When the rows of an index agree on its uniqueness, the unique constraints that
  -- `get_unique_constraints` finds in a catalog are those of the unique indexes that `get_indexes`
  -- finds in it, with their names and columns, in their order.
  pub get_unique_constraints-get_indexes :
      (rows : List CatalogRow)
      → All (λ c. Agrees c.row) rows
      → (is : List Index) × (get_indexes true (index_rows rows) ≡ ok is)
        × (get_unique_constraints true (unique_rows rows) ≡ ok (unique_part is))
  unfolding get_unique_constraints get_indexes constraint_groups index_groups groups unique_entries
  get_unique_constraints-get_indexes rows a = (
    values (index_groups (index_rows rows)),
    refl,
    ap ok (
        ap values (sym (foldl_unique [] rows tt a))
        ∙ values-unique_entries (index_groups (index_rows rows))),
  )
