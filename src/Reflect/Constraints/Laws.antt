-- ===== src/Reflect/Constraints/Laws.antt =====
-- What reflection of keys and indexes in sqlalchemy_cubrid/dialect.py makes of the catalog's rows.
use sqlalchemy_cubrid.Prelude.{
  ◌≡◌, refl, sym, ap, ◌∙◌, true, Option, none, some, List, [], ◌∷◌, ◌++◌, map, append_assoc,
  append-nil, Text, text_eq, Bool-cases, inl, inr, ok, if◌then◌else◌,
}
use sqlalchemy_cubrid.Prelude.Dict.{lookup, keys, values, IsUnique}
use sqlalchemy_cubrid.Reflect.Groups.{entry, lookup-groups, groups-IsUnique}
use sqlalchemy_cubrid.Reflect.Constraints.{
  IndexRow, PrimaryKey, UniqueConstraint, Index, is_yes, row_name, new_constraint, add_column,
  new_index, add_index_column, row_options, row_sorting, pk_rows, get_pk_constraint,
  constraint_groups, index_groups, get_unique_constraints, get_indexes,
}

-- The rows of one name, in order, and their columns.
unfoldable pub rows_of : Text → List IndexRow → List IndexRow
rows_of k [] = []
rows_of k (r ∷ rows) = if text_eq r.index_name k then r ∷ rows_of k rows else rows_of k rows

unfoldable pub columns_of : Text → List IndexRow → List (Option Text)
unfolding rows_of
columns_of k rows = map (λ r. r.key_attr_name) (rows_of k rows)

-- The sorting that the rows of one name leave, from what earlier rows left.
unfoldable pub sorting_of : List IndexRow → List (Option Text × Text) → List (Option Text × Text)
sorting_of [] sorting = sorting
sorting_of (r ∷ rows) sorting = sorting_of rows (row_sorting r sorting)

-- What the first row of a name, and all of them, say of an index.
unfoldable pub index_of : List IndexRow → Option Index
index_of [] = none
index_of (r ∷ rows) = some (record {
  name = r.index_name;
  unique = is_yes r.is_unique;
  column_names = map (λ q. q.key_attr_name) (r ∷ rows);
  column_sorting = sorting_of (r ∷ rows) [];
  dialect_options = row_options r;
})

entry_index :
    (k : Text) (i : Index) (rows : List IndexRow)
    → entry row_name new_index add_index_column k (some i) rows
      ≡ some (record i {
        column_names = i.column_names ++ columns_of k rows;
        column_sorting = sorting_of (rows_of k rows) i.column_sorting;
      })
unfolding entry columns_of sorting_of
entry_index k i [] =
    ap (λ cs. some (record i { column_names = cs })) (sym (append-nil i.column_names))
entry_index k i (r ∷ rows) = elim (Bool-cases (text_eq r.index_name k)) [
  | inl e ↦ rw e (
      entry_index k (add_index_column r i) rows
      ∙ ap
          (λ cs. some (record i {
            column_names = cs;
            column_sorting = sorting_of (rows_of k rows) (row_sorting r i.column_sorting);
          }))
          (append_assoc i.column_names (r.key_attr_name ∷ []) (columns_of k rows)))
  | inr n ↦ rw n (entry_index k i rows)
]

entry-index_of :
    (k : Text) (rows : List IndexRow)
    → entry row_name new_index add_index_column k none rows ≡ index_of (rows_of k rows)
unfolding entry index_of rows_of columns_of row_sorting sorting_of
entry-index_of k [] = refl
entry-index_of k (r ∷ rows) = elim (Bool-cases (text_eq r.index_name k)) [
  | inl e ↦ rw e (entry_index k (add_index_column r (new_index r)) rows)
  | inr n ↦ rw n (entry-index_of k rows)
]

-- `get_indexes` of an existing table: each name has one index, and it is the one that the rows of the
-- name say: uniqueness and options from the first of them, the columns in row order, the sorting by
-- the rows in order; a name with no row has none.
pub get_indexes-lookup :
    (rows : List IndexRow)
    → (m : List (Text × Index)) × (get_indexes true rows ≡ ok (values m))
      × IsUnique (keys m)
      × ((k : Text) → lookup k m ≡ index_of (rows_of k rows))
unfolding get_indexes
get_indexes-lookup rows = (
  index_groups rows,
  refl,
  groups-IsUnique row_name new_index add_index_column rows,
  λ k. lookup-groups row_name new_index add_index_column k rows ∙ entry-index_of k rows,
)

unfoldable pub constraint_of : List IndexRow → Option UniqueConstraint
constraint_of [] = none
constraint_of (r ∷ rows) = some (record {
  name = r.index_name;
  column_names = map (λ q. q.key_attr_name) (r ∷ rows);
  duplicates_index = r.index_name;
})

entry_constraint :
    (k : Text) (u : UniqueConstraint) (rows : List IndexRow)
    → entry row_name new_constraint add_column k (some u) rows
      ≡ some (record u { column_names = u.column_names ++ columns_of k rows })
unfolding entry columns_of
entry_constraint k u [] =
    ap (λ cs. some (record u { column_names = cs })) (sym (append-nil u.column_names))
entry_constraint k u (r ∷ rows) = elim (Bool-cases (text_eq r.index_name k)) [
  | inl e ↦ rw e (
      entry_constraint k (add_column r u) rows
      ∙ ap (λ cs. some (record u { column_names = cs }))
          (append_assoc u.column_names (r.key_attr_name ∷ []) (columns_of k rows)))
  | inr n ↦ rw n (entry_constraint k u rows)
]

entry-constraint_of :
    (k : Text) (rows : List IndexRow)
    → entry row_name new_constraint add_column k none rows ≡ constraint_of (rows_of k rows)
unfolding entry constraint_of rows_of columns_of
entry-constraint_of k [] = refl
entry-constraint_of k (r ∷ rows) = elim (Bool-cases (text_eq r.index_name k)) [
  | inl e ↦ rw e (entry_constraint k (add_column r (new_constraint r)) rows)
  | inr n ↦ rw n (entry-constraint_of k rows)
]

-- `get_unique_constraints` of an existing table: each name has one constraint, with the columns of
-- its rows in their order, and `duplicates_index` is the name; a name with no row has none.
pub get_unique_constraints-lookup :
    (rows : List IndexRow)
    → (m : List (Text × UniqueConstraint)) × (get_unique_constraints true rows ≡ ok (values m))
      × IsUnique (keys m)
      × ((k : Text) → lookup k m ≡ constraint_of (rows_of k rows))
unfolding get_unique_constraints
get_unique_constraints-lookup rows = (
  constraint_groups rows,
  refl,
  groups-IsUnique row_name new_constraint add_column rows,
  λ k. lookup-groups row_name new_constraint add_column k rows ∙ entry-constraint_of k rows,
)

-- The name in the last row.
abbrev pub last_name : Option Text → List IndexRow → Option Text
last_name n [] = n
last_name n (r ∷ rows) = last_name (some r.index_name) rows

pk_rows_lem :
    (pk : PrimaryKey) (rows : List IndexRow)
    → pk_rows pk rows ≡ record {
      constrained_columns = pk.constrained_columns ++ map (λ r. r.key_attr_name) rows;
      name = last_name pk.name rows;
    }
unfolding pk_rows
pk_rows_lem pk [] =
    ap (λ cs. record pk { constrained_columns = cs }) (sym (append-nil pk.constrained_columns))
pk_rows_lem pk (r ∷ rows) =
    pk_rows_lem
      (record {
        constrained_columns = pk.constrained_columns ++ r.key_attr_name ∷ [];
        name = some r.index_name;
      })
      rows
    ∙ ap (λ cs. record { constrained_columns = cs; name = last_name (some r.index_name) rows })
        (append_assoc pk.constrained_columns (r.key_attr_name ∷ [])
          (map (λ q. q.key_attr_name) rows))

-- `get_pk_constraint` of an existing table: the columns in key order, and the name in the last row, or
-- no name where there are no rows.
pub get_pk_constraint-eq :
    (rows : List IndexRow)
    → get_pk_constraint true rows
      ≡ ok (record {
        constrained_columns = map (λ r. r.key_attr_name) rows;
        name = last_name none rows;
      })
unfolding get_pk_constraint
get_pk_constraint-eq rows =
    ap ok (pk_rows_lem (record { constrained_columns = []; name = none }) rows)
