-- ===== src/Reflect/ForeignKeys/RoundTrip.antt =====
-- `get_foreign_keys` of sqlalchemy_cubrid/dialect.py on what SHOW CREATE TABLE prints.
use sqlalchemy_cubrid.Reflect.ForeignKeys.{
  column_names, normal_action, ForeignKey, foreign_key, sort_by_name, get_foreign_keys,
}
use sqlalchemy_cubrid.Reflect.ForeignKeys.Printed.{
  Action, cascade, set_null, no_action, restrict, action_text, PrintedKey, columns_text,
  action_captures, key_captures, IsName, IsOwner, IsMatchable,
}
use sqlalchemy_cubrid.Reflect.ForeignKeys.Columns.{
  AreColumns, column_names-columns_text, columns_text-IsColumns,
}
use sqlalchemy_cubrid.Reflect.ForeignKeys.ReadBack.{
  IsQuiet, find_all-IsQuiet, ddl_text, IsGap, find_all-ddl_text,
}
use sqlalchemy_cubrid.Prelude.{
  to_upper, ◌≡◌, refl, ap, ap₂, ◌∙◌, Bool, Option, none, some, List, [], ◌∷◌, ◌++◌, map, Text, All,
  All-map, Lacks, Result, ok,
}

-- The entry that stands for a printed key.
abbrev pub optional_text : Option Action → Option Text
optional_text none = none
optional_text (some a) = some (action_text a)

abbrev pub entry_of : Option Text → PrintedKey → ForeignKey
entry_of schema f = record {
  name = f.name;
  constrained_columns = f.columns;
  referred_schema = schema;
  referred_table = f.table;
  referred_columns = f.referred;
  ondelete = optional_text f.on_delete;
  onupdate = optional_text f.on_update;
}

normal_action-action_text : (a : Action) → normal_action (action_text a) ≡ action_text a
unfolding normal_action to_upper
normal_action-action_text cascade = refl
normal_action-action_text set_null = refl
normal_action-action_text no_action = refl
normal_action-action_text restrict = refl

foreign_key-captures :
    (schema : Option Text) (name columns table referred : Text) (d u : Option Action)
    → foreign_key schema (
        action_captures 6 u
          (action_captures 5 d ((4, referred) ∷ (3, table) ∷ (2, columns) ∷ (1, name) ∷ [])))
      ≡ record {
        name = name;
        constrained_columns = column_names columns;
        referred_schema = schema;
        referred_table = table;
        referred_columns = column_names referred;
        ondelete = optional_text d;
        onupdate = optional_text u;
      }
unfolding foreign_key
foreign_key-captures schema name columns table referred none none = refl
foreign_key-captures schema name columns table referred none (some a) =
    rw (normal_action-action_text a) refl
foreign_key-captures schema name columns table referred (some a) none =
    rw (normal_action-action_text a) refl
foreign_key-captures schema name columns table referred (some a) (some b) =
    rw (normal_action-action_text a, normal_action-action_text b) refl

-- A key whose text can be read: names without the characters that end them, at least one column on
-- each side, and a table name without a dot.
abbrev pub IsPrintable : PrintedKey → Type 0
IsPrintable f =
    IsName f.name
    × AreColumns f.columns
    × IsOwner f.owner
    × (IsName f.table × Lacks b'.' f.table)
    × AreColumns f.referred

IsPrintable-IsMatchable : (f : PrintedKey) → IsPrintable f → IsMatchable f
IsPrintable-IsMatchable f (n, c, o, t, r) =
    (n, columns_text-IsColumns f.columns c, o, t, columns_text-IsColumns f.referred r)

foreign_key-key_captures :
    (schema : Option Text) (f : PrintedKey)
    → IsPrintable f
    → foreign_key schema (key_captures f) ≡ entry_of schema f
foreign_key-key_captures schema f (n, c, o, t, r) =
    foreign_key-captures schema f.name (columns_text f.columns) f.table (columns_text f.referred)
      f.on_delete f.on_update
    ∙ rw (column_names-columns_text f.columns c, column_names-columns_text f.referred r) refl

entries :
    (schema : Option Text) (keys : List (PrintedKey × Text))
    → All (λ k. IsPrintable k.0 × IsGap k.1) keys
    → map (foreign_key schema) (map (λ k. key_captures k.0) keys)
      ≡ map (λ k. entry_of schema k.0) keys
entries schema [] h = refl
entries schema (k ∷ keys) ((p, g), h) =
    ap₂ (λ x xs. x ∷ xs) (foreign_key-key_captures schema k.0 p) (entries schema keys h)

-- Every foreign key that SHOW CREATE TABLE prints is read back: its name, its columns in their order,
-- the table without its owner, the columns there and both actions. The entries are sorted by name.
-- Names are not empty and lack the characters that end them, the table's also a dot, and there is a
-- column on each side. The text before the keys, and between them, is any in which no match of the
-- pattern begins; there is some behind each key, and it does not start with white space.
pub get_foreign_keys-ddl_text :
    (schema : Option Text) (start : Text) (keys : List (PrintedKey × Text)) (is_view : Result Bool)
    → IsQuiet start
    → All (λ k. IsPrintable k.0 × IsGap k.1) keys
    → get_foreign_keys schema (ok (some (start ++ ddl_text keys))) is_view
      ≡ ok (sort_by_name (map (λ k. entry_of schema k.0) keys))
unfolding get_foreign_keys
get_foreign_keys-ddl_text schema start keys is_view q h =
    ap (λ caps. ok (sort_by_name (map (foreign_key schema) caps)))
      (find_all-IsQuiet start (ddl_text keys) q
        ∙ find_all-ddl_text keys
            (All-map _ _ (λ k g. (IsPrintable-IsMatchable k.0 g.0, g.1)) keys h))
    ∙ ap (λ fks. ok (sort_by_name fks)) (entries schema keys h)
