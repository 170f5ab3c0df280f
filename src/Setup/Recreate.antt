-- ===== src/Setup/Recreate.antt =====
-- Indexes between the two directions: the `dialect_options` that `get_indexes` of
-- sqlalchemy_cubrid/dialect.py returns, as the arguments of an `Index`, and what `visit_create_index` of
-- sqlalchemy_cubrid/compiler.py reads of them.
use sqlalchemy_cubrid.Prelude.Dict.{lookup, keys, values}
use sqlalchemy_cubrid.Prelude.{
  if◌then◌else◌, map, All-append, ◌≡◌, refl, ap, ◌∙◌, Bool, true, false, Option, none, some, List,
  [], ◌∷◌, ◌++◌, All, Text, codes, one_of, text_eq, Result, ok,
}
use sqlalchemy_cubrid.Setup.{Argument, flag, expression, index_arguments, is_truthy}
use sqlalchemy_cubrid.Reflect.Constraints.{
  DialectOptions, IndexRow, Index, same_column, get_indexes,
}
use sqlalchemy_cubrid.Reflect.Constraints.Laws.{rows_of, index_of, get_indexes-lookup}
use sqlalchemy_cubrid.Ddl.Indexes
use sqlalchemy_cubrid.Ddl.Indexes.{
  ReadIndex, indexed, given, visit_create_index, read_create_index, read-visit_create_index,
}
use sqlalchemy_cubrid.Sql.Groups.{balanced}
use sqlalchemy_cubrid.Sql.Quoted.{Quoting}

abbrev flag_entry : Text → Bool → List (Text × Argument)
flag_entry key false = []
flag_entry key true = (key, flag true) ∷ []

abbrev text_entry : Text → Option Text → List (Text × Argument)
text_entry key none = []
text_entry key (some t) = (key, expression t) ∷ []

-- The entries of the `dict` in `dialect_options`.
unfoldable pub option_entries : DialectOptions → List (Text × Argument)
option_entries o =
    flag_entry (codes "cubrid_reverse") o.reverse
    ++ (text_entry (codes "cubrid_filtered") o.filtered
        ++ text_entry (codes "cubrid_function") o.function)

-- An argument that is declared under the key behind "cubrid_".
abbrev pub IsDeclared : List (Text × Argument) → Text × Argument → Type 0
IsDeclared declared e =
    (k : Text) × (e.0 ≡ codes "cubrid_" ++ k) × (one_of k (keys declared) ≡ true)

abbrev pub or_declared : Option Argument → Option Argument → Option Argument
or_declared none d = d
or_declared (some v) d = some v

-- What SQLAlchemy makes of the arguments "cubrid_…" of a construct, from the declared ones: declared
-- arguments are accepted, and one that is not given has its declared value.
pub record Constructs : Type 0 where
  pub dialect_options :
      List (Text × Argument) → List (Text × Argument) → Result (Text → Option Argument)
  pub accepts_declared :
      (declared given : List (Text × Argument))
      → All (IsDeclared declared) given
      → (options : Text → Option Argument) × (dialect_options declared given ≡ ok options)
        × ((k : Text)
            → options k ≡ or_declared (lookup (codes "cubrid_" ++ k) given) (lookup k declared))

abbrev truth : Option Argument → Bool
truth none = false
truth (some v) = is_truthy v

abbrev text_of : Option Argument → Option Text
text_of (some (expression t)) = some t
text_of _ = none

-- What `visit_create_index` reads: the options by `.get(…)`, the rest by the index.
unfoldable pub index_with :
    Text → Text → Bool → List Text → (Text → Option Argument) → Indexes.Index
unfolding is_truthy
index_with name table unique expressions options = record {
  name = name;
  table = table;
  unique = unique;
  reverse = truth (options (codes "reverse"));
  function = text_of (options (codes "function"));
  expressions = expressions;
  filtered = text_of (options (codes "filtered"));
}

text_entry-IsDeclared :
    (k : Text) (o : Option Text)
    → one_of k (keys index_arguments) ≡ true
    → All (IsDeclared index_arguments) (text_entry (codes "cubrid_" ++ k) o)
text_entry-IsDeclared k none h = tt
text_entry-IsDeclared k (some t) h = ((k, refl, h), tt)

option_entries-IsDeclared :
    (reverse : Bool) (filtered function : Option Text)
    → All
        (IsDeclared index_arguments)
        (option_entries (record { reverse = reverse; filtered = filtered; function = function }))
unfolding option_entries index_arguments one_of text_eq
option_entries-IsDeclared reverse filtered function =
    All-append (IsDeclared index_arguments) (flag_entry (codes "cubrid_reverse") reverse) _
      (elim reverse
        as (λ b. All (IsDeclared index_arguments) (flag_entry (codes "cubrid_reverse") b)) [
          | true ↦ ((codes "reverse", refl, refl), tt)
          | false ↦ tt
        ])
      (All-append (IsDeclared index_arguments) (text_entry (codes "cubrid_filtered") filtered) _
        (text_entry-IsDeclared (codes "filtered") filtered refl)
        (text_entry-IsDeclared (codes "function") function refl))

-- The option that SQLAlchemy hands to the compiler, under a key of the dialect.
abbrev option_at : DialectOptions → Text → Option Argument
option_at o k =
    or_declared (lookup (codes "cubrid_" ++ k) (option_entries o)) (lookup k index_arguments)

option_at-entries :
    (reverse : Bool) (filtered function : Option Text)
    → let o : DialectOptions = record {
      reverse = reverse;
      filtered = filtered;
      function = function;
    } in
      (truth (option_at o (codes "reverse")) ≡ reverse)
      × (text_of (option_at o (codes "filtered")) ≡ filtered)
      × (text_of (option_at o (codes "function")) ≡ function)
unfolding option_entries index_arguments lookup text_eq is_truthy
option_at-entries true none none = (refl, refl, refl)
option_at-entries true none (some f) = (refl, refl, refl)
option_at-entries true (some t) none = (refl, refl, refl)
option_at-entries true (some t) (some f) = (refl, refl, refl)
option_at-entries false none none = (refl, refl, refl)
option_at-entries false none (some f) = (refl, refl, refl)
option_at-entries false (some t) none = (refl, refl, refl)
option_at-entries false (some t) (some f) = (refl, refl, refl)

-- The sorting of a column, if the index has one for it.
unfoldable pub column_order : Option Text → List (Option Text × Text) → Option Text
column_order column [] = none
column_order column ((c, order) ∷ rest) =
    if same_column c column then some order else column_order column rest

index_with-eq :
    (name table : Text) (unique : Bool) (expressions : List Text) (options : Text → Option Argument)
    {reverse : Bool} {filtered function : Option Text}
    → truth (options (codes "reverse")) ≡ reverse
    → text_of (options (codes "filtered")) ≡ filtered
    → text_of (options (codes "function")) ≡ function
    → index_with name table unique expressions options ≡ record {
      name = name;
      table = table;
      unique = unique;
      reverse = reverse;
      function = function;
      expressions = expressions;
      filtered = filtered;
    }
unfolding index_with
index_with-eq name table unique expressions options p q f = cc

-- SQLAlchemy's use of the options, a way to quote names, and the text that it makes of a column of the
-- table with its sorting.
module _ (constructs : Constructs) (quoting : Quoting) (render : Option Text → Option Text → Text)
    (table : Text) where
  abbrev pub rendered : Index → List Text
  rendered i = map (λ c. render c (column_order c i.column_sorting)) i.column_names

  -- What the server reads of an index that is created again.
  abbrev pub read_back : Index → ReadIndex
  read_back i = record {
    unique = i.unique;
    reverse = i.dialect_options.reverse;
    name = i.name;
    table = table;
    inner = indexed i.dialect_options.function (rendered i);
    condition = given i.dialect_options.filtered;
  }

  -- What is indexed closes its brackets.
  abbrev pub IsClosed : Index → Type 0
  IsClosed i = balanced 0 (indexed i.dialect_options.function (rendered i)) ≡ true

  -- The options are accepted, and the statement reads back.
  abbrev pub IsRecreated : Index → Type 0
  IsRecreated i =
      (options : Text → Option Argument) × (constructs.dialect_options index_arguments
          (option_entries i.dialect_options)
        ≡ ok options)
      × (read_create_index quoting (
            visit_create_index quoting.quote_identifier
              (index_with i.name table i.unique (rendered i) options))
          ≡ some (read_back i))

  index_with-IsRecreated : (i : Index) → IsClosed i → IsRecreated i
  index_with-IsRecreated i h =
      let o = i.dialect_options in
      let (options, e, at_key) =
        constructs.accepts_declared index_arguments (option_entries o)
          (option_entries-IsDeclared o.reverse o.filtered o.function) in
      let (p, q, f) = option_at-entries o.reverse o.filtered o.function in
      (
        options,
        e,
        ap (λ x. read_create_index quoting (visit_create_index quoting.quote_identifier x))
              (index_with-eq i.name table i.unique (rendered i) options
                (ap truth (at_key (codes "reverse")) ∙ p)
                (ap text_of (at_key (codes "filtered")) ∙ q)
                (ap text_of (at_key (codes "function")) ∙ f))
            ∙ (read-visit_create_index quoting
                (record {
                  name = i.name;
                  table = table;
                  unique = i.unique;
                  reverse = o.reverse;
                  function = o.function;
                  expressions = rendered i;
                  filtered = o.filtered;
                })
                h).0,
      )

  -- An index of a catalog, reflected and created again: `get_indexes` returns, under each name that has
  -- rows, the index that they say, and its options are arguments that the dialect declares, so
  -- SQLAlchemy accepts them; and the CREATE INDEX of the index that they make reads back, for any way to
  -- quote names that can be read, as unique, reversed and filtered as the index is, on its function or
  -- else on all its columns, each with its sorting. What is indexed closes its brackets.
  pub read-get_indexes :
      (rows : List IndexRow) (k : Text) (i : Index)
      → index_of (rows_of k rows) ≡ some i
      → IsClosed i
      → (m : List (Text × Index)) × (get_indexes true rows ≡ ok (values m))
        × (lookup k m ≡ some i)
        × IsRecreated i
  read-get_indexes rows k i p closed =
      let (m, e, _, at) = get_indexes-lookup rows in
      (m, e, at k ∙ p, index_with-IsRecreated i closed)
