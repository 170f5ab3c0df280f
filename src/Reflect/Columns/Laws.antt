-- ===== src/Reflect/Columns/Laws.antt =====
-- What `get_columns` of sqlalchemy_cubrid/dialect.py makes of the answers of the server.
use sqlalchemy_cubrid.Resolve.{TypeClass, Arg, SaType, null_type, instance_of, resolve_type}
use sqlalchemy_cubrid.Resolve.Total.{resolve_type_total}
use sqlalchemy_cubrid.Reflect.Constraints.{is_yes, truthy}
use sqlalchemy_cubrid.Reflect.Columns.{
  ColumnRow, ColumnInfo, comment_map, get_comment, is_autoincrement, read_columns, get_columns,
}
use sqlalchemy_cubrid.Prelude.Dict.{lookup-upsert, set_item}
use sqlalchemy_cubrid.Prelude.{
  Bool-cases, if◌then◌else◌, ◌≡◌, refl, ap, ◌∙◌, ◌⊎◌, inl, inr, Bool, true, Option, none, some,
  List, [], ◌∷◌, Text, text_eq, ok, Error, database_error,
}

-- The comment in the last row of a column.
unfoldable pub last_comment : Text → Option Text → List (Text × Option Text) → Option Text
last_comment k o [] = o
last_comment k o (r ∷ rows) = last_comment k (if text_eq r.0 k then truthy r.1 else o) rows

get_comment-set_item :
    (k : Text) (r : Text × Option Text) (m : List (Text × Option Text))
    → get_comment k (set_item r.0 (truthy r.1) m)
      ≡ (if text_eq r.0 k then truthy r.1 else get_comment k m)
unfolding get_comment set_item
get_comment-set_item k r m =
    rw (lookup-upsert r.0 k (truthy r.1) (λ w. truthy r.1) m, get_comment)
      elim (Bool-cases (text_eq r.0 k)) [ inl e ↦ rw e refl | inr n ↦ rw n refl ]

get_comment-comment_map :
    (k : Text) (m rows : List (Text × Option Text))
    → get_comment k (comment_map m rows) ≡ last_comment k (get_comment k m) rows
unfolding comment_map last_comment
get_comment-comment_map k m [] = refl
get_comment-comment_map k m (r ∷ rows) =
    get_comment-comment_map k (set_item r.0 (truthy r.1) m) rows
    ∙ ap (λ o. last_comment k o rows) (get_comment-set_item k r m)

-- The infos describe the rows, one each and in their order.
abbrev pub Describes :
    (TypeClass → List Arg → Bool)
    → List (Text × Option Text)
    → List ColumnRow
    → List ColumnInfo
    → Type 0
Describes accepts comments [] [] = Unit
Describes accepts comments [] (i ∷ infos) = ⊥
Describes accepts comments (r ∷ rows) [] = ⊥
Describes accepts comments (r ∷ rows) (i ∷ infos) =
    (i.name ≡ r.field)
    × (resolve_type accepts r.type_text ≡ ok i.column_type)
    × (i.nullable ≡ is_yes r.null)
    × (i.default ≡ r.default)
    × (i.autoincrement ≡ is_autoincrement r.extra)
    × (i.comment ≡ last_comment r.field none comments)
    × Describes accepts comments rows infos

module _ (accepts : TypeClass → List Arg → Bool)
    (bare : (cls : TypeClass) → accepts cls [] ≡ true) where
  resolves : (s : Text) → (t : SaType) × (resolve_type accepts s ≡ ok t)
  resolves s = elim (resolve_type_total accepts bare s) [
    | inl e ↦ (null_type, e)
    | inr (name, params, cls, args, found, known, e) ↦ (instance_of cls args, e)
  ]

  read_columns_total :
      (comments : List (Text × Option Text)) (rows : List ColumnRow)
      → (infos : List ColumnInfo) × (read_columns accepts (comment_map [] comments) rows none
          ≡ ok infos)
        × Describes accepts comments rows infos
  unfolding read_columns
  read_columns_total comments [] = ([], refl, tt)
  read_columns_total comments (r ∷ rows) =
      let (t, e) = resolves r.type_text in
      let (infos, f, d) = read_columns_total comments rows in
      (
        record {
          name = r.field;
          column_type = t;
          nullable = is_yes r.null;
          default = r.default;
          autoincrement = is_autoincrement r.extra;
          comment = get_comment r.field (comment_map [] comments);
        }
            ∷ infos,
        rw (e, f) refl,
        (refl, e, refl, refl, refl, get_comment-comment_map r.field [] comments, d),
      )

  -- When the rows of SHOW COLUMNS arrive, `get_columns` returns one info per row, in their order,
  -- whatever the types and the comments are, also when a database error ends the comments: each
  -- comment is then the last one that did arrive for the column.
  pub get_columns_total :
      (rows : List ColumnRow) (comments : List (Text × Option Text)) (stop : Option Error)
      → (stop ≡ none) ⊎ (stop ≡ some database_error)
      → (infos : List ColumnInfo) × (get_columns accepts (ok (rows, none)) (comments, stop)
          ≡ ok infos)
        × Describes accepts comments rows infos
  unfolding get_columns
  get_columns_total rows comments none h = read_columns_total comments rows
  get_columns_total rows comments (some database_error) h = read_columns_total comments rows
  get_columns_total rows comments (some e) (inl p) = cc
  get_columns_total rows comments (some e) (inr p) = cc
