-- ===== src/Reflect/Objects/Laws.antt =====
-- The tests and listings of tables and views in sqlalchemy_cubrid/dialect.py against the catalog of the
-- server, and what they raise for a name that is not there.
use sqlalchemy_cubrid.Reflect.Objects.{
  Cell, text, Row, Server, cell_at, fetchone, scalar_positive, first_cells, or_null, has_object,
  is_view, has_table, get_table_names, get_view_names, get_view_definition, get_check_constraints,
  get_table_comment,
}
use sqlalchemy_cubrid.Reflect.Objects.Executed.{Executes-Serves}
use sqlalchemy_cubrid.Reflect.Objects.Query.{count, selected}
use sqlalchemy_cubrid.Reflect.Objects.Served.{
  Class, named, is_object, is_table, is_user_view, Serves, Executes,
}
use sqlalchemy_cubrid.Prelude.{
  ap₂, sym, ◌≡◌, refl, ap, ◌∙◌, Bool, false, ◌&&◌, ◌||◌, Option, none, some, List, [], ◌∷◌, map,
  Text, text_eq, one_of, lower, ltb, Result, ok, err, no_such_table, if◌then◌else◌, arith, ◌>>=◌,
}

-- There is an entry that passes the test.
unfoldable pub any {ℓ} : {A : Type ℓ} → (A → Bool) → List A → Bool
any p [] = false
any p (x ∷ xs) = p x || any p xs

ltb-count : {A : Type 0} (p : A → Bool) (xs : List A) → ltb 0 (count p xs) ≡ any p xs
unfolding count any
ltb-count p [] = refl
ltb-count p (x ∷ xs) = ground (arith, ltb-count p xs)

any_or :
    {A : Type 0} (p q r : A → Bool) (xs : List A)
    → ((x : A) → p x ≡ (q x || r x))
    → any p xs ≡ (any q xs || any r xs)
unfolding any
any_or p q r [] h = refl
any_or p q r (x ∷ xs) h = ground (arith, h x, any_or p q r xs h)

pub first_cells-selected :
    {A : Type 0} (p : A → Bool) (f : A → Text) (xs : List A)
    → first_cells (selected p (λ x. text (f x) ∷ []) xs) ≡ ok (map text (selected p f xs))
unfolding first_cells selected
first_cells-selected p f [] = refl
first_cells-selected p f (x ∷ xs) = ground (arith, first_cells-selected p f xs)

pub one_of-selected :
    {A : Type 0} (p : A → Bool) (f : A → Text) (n : Text) (xs : List A)
    → one_of n (selected p f xs) ≡ any (λ x. text_eq n (f x) && p x) xs
unfolding one_of selected any
one_of-selected p f n [] = refl
one_of-selected p f n (x ∷ xs) = ground (arith, one_of-selected p f n xs)

-- The first entry that passes the test.
unfoldable pub find {ℓ} : {A : Type ℓ} → (A → Bool) → List A → Option A
find p [] = none
find p (x ∷ xs) = if p x then some x else find p xs

module _ (server : Server) (classes : List Class) (supers : List (Text × Text))
    (s : Serves server classes supers) where
  has_table-any :
      (name : Text)
      → has_table server name ≡ ok (any (λ c. named (lower name) c && is_table c) classes)
  unfolding has_table
  has_table-any name =
      ap (λ r. r >>= scalar_positive) (s.tables (lower name))
      ∙ (unfold scalar_positive in
          ap ok (ltb-count (λ c. named (lower name) c && is_table c) classes))

  is_view-any :
      (name : Text)
      → is_view server name ≡ ok (any (λ c. named (lower name) c && is_user_view c) classes)
  unfolding is_view
  is_view-any name =
      ap (λ r. r >>= scalar_positive) (s.views (lower name))
      ∙ (unfold scalar_positive in
          ap ok (ltb-count (λ c. named (lower name) c && is_user_view c) classes))

  has_object-any :
      (name : Text)
      → has_object server name ≡ ok (any (λ c. named (lower name) c && is_object c) classes)
  unfolding has_object
  has_object-any name =
      ap (λ r. r >>= scalar_positive) (s.objects (lower name))
      ∙ (unfold scalar_positive in
          ap ok (ltb-count (λ c. named (lower name) c && is_object c) classes))

-- On a server that executes the statements on its catalog, the listings and the tests say the same: `get_table_names` and `get_view_names` return lists of names,
-- and for every name `has_table` holds exactly if its lower-case form is in the first, `_is_view`
-- exactly if it is in the second, and `_has_object` exactly if it is in one of them.
pub has_table-get_table_names :
    (server : Server) (classes : List Class) (supers : List (Text × Text))
    → Executes server classes supers
    → (tables : List Text) × (views : List Text) × (get_table_names server ≡ ok (map text tables))
      × (get_view_names server ≡ ok (map text views))
      × ((name : Text)
          → (has_table server name ≡ ok (one_of (lower name) tables))
            × (is_view server name ≡ ok (one_of (lower name) views))
            × (has_object server name
                ≡ ok (one_of (lower name) tables || one_of (lower name) views)))
unfolding get_table_names get_view_names
has_table-get_table_names server classes supers e =
    let s = Executes-Serves server classes supers e in
    let tables = selected is_table (λ c. c.name) classes in
    let views = selected is_user_view (λ c. c.name) classes in
    (
      tables,
      views,
      ap (λ r. r >>= first_cells) s.table_names
          ∙ first_cells-selected is_table (λ c. c.name) classes,
      ap (λ r. r >>= first_cells) s.view_names
          ∙ first_cells-selected is_user_view (λ c. c.name) classes,
      λ name. (
        has_table-any server classes supers s name
            ∙ ap ok (sym (one_of-selected is_table (λ c. c.name) (lower name) classes)),
        is_view-any server classes supers s name
            ∙ ap ok (sym (one_of-selected is_user_view (λ c. c.name) (lower name) classes)),
        has_object-any server classes supers s name
            ∙ ap ok (
                any_or _ (λ c. named (lower name) c && is_table c)
                  (λ c. named (lower name) c && is_user_view c) classes (λ c. ground arith)
                ∙ ap₂ (λ a b. a || b)
                    (sym (one_of-selected is_table (λ c. c.name) (lower name) classes))
                    (sym (one_of-selected is_user_view (λ c. c.name) (lower name) classes))),
      ),
    )

-- What a function raises or returns for an entry that may be missing.
abbrev pub found : {A B : Type 0} → (A → B) → Option A → Result B
found f none = err no_such_table
found f (some a) = ok (f a)

-- The end of `get_table_comment` and of `get_view_definition`.
abbrev comment_of : List Row → Result Cell
comment_of rows = elim (fetchone rows) [
  | none ↦ err no_such_table
  | some row ↦ cell_at 0 row >>= λ c. ok (or_null c)
]

abbrev definition_of : List Row → Result Cell
definition_of rows = elim (fetchone rows) [
  | none ↦ err no_such_table
  | some row ↦ elim row [ [] ↦ err no_such_table | c ∷ cs ↦ ok c ]
]

comment_of-selected :
    (p : Class → Bool) (xs : List Class)
    → comment_of (selected p (λ c. c.comment ∷ []) xs) ≡ found (λ c. or_null c.comment) (find p xs)
unfolding selected find cell_at
comment_of-selected p [] = refl
comment_of-selected p (x ∷ xs) = ground (arith, comment_of-selected p xs)

definition_of-selected :
    (p : Class → Bool) (xs : List Class)
    → definition_of (selected p (λ c. c.definition ∷ []) xs) ≡ found (λ c. c.definition) (find p xs)
unfolding selected find
definition_of-selected p [] = refl
definition_of-selected p (x ∷ xs) = ground (arith, definition_of-selected p xs)

-- The end of `get_check_constraints`.
abbrev constraints_of : Bool → Result (List Text)
constraints_of b = if b then ok [] else err no_such_table

found-any :
    (p : Class → Bool) (xs : List Class) → constraints_of (any p xs) ≡ found (λ c. []) (find p xs)
unfolding any find
found-any p [] = refl
found-any p (x ∷ xs) = ground (arith, found-any p xs)

-- An object that the catalog lacks is NoSuchTableError everywhere: for a table or view that is there,
-- `get_table_comment` returns its comment (no text for the empty one) and `get_check_constraints`
-- nothing, and for a view `get_view_definition` its definition; for any other name each of them raises.
pub get_table_comment-find :
    (server : Server) (classes : List Class) (supers : List (Text × Text))
    → Executes server classes supers
    → (name : Text)
    → (get_table_comment server name
        ≡ found (λ c. or_null c.comment) (find (λ c. named (lower name) c && is_object c) classes))
      × (get_check_constraints server name
          ≡ found (λ c. []) (find (λ c. named (lower name) c && is_object c) classes))
      × (get_view_definition server name
          ≡ found (λ c. c.definition) (find (λ c. named (lower name) c && c.is_vclass) classes))
unfolding get_table_comment get_check_constraints get_view_definition
get_table_comment-find server classes supers e name =
    let s = Executes-Serves server classes supers e in
    (
      ap (λ r. r >>= comment_of) (s.comments (lower name))
          ∙ comment_of-selected (λ c. named (lower name) c && is_object c) classes,
      ap (λ r. r >>= constraints_of) (has_object-any server classes supers s name)
          ∙ found-any (λ c. named (lower name) c && is_object c) classes,
      ap (λ r. r >>= definition_of) (s.definitions (lower name))
          ∙ definition_of-selected (λ c. named (lower name) c && c.is_vclass) classes,
    )
