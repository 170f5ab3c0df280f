-- ===== src/Reflect/Objects/Served.antt =====
-- A catalog, and what a server that has it answers to the statements of sqlalchemy_cubrid/dialect.py and
-- sqlalchemy_cubrid/inheritance.py: the documented columns of db_class, db_vclass and
-- db_direct_super_class.
use sqlalchemy_cubrid.Reflect.Objects.{
  Cell, null, text, number, Row, Server, object_statement, view_statement, table_statement,
  table_names_statement, view_names_statement, definition_statement, comment_statement,
  super_statement, sub_statement, super_name_statement, sub_names_statement,
}
use sqlalchemy_cubrid.Reflect.Objects.Query.{Query, read_query, answer, count, selected}
use sqlalchemy_cubrid.Prelude.{
  Option, codes, ◌≡◌, Bool, ◌&&◌, not, none, some, List, [], ◌∷◌, Text, text_eq, ok, if◌then◌else◌,
}

-- A class: a table or a view.
pub record Class : Type 0 where
  pub name : Text
  pub is_system : Bool
  pub is_vclass : Bool
  pub definition : Cell
  pub comment : Cell

abbrev pub named : Text → Class → Bool
named n c = text_eq n c.name

abbrev pub is_object : Class → Bool
is_object c = not c.is_system

abbrev pub is_table : Class → Bool
is_table c = not c.is_system && not c.is_vclass

abbrev pub is_user_view : Class → Bool
is_user_view c = not c.is_system && c.is_vclass

abbrev pub name_row : Class → Row
name_row c = text c.name ∷ []

-- The tables of the catalog, by their columns.
unfoldable pub class_cell : Class → Text → Cell
unfolding text_eq
class_cell c column =
    if text_eq column (codes "class_name")
    then text c.name
    else if text_eq column (codes "is_system_class")
    then text (if c.is_system then codes "YES" else codes "NO")
    else if text_eq column (codes "class_type")
    then text (if c.is_vclass then codes "VCLASS" else codes "CLASS")
    else if text_eq column (codes "comment")
    then c.comment
    else null

unfoldable pub vclass_cell : Class → Text → Cell
unfolding text_eq
vclass_cell c column =
    if text_eq column (codes "vclass_name")
    then text c.name
    else if text_eq column (codes "vclass_def")
    then c.definition
    else null

unfoldable pub super_cells : Text × Text → Text → Cell
unfolding text_eq
super_cells l column =
    if text_eq column (codes "class_name")
    then text l.0
    else if text_eq column (codes "super_class_name")
    then text l.1
    else null

unfoldable pub catalog_answer :
    List Class → List (Text × Text) → Option Text → Query → Option (List Row)
unfolding answer
catalog_answer classes supers parameter q =
    if text_eq q.table (codes "db_class")
    then some (answer class_cell classes parameter q)
    else if text_eq q.table (codes "db_vclass")
    then some (answer vclass_cell (selected (λ c. c.is_vclass) (λ c. c) classes) parameter q)
    else if text_eq q.table (codes "db_direct_super_class")
    then some (answer super_cells supers parameter q)
    else none

-- A server whose classes, in the order of their names, and whose pairs of a class and a direct super
-- class, in the order of the classes, are the ones given: it answers every query on them that can be read
-- out of the text of a statement.
abbrev pub Executes : Server → List Class → List (Text × Text) → Type 0
Executes server classes supers =
    (statement : Text) (parameter : Option Text) (q : Query) (rows : List Row)
    → read_query statement ≡ some q
    → catalog_answer classes supers parameter q ≡ some rows
    → server statement parameter ≡ ok rows

-- What it so answers to the statements of the package.
pub record Serves (server : Server) (classes : List Class) (supers : List (Text × Text))
    : Type 0 where
  pub objects :
      (n : Text)
      → server object_statement (some n)
        ≡ ok ((number (count (λ c. named n c && is_object c) classes) ∷ []) ∷ [])
  pub views :
      (n : Text)
      → server view_statement (some n)
        ≡ ok ((number (count (λ c. named n c && is_user_view c) classes) ∷ []) ∷ [])
  pub tables :
      (n : Text)
      → server table_statement (some n)
        ≡ ok ((number (count (λ c. named n c && is_table c) classes) ∷ []) ∷ [])
  pub table_names : server table_names_statement none ≡ ok (selected is_table name_row classes)
  pub view_names : server view_names_statement none ≡ ok (selected is_user_view name_row classes)
  pub definitions :
      (n : Text)
      → server definition_statement (some n)
        ≡ ok (selected (λ c. named n c && c.is_vclass) (λ c. c.definition ∷ []) classes)
  pub comments :
      (n : Text)
      → server comment_statement (some n)
        ≡ ok (selected (λ c. named n c && is_object c) (λ c. c.comment ∷ []) classes)
  pub super_classes :
      (n : Text)
      → server super_statement (some n)
        ≡ ok (selected (λ l. text_eq n l.0) (λ l. text l.1 ∷ []) supers)
  pub sub_classes :
      (n : Text)
      → server sub_statement (some n)
        ≡ ok (selected (λ l. text_eq n l.1) (λ l. text l.0 ∷ []) supers)
  pub super_names :
      (n : Text)
      → server super_name_statement (some n)
        ≡ ok (selected (λ l. text_eq n l.0) (λ l. text l.1 ∷ []) supers)
  pub sub_names :
      (n : Text)
      → server sub_names_statement (some n)
        ≡ ok (selected (λ l. text_eq n l.1) (λ l. text l.0 ∷ []) supers)
