-- ===== src/Tests/Objects.antt =====
-- The catalog queries at a server with a concrete catalog.
use sqlalchemy_cubrid.Reflect.Objects.{
  get_super_class_name, get_sub_class_names, null, text, Row, Server, has_table, is_view,
  has_object, get_table_names, get_view_names, get_table_comment, get_check_constraints,
  get_view_definition, get_super_class, get_sub_classes, get_oid_columns,
}
use sqlalchemy_cubrid.Reflect.Objects.Query.{Query, read_query}
use sqlalchemy_cubrid.Reflect.Objects.Served.{Class, catalog_answer, Executes}
use sqlalchemy_cubrid.Reflect.Objects.Laws.{find, has_table-get_table_names, get_table_comment-find}
use sqlalchemy_cubrid.Reflect.Objects.Inherits.{
  names_class, super_cell, get_sub_classes-get_super_class,
}
use sqlalchemy_cubrid.Prelude.{
  ◌∙◌, ap, ◌≡◌, refl, true, false, ◌||◌, Option, none, some, List, [], ◌∷◌, map, Text, codes,
  text_eq, lower, one_of, Result, ok, err, no_such_table, database_error,
}

-- A server with a catalog reads the statements that it is asked.
abbrev or_error : Option (List Row) → Result (List Row)
or_error none = err database_error
or_error (some rows) = ok rows

abbrev execute_query :
    List Class → List (Text × Text) → Option Text → Option Query → Result (List Row)
execute_query classes supers parameter none = err database_error
execute_query classes supers parameter (some q) =
    or_error (catalog_answer classes supers parameter q)

unfoldable serve : List Class → List (Text × Text) → Server
serve classes supers statement parameter =
    execute_query classes supers parameter (read_query statement)

serve-Executes :
    (classes : List Class) (supers : List (Text × Text))
    → Executes (serve classes supers) classes supers
unfolding serve
serve-Executes classes supers statement parameter q rows e r =
    ap (execute_query classes supers parameter) e ∙ ap or_error r

abbrev person : Class
person = record {
  name = codes "person";
  is_system = false;
  is_vclass = false;
  definition = null;
  comment = text (codes "people");
}

abbrev adults : Class
adults = record {
  name = codes "adults";
  is_system = false;
  is_vclass = true;
  definition = text (codes "select * from person");
  comment = null;
}

abbrev db_class : Class
db_class = record {
  name = codes "db_class";
  is_system = true;
  is_vclass = true;
  definition = text (codes "select ...");
  comment = null;
}

abbrev people : List Class
people = adults ∷ db_class ∷ person ∷ []

abbrev links : List (Text × Text)
links = (codes "student", codes "person") ∷ (codes "teacher", codes "person") ∷ []

has_table-get_table_names_example :
    (tables : List Text) × (views : List Text) × (get_table_names (serve people links)
      ≡ ok (map text tables))
    × (get_view_names (serve people links) ≡ ok (map text views))
    × ((name : Text)
        → (has_table (serve people links) name ≡ ok (one_of (lower name) tables))
          × (is_view (serve people links) name ≡ ok (one_of (lower name) views))
          × (has_object (serve people links) name
              ≡ ok (one_of (lower name) tables || one_of (lower name) views)))
has_table-get_table_names_example =
    has_table-get_table_names (serve people links) people links (serve-Executes people links)

get_table_comment-find_example :
    (get_table_comment (serve people links) (codes "Person") ≡ ok (text (codes "people")))
    × (get_check_constraints (serve people links) (codes "Person") ≡ ok [])
    × (get_view_definition (serve people links) (codes "Person") ≡ err no_such_table)
unfolding find lower text_eq
get_table_comment-find_example =
    get_table_comment-find (serve people links) people links (serve-Executes people links)
      (codes "Person")

get_sub_classes-get_super_class_example :
    (subs : List Text) × (get_sub_classes (serve people links) (codes "PERSON")
      ≡ ok (map text subs))
    × (get_sub_class_names (serve people links) (codes "PERSON") ≡ ok (map text subs))
    × ((child : Text)
        → (q : Option Text) × (get_super_class (serve people links) child ≡ ok (super_cell q))
          × (get_super_class_name (serve people links) child ≡ ok (super_cell q))
          × (one_of (lower child) subs ≡ names_class (lower (codes "PERSON")) q))
get_sub_classes-get_super_class_example =
    get_sub_classes-get_super_class (serve people links) people links (codes "PERSON")
      (serve-Executes people links) (unfold one_of text_eq in (refl, (refl, tt)))

-- A listing of OID columns, from a server that returns one row.
oid_columns :
    get_oid_columns
      (λ statement name. ok ((text (codes "manager") ∷ text (codes "person") ∷ []) ∷ []))
      (codes "department")
    ≡ ok (record { name = text (codes "manager"); referenced_class = text (codes "person") } ∷ [])
unfolding get_oid_columns
oid_columns = refl
