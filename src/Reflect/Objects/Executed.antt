-- ===== src/Reflect/Objects/Executed.antt =====
-- The statements of sqlalchemy_cubrid/dialect.py and sqlalchemy_cubrid/inheritance.py read by a server: what their
-- texts ask for.
use sqlalchemy_cubrid.Reflect.Objects.{
  number, Server, object_statement, view_statement, table_statement, table_names_statement,
  view_names_statement, definition_statement, comment_statement, super_statement, sub_statement,
  super_name_statement, sub_names_statement,
}
use sqlalchemy_cubrid.Reflect.Objects.Query.{read_query, meets, value_of, count, selected}
use sqlalchemy_cubrid.Reflect.Objects.Served.{
  Class, named, class_cell, vclass_cell, super_cells, catalog_answer, Executes, Serves,
}
use sqlalchemy_cubrid.Prelude.{
  ◌≡◌, refl, ap, ◌∙◌, Bool, true, false, not, ◌&&◌, none, some, List, [], ◌∷◌, Text, codes, text_eq,
  split, ok, arith, if◌then◌else◌,
}

count_same :
    {A : Type 0} (p q : A → Bool) (xs : List A) → ((x : A) → p x ≡ q x) → count p xs ≡ count q xs
unfolding count
count_same p q [] h = refl
count_same p q (x ∷ xs) h = ground (arith, h x, count_same p q xs h)

selected_same :
    {A B : Type 0} (p q : A → Bool) (f : A → B) (xs : List A)
    → ((x : A) → p x ≡ q x)
    → selected p f xs ≡ selected q f xs
unfolding selected
selected_same p q f [] h = refl
selected_same p q f (x ∷ xs) h = rw (h x, selected_same p q f xs h)

selected_twice :
    {A B : Type 0} (p q : A → Bool) (f : A → B) (xs : List A)
    → selected p f (selected q (λ x. x) xs) ≡ selected (λ x. p x && q x) f xs
unfolding selected
selected_twice p q f [] = refl
selected_twice p q f (x ∷ xs) = ground (arith, selected_twice p q f xs)

and_true : (a : Bool) → (a && true) ≡ a
and_true true = refl
and_true false = refl

-- The conditions on is_system_class and class_type.
user_test :
    (a b : Bool)
    → (a && (text_eq (codes "NO") (if b then codes "YES" else codes "NO") && true)) ≡ (a && not b)
unfolding text_eq
user_test true true = refl
user_test true false = refl
user_test false b = refl

class_test :
    (a b c : Bool)
    → (a
        && (text_eq (codes "NO") (if b then codes "YES" else codes "NO")
            && (text_eq (codes "CLASS") (if c then codes "VCLASS" else codes "CLASS") && true)))
      ≡ (a && (not b && not c))
unfolding text_eq
class_test false b c = refl
class_test true true c = refl
class_test true false true = refl
class_test true false false = refl

vclass_test :
    (a b c : Bool)
    → (a
        && (text_eq (codes "NO") (if b then codes "YES" else codes "NO")
            && (text_eq (codes "VCLASS") (if c then codes "VCLASS" else codes "CLASS") && true)))
      ≡ (a && (not b && c))
unfolding text_eq
vclass_test false b c = refl
vclass_test true true c = refl
vclass_test true false true = refl
vclass_test true false false = refl

-- What the server answers to each statement of the package follows from the statement's text.
pub Executes-Serves :
    (server : Server) (classes : List Class) (supers : List (Text × Text))
    → Executes server classes supers
    → Serves server classes supers
unfolding read_query text_eq split catalog_answer class_cell vclass_cell super_cells meets value_of
    object_statement view_statement table_statement table_names_statement view_names_statement
    definition_statement comment_statement super_statement sub_statement super_name_statement
    sub_names_statement
Executes-Serves server classes supers e = record {
  objects = λ n.
      e object_statement (some n) _ _ refl refl
      ∙ ap (λ k. ok ((number k ∷ []) ∷ []))
          (count_same _ _ classes (λ c. user_test (named n c) c.is_system));
  views = λ n.
      e view_statement (some n) _ _ refl refl
      ∙ ap (λ k. ok ((number k ∷ []) ∷ []))
          (count_same _ _ classes (λ c. vclass_test (named n c) c.is_system c.is_vclass));
  tables = λ n.
      e table_statement (some n) _ _ refl refl
      ∙ ap (λ k. ok ((number k ∷ []) ∷ []))
          (count_same _ _ classes (λ c. class_test (named n c) c.is_system c.is_vclass));
  table_names =
      e table_names_statement none _ _ refl refl
      ∙ ap ok (selected_same _ _ _ classes (λ c. class_test true c.is_system c.is_vclass));
  view_names =
      e view_names_statement none _ _ refl refl
      ∙ ap ok (selected_same _ _ _ classes (λ c. vclass_test true c.is_system c.is_vclass));
  definitions = λ n.
      e definition_statement (some n) _ _ refl refl
      ∙ ap ok (
          selected_twice _ _ _ classes
          ∙ selected_same _ _ _ classes (λ c. ap (λ b. b && c.is_vclass) (and_true (named n c))));
  comments = λ n.
      e comment_statement (some n) _ _ refl refl
      ∙ ap ok (selected_same _ _ _ classes (λ c. user_test (named n c) c.is_system));
  super_classes = λ n.
      e super_statement (some n) _ _ refl refl
      ∙ ap ok (selected_same _ _ _ supers (λ l. and_true (text_eq n l.0)));
  sub_classes = λ n.
      e sub_statement (some n) _ _ refl refl
      ∙ ap ok (selected_same _ _ _ supers (λ l. and_true (text_eq n l.1)));
  super_names = λ n.
      e super_name_statement (some n) _ _ refl refl
      ∙ ap ok (selected_same _ _ _ supers (λ l. and_true (text_eq n l.0)));
  sub_names = λ n.
      e sub_names_statement (some n) _ _ refl refl
      ∙ ap ok (selected_same _ _ _ supers (λ l. and_true (text_eq n l.1)));
}
