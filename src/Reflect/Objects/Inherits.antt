-- ===== src/Reflect/Objects/Inherits.antt =====
-- Super and sub classes as sqlalchemy_cubrid/inheritance.py and sqlalchemy_cubrid/dialect.py read them
-- from db_direct_super_class.
use sqlalchemy_cubrid.Reflect.Objects.{
  get_super_class_name, get_sub_class_names, Cell, text, Row, Server, fetchone, first_cells,
  get_super_class, get_sub_classes,
}
use sqlalchemy_cubrid.Reflect.Objects.Served.{Class, Executes}
use sqlalchemy_cubrid.Reflect.Objects.Query.{selected}
use sqlalchemy_cubrid.Reflect.Objects.Executed.{Executes-Serves}
use sqlalchemy_cubrid.Reflect.Objects.Laws.{any, first_cells-selected, one_of-selected}
use sqlalchemy_cubrid.Prelude.Dict.{IsUnique, keys, lookup}
use sqlalchemy_cubrid.Prelude.{
  ◌≡◌, refl, ap, ◌∙◌, Bool, false, ◌&&◌, Option, none, some, List, [], ◌∷◌, map, Text, text_eq,
  text_eq_iff, text_eq_comm, one_of, lower, Result, ok, arith, ◌>>=◌,
}

-- The answer names the class.
abbrev pub names_class : Text → Option Text → Bool
names_class p none = false
names_class p (some q) = text_eq p q

abbrev pub super_cell : Option Text → Option Cell
super_cell none = none
super_cell (some q) = some (text q)

-- The end of `get_super_class`.
abbrev super_of : List Row → Result (Option Cell)
super_of rows = elim (fetchone rows) [
  | none ↦ ok none
  | some row ↦ elim row [ [] ↦ ok none | c ∷ cs ↦ ok (some c) ]
]

super_of-selected :
    (n : Text) (supers : List (Text × Text))
    → super_of (selected (λ l. text_eq n l.0) (λ l. text l.1 ∷ []) supers)
      ≡ ok (super_cell (lookup n supers))
unfolding selected lookup
super_of-selected n [] = refl
super_of-selected n ((c, q) ∷ supers) =
    rw (text_eq_comm n c) (ground (arith, super_of-selected n supers))

-- Without its name among the classes, a class is nowhere in the answer.
any_absent :
    (n p : Text) (supers : List (Text × Text))
    → one_of n (keys supers) ≡ false
    → any (λ l. text_eq n l.0 && text_eq p l.1) supers ≡ false
unfolding any one_of
any_absent n p [] h = refl
any_absent n p ((c, q) ∷ supers) h = ground (arith, any_absent n p supers)

any-lookup :
    (n p : Text) (supers : List (Text × Text))
    → IsUnique (keys supers)
    → any (λ l. text_eq n l.0 && text_eq p l.1) supers ≡ names_class p (lookup n supers)
unfolding any lookup
any-lookup n p [] h = refl
any-lookup n p ((c, q) ∷ supers) (hc, h) =
    ground (arith, text_eq_iff n c, text_eq_iff c n, any_absent n p supers, any-lookup n p supers h)

-- On a server that executes the statements, and under single inheritance, the two queries say the same: `get_sub_classes` of a class returns a list of
-- names, and for every table the one that `get_super_class` returns is that class exactly if the list
-- has the table's lower-case name. The methods of the dialect, with their own statements, return the
-- same.
pub get_sub_classes-get_super_class :
    (server : Server) (classes : List Class) (supers : List (Text × Text)) (parent : Text)
    → Executes server classes supers
    → IsUnique (keys supers)
    → (subs : List Text) × (get_sub_classes server parent ≡ ok (map text subs))
      × (get_sub_class_names server parent ≡ ok (map text subs))
      × ((child : Text)
          → (q : Option Text) × (get_super_class server child ≡ ok (super_cell q))
            × (get_super_class_name server child ≡ ok (super_cell q))
            × (one_of (lower child) subs ≡ names_class (lower parent) q))
unfolding get_sub_classes get_super_class get_sub_class_names get_super_class_name
get_sub_classes-get_super_class server classes supers parent e h =
    let s = Executes-Serves server classes supers e in
    let subs = selected (λ l. text_eq (lower parent) l.1) (λ l. l.0) supers in
    (
      subs,
      ap (λ r. r >>= first_cells) (s.sub_classes (lower parent))
          ∙ first_cells-selected (λ l. text_eq (lower parent) l.1) (λ l. l.0) supers,
      ap (λ r. r >>= first_cells) (s.sub_names (lower parent))
          ∙ first_cells-selected (λ l. text_eq (lower parent) l.1) (λ l. l.0) supers,
      λ child. (
        lookup (lower child) supers,
        ap (λ r. r >>= super_of) (s.super_classes (lower child))
            ∙ super_of-selected (lower child) supers,
        ap (λ r. r >>= super_of) (s.super_names (lower child))
            ∙ super_of-selected (lower child) supers,
        one_of-selected (λ l. text_eq (lower parent) l.1) (λ l. l.0) (lower child) supers
            ∙ any-lookup (lower child) (lower parent) supers h,
      ),
    )
