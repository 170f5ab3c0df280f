-- ===== src/Resolve/Names.antt =====
-- The names in `type_map` of sqlalchemy_cubrid/dialect.py as whole type strings of `_resolve_type`.
use sqlalchemy_cubrid.Resolve.{
  TypeClass, Arg, instance_of, type_map, lookup_type, collection_bases, type_args, resolve_type,
}
use sqlalchemy_cubrid.Resolve.Laws.{construct_accepted}
use sqlalchemy_cubrid.Resolve.Pattern.{match_type-name}
use sqlalchemy_cubrid.Resolve.Printed.{is_name, is_name_sound}
use sqlalchemy_cubrid.Prelude.{
  ◌∙◌, ap, ◌≡◌, refl, Bool, true, false, some, List, [], ◌∷◌, Text, text_eq, text_eq_iff, one_of,
  strip, upper, ok, subst, inl, inr, Bool-cases, ◌&&◌, none, arith,
}

-- A name that the pattern matches as a whole and that is looked up as it stands.
abbrev is_listed : Text → Bool
is_listed name = is_name name && text_eq (upper (strip name)) name

abbrev all_listed : List (Text × TypeClass) → Bool
all_listed [] = true
all_listed ((name, cls) ∷ m) = is_listed name && all_listed m

type_map_listed : all_listed type_map ≡ true
unfolding type_map upper strip text_eq
type_map_listed = refl

lookup_type-listed :
    (k : Text) (cls : TypeClass) (m : List (Text × TypeClass))
    → all_listed m ≡ true
    → lookup_type k m ≡ some cls
    → is_listed k ≡ true
unfolding lookup_type
lookup_type-listed k cls [] h e = cc
lookup_type-listed k cls ((name, c) ∷ m) h e = elim (Bool-cases (text_eq name k)) [
  | inl p ↦ subst (λ n. is_listed n ≡ true) ((text_eq_iff name k).0 p) (ground arith)
  | inr n ↦ lookup_type-listed k cls m (ground arith) (rw n at e)
]

name_args : (name : Text) → one_of name collection_bases ≡ false → type_args name none ≡ ok []
unfolding type_args
name_args name plain = rw plain refl

module _ (accepts : TypeClass → List Arg → Bool) where
  -- A name in the table that is no collection stands for its class without arguments.
  pub resolve_type-name :
      (name : Text) (cls : TypeClass)
      → lookup_type name type_map ≡ some cls
      → one_of name collection_bases ≡ false
      → accepts cls [] ≡ true
      → resolve_type accepts name ≡ ok (instance_of cls [])
  unfolding resolve_type
  resolve_type-name name cls found plain a =
      let h = lookup_type-listed name cls type_map type_map_listed found in
      let same = (text_eq_iff (upper (strip name)) name).0 (ground arith) in
      rw (match_type-name name (is_name_sound name (ground arith)), resolve_type)
        (rw (ap (λ n. lookup_type n type_map) same ∙ found) (
          construct_accepted accepts cls [] (type_args (upper (strip name)) none)
            (rw same (name_args name plain)) a))
