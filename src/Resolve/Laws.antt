-- ===== src/Resolve/Laws.antt =====
-- What `_resolve_type` of sqlalchemy_cubrid/dialect.py makes of the type strings that the server
-- prints.
use sqlalchemy_cubrid.Collection.Process.{Kind, cubrid_set, cubrid_multiset, cubrid_list}
use sqlalchemy_cubrid.Prelude.{
  ℕ, ◌≡◌, ◌≢◌, refl, ap, ◌∙◌, Bool, true, some, List, [], ◌∷◌, map, Text, codes, one_of, strip,
  upper, All, pos, parse_int-show_nat, show_nat, show_nat-ne-nil, Lacks, Result, ok, ◌>>=◌,
}
use sqlalchemy_cubrid.Resolve.{
  TypeClass, numeric, enum, collection, Arg, num, txt, instance_of, type_map, lookup_type,
  sized_bases, type_args, construct, or_default, resolve_type, get_col_spec,
}
use sqlalchemy_cubrid.Resolve.Pattern.{IsName, NoNewline, match_type-params}
use sqlalchemy_cubrid.Resolve.Printed.{
  All-one_of, is_name, is_name_sound, with_params, IsSized, sized_bases-IsSized, digits-NoNewline,
  pair_text, pair_text-ne-nil, pair_text-NoNewline, numeric_args, enum_text, find_quoted-enum_text,
  enum_text-NoNewline, enum_text-ne-nil,
}

module _ (accepts : TypeClass → List Arg → Bool) where
  resolve_type-params :
      (name params : Text) (cls : TypeClass)
      → IsName name
      → params ≢ []
      → NoNewline params
      → lookup_type (upper (strip name)) type_map ≡ some cls
      → resolve_type accepts (with_params name params)
        ≡ or_default accepts cls
            (do args ← type_args (upper (strip name)) (some params); construct accepts cls args)
  unfolding resolve_type
  resolve_type-params name params cls h n k found =
      rw (match_type-params name params h n k, resolve_type) (rw found)

  -- An accepted call makes the instance.
  pub construct_accepted :
      (cls : TypeClass) (args : List Arg) (r : Result (List Arg))
      → r ≡ ok args
      → accepts cls args ≡ true
      → or_default accepts cls (do a ← r; construct accepts cls a) ≡ ok (instance_of cls args)
  unfolding or_default
  construct_accepted cls args r e a = rw (e, a)

  resolve_type-accepted :
      (name params : Text) (cls : TypeClass) (args : List Arg)
      → is_name name ≡ true
      → params ≢ []
      → NoNewline params
      → lookup_type (upper (strip name)) type_map ≡ some cls
      → type_args (upper (strip name)) (some params) ≡ ok args
      → accepts cls args ≡ true
      → resolve_type accepts (with_params name params) ≡ ok (instance_of cls args)
  resolve_type-accepted name params cls args i n k found e a =
      resolve_type-params name params cls (is_name_sound name i) n k found
      ∙ construct_accepted cls args (type_args (upper (strip name)) (some params)) e a

  -- The DDL type of a collection column resolves to the class and the element type that it was made
  -- from, for every non-empty element type on one line that the class accepts.
  pub resolve_type-get_col_spec :
      (k : Kind) (element_type : Text)
      → element_type ≢ []
      → NoNewline element_type
      → accepts (collection k) (txt element_type ∷ []) ≡ true
      → resolve_type accepts (get_col_spec k element_type)
        ≡ ok (instance_of (collection k) (txt element_type ∷ []))
  unfolding get_col_spec upper strip lookup_type type_map type_args
  resolve_type-get_col_spec cubrid_set e n h a =
      resolve_type-accepted (codes "SET_OF") e (collection cubrid_set) _ refl n h refl refl a
  resolve_type-get_col_spec cubrid_multiset e n h a =
      resolve_type-accepted (codes "MULTISET_OF") e (collection cubrid_multiset) _ refl n h refl
        refl a
  resolve_type-get_col_spec cubrid_list e n h a =
      resolve_type-accepted (codes "SEQUENCE_OF") e (collection cubrid_list) _ refl n h refl refl a

  -- VARCHAR(n), CHAR(n) and their other names keep the length, whatever it is, on a class that
  -- accepts it.
  pub resolve_type-sized :
      (name : Text) (n : ℕ) (cls : TypeClass)
      → one_of name sized_bases ≡ true
      → lookup_type name type_map ≡ some cls
      → accepts cls (num (pos n) ∷ []) ≡ true
      → resolve_type accepts (with_params name (show_nat n))
        ≡ ok (instance_of cls (num (pos n) ∷ []))
  resolve_type-sized name n cls listed found a =
      let (i, same, args) = All-one_of IsSized sized_bases name sized_bases-IsSized listed in
      resolve_type-accepted name (show_nat n) cls (num (pos n) ∷ []) i (show_nat-ne-nil n)
        (digits-NoNewline n) (rw same found)
        (rw same (args (show_nat n) ∙ rw (parse_int-show_nat n))) a

  -- NUMERIC(p,s) and DECIMAL(p,s) keep precision and scale.
  pub resolve_type-numeric :
      (p s : ℕ)
      → accepts numeric (num (pos p) ∷ num (pos s) ∷ []) ≡ true
      → (resolve_type accepts (with_params (codes "NUMERIC") (pair_text p s))
          ≡ ok (instance_of numeric (num (pos p) ∷ num (pos s) ∷ [])))
        × (resolve_type accepts (with_params (codes "DECIMAL") (pair_text p s))
            ≡ ok (instance_of numeric (num (pos p) ∷ num (pos s) ∷ [])))
  unfolding upper strip lookup_type type_map type_args
  resolve_type-numeric p s a = (
    resolve_type-accepted (codes "NUMERIC") (pair_text p s) numeric _ refl (pair_text-ne-nil p s)
        (pair_text-NoNewline p s) refl (numeric_args (codes "NUMERIC") p s refl) a,
    resolve_type-accepted (codes "DECIMAL") (pair_text p s) numeric _ refl (pair_text-ne-nil p s)
        (pair_text-NoNewline p s) refl (numeric_args (codes "DECIMAL") p s refl) a,
  )

  -- ENUM('a','b',…) keeps its values, if there is one, and none holds a quote or a line break.
  pub resolve_type-enum :
      (v : Text) (vs : List Text)
      → All (Lacks b'\'') (v ∷ vs)
      → All NoNewline (v ∷ vs)
      → accepts enum (map txt (v ∷ vs)) ≡ true
      → resolve_type accepts (with_params (codes "ENUM") (enum_text (v ∷ vs)))
        ≡ ok (instance_of enum (map txt (v ∷ vs)))
  unfolding upper strip lookup_type type_map type_args
  resolve_type-enum v vs q n a =
      resolve_type-accepted (codes "ENUM") (enum_text (v ∷ vs)) enum _ refl (enum_text-ne-nil v vs)
        (enum_text-NoNewline (v ∷ vs) n) refl
        (ap (λ t. ok (map txt t)) (find_quoted-enum_text (v ∷ vs) q)) a

  -- The parameters that the server prints are kept: the length of VARCHAR(n), CHAR(n) and their other
  -- names, on a class that accepts it; the precision and scale of NUMERIC(p,s) and DECIMAL(p,s); the
  -- values of ENUM('a','b',…), if there is one, and none holds a quote or a line break.
  pub resolve_type-with_params :
      (name : Text) (n : ℕ) (cls : TypeClass) (p s : ℕ) (v : Text) (vs : List Text)
      → one_of name sized_bases ≡ true
      → lookup_type name type_map ≡ some cls
      → accepts cls (num (pos n) ∷ []) ≡ true
      → accepts numeric (num (pos p) ∷ num (pos s) ∷ []) ≡ true
      → All (Lacks b'\'') (v ∷ vs)
      → All NoNewline (v ∷ vs)
      → accepts enum (map txt (v ∷ vs)) ≡ true
      → (resolve_type accepts (with_params name (show_nat n))
          ≡ ok (instance_of cls (num (pos n) ∷ [])))
        × (resolve_type accepts (with_params (codes "NUMERIC") (pair_text p s))
            ≡ ok (instance_of numeric (num (pos p) ∷ num (pos s) ∷ [])))
        × (resolve_type accepts (with_params (codes "DECIMAL") (pair_text p s))
            ≡ ok (instance_of numeric (num (pos p) ∷ num (pos s) ∷ [])))
        × (resolve_type accepts (with_params (codes "ENUM") (enum_text (v ∷ vs)))
            ≡ ok (instance_of enum (map txt (v ∷ vs))))
  resolve_type-with_params name n cls p s v vs listed found sized scaled quotes lines values = (
    resolve_type-sized name n cls listed found sized,
    (resolve_type-numeric p s scaled).0,
    (resolve_type-numeric p s scaled).1,
    resolve_type-enum v vs quotes lines values,
  )
