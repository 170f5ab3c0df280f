-- ===== src/Resolve/Total.antt =====
-- `_resolve_type` of sqlalchemy_cubrid/dialect.py returns a type for every string.
use sqlalchemy_cubrid.Prelude.{
  ◌≡◌, refl, ◌⊎◌, inl, inr, Bool, true, false, Option, none, some, List, [], ◌∷◌, map, Text, codes,
  split, strip, upper, text_eq, one_of, ℤ, parse_int, parse_int-Caught, Caught, >>=-Caught, Result,
  ok, err, value_error, ◌>>=◌, Bool-cases, Option-cases, if◌then◌else◌,
}
use sqlalchemy_cubrid.Resolve.{
  precision, num, TypeClass, Arg, txt, default_element, null_type, instance_of, type_map,
  lookup_type, collection_bases, sized_bases, parse_parts, type_args, construct, or_default,
  resolve_type,
}
use sqlalchemy_cubrid.Resolve.Pattern.{match_type, find_quoted}

parse_parts-Caught : (xs : List Text) → Caught (parse_parts xs)
unfolding parse_parts
parse_parts-Caught [] = inl ([], refl)
parse_parts-Caught (x ∷ xs) =
    >>=-Caught (parse_int (strip x)) _ (parse_int-Caught (strip x))
      λ n. >>=-Caught (parse_parts xs) _ (parse_parts-Caught xs) λ ns. inl (n ∷ ns, refl)

if-Caught :
    {A : Type 0} (b : Bool) (r q : Result A) → Caught r → Caught q → Caught (if b then r else q)
if-Caught true r q h k = h
if-Caught false r q h k = k

int-Caught : (f : ℤ → Arg) (p : Text) → Caught (do n ← parse_int p; ok (f n ∷ []))
int-Caught f p = >>=-Caught (parse_int p) _ (parse_int-Caught p) λ n. inl (f n ∷ [], refl)

ok-Caught : {A : Type 0} (a : A) → Caught (ok a)
ok-Caught a = inl (a, refl)

type_args-Caught : (base : Text) (params : Option Text) → Caught (type_args base params)
unfolding type_args
type_args-Caught base none =
    if-Caught (one_of base collection_bases) _ _ (ok-Caught (txt default_element ∷ []))
      (ok-Caught [])
type_args-Caught base (some p) =
    if-Caught (one_of base collection_bases) _ _ (ok-Caught (txt p ∷ [])) (
      if-Caught (one_of base (codes "NUMERIC" ∷ codes "DECIMAL" ∷ [])) _ _
        (>>=-Caught (parse_parts (split b',' p)) _ (parse_parts-Caught (split b',' p))
          λ ns. ok-Caught (map num ns))
        (if-Caught (one_of base sized_bases) _ _ (int-Caught num p) (
          if-Caught (text_eq base (codes "ENUM")) _ _ (ok-Caught (map txt (find_quoted none p))) (
            if-Caught (one_of base (codes "FLOAT" ∷ codes "REAL" ∷ [])) _ _ (int-Caught precision p)
              (if-Caught (text_eq base (codes "DOUBLE")) _ _ (ok-Caught []) (
                if-Caught (one_of base (codes "BIT" ∷ codes "BIT VARYING" ∷ [])) _ _
                  (int-Caught num p) (ok-Caught [])))))))

module _ (accepts : TypeClass → List Arg → Bool)
    (bare : (cls : TypeClass) → accepts cls [] ≡ true) where
  or_default-total :
      (cls : TypeClass) (r : Result (List Arg))
      → Caught r
      → (args : List Arg) × (or_default accepts cls (do a ← r; construct accepts cls a)
          ≡ ok (instance_of cls args))
  unfolding or_default
  or_default-total cls (err value_error) h = ([], rw (bare cls))
  or_default-total cls (err e) (inl (a, p)) = cc
  or_default-total cls (err e) (inr p) = cc
  or_default-total cls (ok a) h = elim (Bool-cases (accepts cls a)) [
    | inl e ↦ (a, rw e)
    | inr n ↦ ([], rw (n, bare cls))
  ]

  -- Where every class can be called without arguments, each string resolves, without an exception, to
  -- `NullType` or to an instance of the class that `_type_map` has for its base name.
  pub resolve_type_total :
      (s : Text)
      → (resolve_type accepts s ≡ ok null_type)
        ⊎ ((name : Text) × (params : Option Text) × (cls : TypeClass) × (args : List Arg)
            × (match_type s ≡ some (name, params))
            × (lookup_type (upper (strip name)) type_map ≡ some cls)
            × (resolve_type accepts s ≡ ok (instance_of cls args)))
  unfolding resolve_type
  resolve_type_total s = elim (Option-cases (match_type s)) [
    | inl e ↦ inl (rw (e, resolve_type))
    | inr ((name, params), e) ↦ elim (Option-cases (lookup_type (upper (strip name)) type_map)) [
      | inl f ↦ inl (rw (e, resolve_type) (rw f))
      | inr (cls, f) ↦
          let (args, g) =
            or_default-total cls (type_args (upper (strip name)) params)
              (type_args-Caught _ params) in
          inr (name, params, cls, args, e, f, rw (e, resolve_type) (rw f g))
    ]
  ]
