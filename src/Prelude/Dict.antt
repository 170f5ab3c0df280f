-- ===== src/Prelude/Dict.antt =====
-- A `dict` with text keys, as a list of entries in the order of their insertion.
use mathlib.Core.List.{foldl}
use sqlalchemy_cubrid.Prelude.{
  ◌&&◌, not, true, Bool, ap, text_eq_comm, ◌∙◌, ◌≡◌, refl, false, ◌||◌, Option, none, some, List,
  [], ◌∷◌, map, arith, Text, text_eq, text_eq_iff, one_of, if◌then◌else◌,
}

-- `d.get(k)`
unfoldable pub lookup : {V : Type 0} → Text → List (Text × V) → Option V
lookup k [] = none
lookup k ((j, v) ∷ m) = if text_eq j k then some v else lookup k m

-- `if k not in d: d[k] = new` and then a change of `d[k]`.
unfoldable pub upsert : {V : Type 0} → Text → V → (V → V) → List (Text × V) → List (Text × V)
upsert k new change [] = (k, change new) ∷ []
upsert k new change ((j, v) ∷ m) =
    if text_eq j k then (j, change v) ∷ m else (j, v) ∷ upsert k new change m

-- `list(d)` and `list(d.values())`
abbrev pub keys : {V : Type 0} → List (Text × V) → List Text
keys m = map (λ e. e.0) m

abbrev pub values : {V : Type 0} → List (Text × V) → List V
values m = map (λ e. e.1) m

abbrev pub or_new : {V : Type 0} → V → Option V → V
or_new new none = new
or_new new (some v) = v

pub lookup-upsert :
    {V : Type 0} (k j : Text) (new : V) (change : V → V) (m : List (Text × V))
    → lookup j (upsert k new change m)
      ≡ (if text_eq k j then some (change (or_new new (lookup k m))) else lookup j m)
unfolding lookup upsert
lookup-upsert k j new change [] = refl
lookup-upsert k j new change ((i, v) ∷ m) =
    ground
      (arith, text_eq_iff k j, text_eq_iff i k, text_eq_iff i j, lookup-upsert k j new change m)

-- No name stands twice.
abbrev pub IsUnique : List Text → Type 0
IsUnique [] = Unit
IsUnique (x ∷ xs) = (one_of x xs ≡ false) × IsUnique xs

unfoldable pub are_unique : List Text → Bool
unfolding one_of
are_unique [] = true
are_unique (x ∷ xs) = not (one_of x xs) && are_unique xs

pub are_unique-IsUnique : (xs : List Text) → are_unique xs ≡ true → IsUnique xs
unfolding are_unique
are_unique-IsUnique [] h = tt
are_unique-IsUnique (x ∷ xs) h = (ground arith, are_unique-IsUnique xs (ground arith))

pub one_of-upsert :
    {V : Type 0} (k j : Text) (new : V) (change : V → V) (m : List (Text × V))
    → one_of j (keys (upsert k new change m)) ≡ (text_eq j k || one_of j (keys m))
unfolding upsert one_of
one_of-upsert k j new change [] = refl
one_of-upsert k j new change ((i, v) ∷ m) =
    ground
      (arith, text_eq_iff i k, text_eq_iff j k, text_eq_iff j i, one_of-upsert k j new change m)

pub upsert-IsUnique :
    {V : Type 0} (k : Text) (new : V) (change : V → V) (m : List (Text × V))
    → IsUnique (keys m)
    → IsUnique (keys (upsert k new change m))
unfolding upsert one_of
upsert-IsUnique k new change [] h = (refl, tt)
upsert-IsUnique k new change ((i, v) ∷ m) (hi, h) =
    ground
      (arith, text_eq_iff i k, one_of-upsert k i new change m, upsert-IsUnique k new change m h)

-- `d[k] = v`
unfoldable pub set_item : {V : Type 0} → Text → V → List (Text × V) → List (Text × V)
unfolding upsert
set_item k v m = upsert k v (λ w. v) m

-- `dict(pairs)`
unfoldable pub dict_of : {V : Type 0} → List (Text × V) → List (Text × V)
unfolding set_item
dict_of pairs = foldl (λ m p. set_item p.0 p.1 m) [] pairs

lookup-absent :
    {V : Type 0} (k : Text) (m : List (Text × V)) → one_of k (keys m) ≡ false → lookup k m ≡ none
unfolding lookup one_of
lookup-absent k [] h = refl
lookup-absent k ((j, v) ∷ m) h = ground (arith, text_eq_comm j k, lookup-absent k m)

abbrev or_earlier : {V : Type 0} → Option V → Option V → Option V
or_earlier none earlier = earlier
or_earlier (some v) earlier = some v

or_earlier-none : {V : Type 0} (o : Option V) → or_earlier o none ≡ o
or_earlier-none none = refl
or_earlier-none (some v) = refl

lookup-set_items :
    {V : Type 0} (k : Text) (m pairs : List (Text × V))
    → IsUnique (keys pairs)
    → lookup k (foldl (λ d p. set_item p.0 p.1 d) m pairs)
      ≡ or_earlier (lookup k pairs) (lookup k m)
unfolding lookup set_item
lookup-set_items k m [] h = refl
lookup-set_items k m ((j, v) ∷ pairs) (new, h) =
    lookup-set_items k (set_item j v m) pairs h
    ∙ ap (or_earlier (lookup k pairs)) (lookup-upsert j k v (λ w. v) m)
    ∙ ground (arith, text_eq_iff j k, lookup-absent j pairs new)

-- A `dict` made of entries with different keys has these entries.
pub lookup-dict_of :
    {V : Type 0} (k : Text) (pairs : List (Text × V))
    → IsUnique (keys pairs)
    → lookup k (dict_of pairs) ≡ lookup k pairs
unfolding dict_of lookup
lookup-dict_of k pairs h = lookup-set_items k [] pairs h ∙ or_earlier-none (lookup k pairs)
