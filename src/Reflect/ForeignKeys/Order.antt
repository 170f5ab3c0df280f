-- ===== src/Reflect/ForeignKeys/Order.antt =====
-- The order of the entries that `get_foreign_keys` of sqlalchemy_cubrid/dialect.py returns.
use sqlalchemy_cubrid.Reflect.ForeignKeys.{
  ForeignKey, find_all, foreign_key, text_lt, insert_by_name, sort_by_name, get_foreign_keys,
}
use sqlalchemy_cubrid.Prelude.{
  zero, ◌≡◌, refl, ap, ◌∙◌, Bool, true, false, Option, some, List, [], ◌∷◌, map, arith, Text,
  text_eq, text_eq_iff, Result, ok, if◌then◌else◌,
}

text_lt_irrefl : (s : Text) → text_lt s s ≡ false
unfolding text_lt
text_lt_irrefl [] = refl
text_lt_irrefl (c ∷ s) = ground (arith, text_lt_irrefl s)

text_lt_asymm : (s t : Text) → text_lt s t ≡ true → text_lt t s ≡ false
unfolding text_lt
text_lt_asymm s [] h = cc
text_lt_asymm [] (d ∷ t) h = refl
text_lt_asymm (c ∷ s) (d ∷ t) h = ground (arith, text_lt_asymm s t)

-- No entry has a smaller name than the one in front of it.
abbrev pub IsAscending : List ForeignKey → Type 0
IsAscending [] = Unit
IsAscending (x ∷ []) = Unit
IsAscending (x ∷ y ∷ ys) = (text_lt y.name x.name ≡ false) × IsAscending (y ∷ ys)

-- The entries of one name.
unfoldable pub named : Text → List ForeignKey → List ForeignKey
named k [] = []
named k (x ∷ xs) = if text_eq x.name k then x ∷ named k xs else named k xs

insert_by_name-IsAscending :
    (x : ForeignKey) (ys : List ForeignKey) → IsAscending ys → IsAscending (insert_by_name x ys)
unfolding insert_by_name
insert_by_name-IsAscending x [] h = tt
insert_by_name-IsAscending x (y ∷ []) h = ground (arith, text_lt_asymm y.name x.name)
insert_by_name-IsAscending x (y ∷ z ∷ zs) h =
    ground (arith, text_lt_asymm y.name x.name, insert_by_name-IsAscending x (z ∷ zs))

sort_by_name-IsAscending : (xs : List ForeignKey) → IsAscending (sort_by_name xs)
unfolding sort_by_name
sort_by_name-IsAscending [] = tt
sort_by_name-IsAscending (x ∷ xs) =
    insert_by_name-IsAscending x (sort_by_name xs) (sort_by_name-IsAscending xs)

named-insert_by_name :
    (k : Text) (x : ForeignKey) (ys : List ForeignKey)
    → named k (insert_by_name x ys) ≡ named k (x ∷ ys)
unfolding insert_by_name named
named-insert_by_name k x [] = refl
named-insert_by_name k x (y ∷ ys) = ground (
  arith,
  text_eq_iff x.name k,
  text_eq_iff y.name k,
  text_lt_irrefl k,
  named-insert_by_name k x ys,
)

named-sort_by_name : (k : Text) (xs : List ForeignKey) → named k (sort_by_name xs) ≡ named k xs
unfolding sort_by_name named
named-sort_by_name k [] = refl
named-sort_by_name k (x ∷ xs) =
    named-insert_by_name k x (sort_by_name xs)
    ∙ ap (λ ys. if text_eq x.name k then x ∷ ys else ys) (named-sort_by_name k xs)

-- From any text, `get_foreign_keys` returns entries in ascending order of their names: for each name
-- those of the matches with it, all of them and in the order of the text.
pub get_foreign_keys-IsAscending :
    (schema : Option Text) (ddl : Text) (is_view : Result Bool)
    → (fks : List ForeignKey) × (get_foreign_keys schema (ok (some ddl)) is_view ≡ ok fks)
      × IsAscending fks
      × ((k : Text) → named k fks ≡ named k (map (foreign_key schema) (find_all zero ddl)))
unfolding get_foreign_keys
get_foreign_keys-IsAscending schema ddl is_view =
    let matches = map (foreign_key schema) (find_all zero ddl) in
    (
      sort_by_name matches,
      refl,
      sort_by_name-IsAscending matches,
      λ k. named-sort_by_name k matches,
    )
