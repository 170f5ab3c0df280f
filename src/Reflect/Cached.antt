-- ===== src/Reflect/Cached.antt =====
-- `has_index` and `has_sequence` of sqlalchemy_cubrid/dialect.py, with the inspector's `info_cache`.
-- The methods that they call are under SQLAlchemy's `reflection.cache`, which may write to the same
-- dictionary: they are actions on it.
pub mod Laws
use sqlalchemy_cubrid.Reflect.Constraints.{Index}
use sqlalchemy_cubrid.Prelude.Dict.{lookup, set_item}
use sqlalchemy_cubrid.Prelude.{
  Bool, true, false, ◌||◌, Option, none, some, List, [], ◌∷◌, Text, text_eq, one_of, Result, ok,
  err, Error, database_error, no_such_table,
}

-- `kw.get("info_cache")`; a key of the cache is a tuple, here in one text.
abbrev pub Cache : Type 0 → Type 0
Cache A = Option (List (Text × A))

module _ {A : Type 0} where
  -- `info_cache[cache_key]`, if there is a cache and it has the key.
  unfoldable pub cached : Text → Cache A → Option A
  unfolding lookup
  cached key none = none
  cached key (some m) = lookup key m

  -- `if info_cache is not None: info_cache[cache_key] = …`
  unfoldable pub store : Text → A → Cache A → Cache A
  unfolding set_item
  store key a none = none
  store key a (some m) = some (set_item key a m)

-- `any(idx["name"] == index_name for idx in indexes)`
unfoldable pub any_named : Text → List Index → Bool
any_named name [] = false
any_named name (i ∷ is) = text_eq i.name name || any_named name is

-- The `try` round `get_indexes`: a table that is missing or cannot be read has no indexes.
unfoldable pub indexes_or_none : Result (List Index) → Result (List Index)
indexes_or_none (ok is) = ok is
indexes_or_none (err database_error) = ok []
indexes_or_none (err no_such_table) = ok []
indexes_or_none (err e) = err e

-- The list is stored, and the answer taken from it.
unfoldable pub answer_fresh :
    Text → Text → Result (List Index) → Cache (List Index) → Result Bool × Cache (List Index)
unfolding store any_named
answer_fresh key name (err e) after = (err e, after)
answer_fresh key name (ok is) after = (ok (any_named name is), store key is after)

unfoldable pub has_index :
    (Cache (List Index) → Result (List Index) × Cache (List Index))
    → Text
    → Text
    → Cache (List Index)
    → Result Bool × Cache (List Index)
unfolding cached answer_fresh any_named indexes_or_none
has_index get_indexes key name cache = elim (cached key cache) [
  | some is ↦ (ok (any_named name is), cache)
  | none ↦ let (r, after) = get_indexes cache in answer_fresh key name (indexes_or_none r) after
]

unfoldable pub has_sequence :
    (Cache (List Text) → Result (List Text) × Cache (List Text))
    → Text
    → Text
    → Cache (List Text)
    → Result Bool × Cache (List Text)
unfolding cached store one_of
has_sequence get_names key name cache = elim (cached key cache) [
  | some names ↦ (ok (one_of name names), cache)
  | none ↦
      let (r, after) = get_names cache in
      elim r [ err e ↦ (err e, after) | ok names ↦ (ok (one_of name names), store key names after) ]
]
