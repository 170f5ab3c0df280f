-- ===== src/Reflect/Groups.antt =====
-- The loops of sqlalchemy_cubrid/dialect.py that collect rows under a name in a `dict`: at the first
-- row of a name an entry is made, and each row of the name is added to it.
use mathlib.Core.List.{foldl}
use sqlalchemy_cubrid.Prelude.Dict.{
  lookup, upsert, keys, or_new, IsUnique, lookup-upsert, upsert-IsUnique,
}
use sqlalchemy_cubrid.Prelude.{
  ◌≡◌, refl, ap, ◌∙◌, Bool, true, false, Option, none, some, List, [], ◌∷◌, Text, text_eq,
  text_eq_iff, if◌then◌else◌,
}

module _ {Row V : Type 0} (name : Row → Text) (new : Row → V) (add : Row → V → V) where
  abbrev pub group_step : List (Text × V) → Row → List (Text × V)
  group_step m r = upsert (name r) (new r) (add r) m

  -- The loop over the rows.
  unfoldable pub groups : List Row → List (Text × V)
  unfolding upsert
  groups rows = foldl group_step [] rows

  -- What the rows of one name make of its entry, by a plain pass over them.
  unfoldable pub entry : Text → Option V → List Row → Option V
  entry k o [] = o
  entry k o (r ∷ rows) =
      entry k (if text_eq (name r) k then some (add r (or_new (new r) o)) else o) rows

  lookup-foldl :
      (k : Text) (m : List (Text × V)) (rows : List Row)
      → lookup k (foldl group_step m rows) ≡ entry k (lookup k m) rows
  unfolding entry
  lookup-foldl k m [] = refl
  lookup-foldl k m (r ∷ rows) =
      lookup-foldl k (group_step m r) rows
      ∙ ap (λ o. entry k o rows)
          (lookup-upsert (name r) k (new r) (add r) m ∙ same_entry (text_eq (name r) k) refl)
    where
      same_entry :
          (b : Bool)
          → text_eq (name r) k ≡ b
          → (if b then some (add r (or_new (new r) (lookup (name r) m))) else lookup k m)
            ≡ (if b then some (add r (or_new (new r) (lookup k m))) else lookup k m)
      same_entry true e =
          ap (λ j. some (add r (or_new (new r) (lookup j m)))) ((text_eq_iff (name r) k).0 e)
      same_entry false e = refl

  -- The loop builds under each name exactly the entry that the rows of this name alone make.
  pub lookup-groups : (k : Text) (rows : List Row) → lookup k (groups rows) ≡ entry k none rows
  unfolding groups
  lookup-groups k rows = lookup-foldl k [] rows ∙ unfold lookup in refl

  foldl-IsUnique :
      (m : List (Text × V)) (rows : List Row)
      → IsUnique (keys m)
      → IsUnique (keys (foldl group_step m rows))
  foldl-IsUnique m [] h = h
  foldl-IsUnique m (r ∷ rows) h =
      foldl-IsUnique (group_step m r) rows (upsert-IsUnique (name r) (new r) (add r) m h)

  -- Each name has one entry.
  pub groups-IsUnique : (rows : List Row) → IsUnique (keys (groups rows))
  unfolding groups
  groups-IsUnique rows = foldl-IsUnique [] rows tt
