-- ===== src/Collection/Process/Sets.antt =====
-- What `CubridSet.result_processor` of sqlalchemy_cubrid/types.py promises: a Python `set`, in which
-- neither the order nor the repetition of the elements on the wire is left.
use mathlib.Core.Bool.{false, Bool-set}
use mathlib.Core.Quot
use mathlib.Core.Quot.{Quot}
use sqlalchemy_cubrid.Collection.Process.{Value, set_value, str_item, item_str, to_set, process_set}
use sqlalchemy_cubrid.Collection.Process.Laws.{wire, one_of-to_set, process-wire}
use sqlalchemy_cubrid.Collection.Wire.Encode.{Fits}
use sqlalchemy_cubrid.Prelude.{
  map, refl, [], ◌∷◌, ℕ, ◌<◌, ◌^◌, length, Bool, ◌≡◌, ap, sym, ◌∙◌, ◌↔◌, Option, none, some, List,
  All, Text, one_of, Result, ok,
}

-- Every text is in both lists or in neither.
abbrev pub SameMembers : List Text → List Text → Type 0
SameMembers xs ys = (s : Text) → one_of s xs ≡ one_of s ys

-- A `set` of `str` values.
abbrev pub PySet : Type 0
PySet = Quot SameMembers

-- `s in elements`
abbrev member : Text → PySet → Bool
member s = Quot.lift Bool-set (one_of s) (λ xs ys h. h s)

-- The `set` that a run returned, of the `str` of its items.
abbrev pub set_of : Result Value → Option PySet
set_of (ok (set_value xs)) = some (Quot.mk (map item_str xs))
set_of _ = none

abbrev member_of : Text → Option PySet → Bool
member_of s none = false
member_of s (some x) = member s x

item_str-str_item : (xs : List Text) → map item_str (map str_item xs) ≡ xs
unfolding item_str
item_str-str_item [] = refl
item_str-str_item (x ∷ xs) = ap (λ ys. x ∷ ys) (item_str-str_item xs)

set_of-wire :
    (tag : ℕ) (t : Bool) (ss : List Text)
    → All Fits ss
    → length ss < 2 ^ 32
    → set_of (process_set (wire tag t ss)) ≡ some (Quot.mk ss)
set_of-wire tag t ss h n =
    ap set_of ((process-wire tag t ss h n).0)
    ∙ ap (λ xs. some (Quot.mk xs)) (item_str-str_item (to_set ss))
    ∙ ap some (Quot.sound (λ s. one_of-to_set s ss))

-- From the wire form of texts that fit it, `CubridSet` returns the set of these texts; two wire forms
-- give the same set exactly if they have the same members, in whatever order, number and format.
pub process_set-wire :
    (tag tag' : ℕ) (t t' : Bool) (ss ss' : List Text)
    → All Fits ss
    → All Fits ss'
    → length ss < 2 ^ 32
    → length ss' < 2 ^ 32
    → (set_of (process_set (wire tag t ss)) ≡ some (Quot.mk ss))
      × ((set_of (process_set (wire tag t ss)) ≡ set_of (process_set (wire tag' t' ss')))
          ↔ SameMembers ss ss')
process_set-wire tag tag' t t' ss ss' h h' n n' =
    let e = set_of-wire tag t ss h n in
    let e' = set_of-wire tag' t' ss' h' n' in
    (e, (λ p s. ap (member_of s) (sym e ∙ p ∙ e'), λ same. e ∙ ap some (Quot.sound same) ∙ sym e'))
