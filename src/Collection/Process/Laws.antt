-- ===== src/Collection/Process/Laws.antt =====
-- What the result processors of sqlalchemy_cubrid/types.py return.
use sqlalchemy_cubrid.Collection.Utf8
use sqlalchemy_cubrid.Collection.Wire.{Bytes}
use sqlalchemy_cubrid.Collection.Wire.Encode.{encode_collection, Fits, parse_bytes-encode}
use sqlalchemy_cubrid.Collection.Wire.Suffix.{
  length-read_suffix, count_at, read_suffix, parse_bytes-eq,
}
use sqlalchemy_cubrid.Collection.Process.{
  cubrid_set, cubrid_multiset, cubrid_list, err, some, collect, Kind, parse_collection_bytes,
  Option, fallback, process, none, parse_bytes, Value, none_value, str, bytes, bytearray, set_value,
  list_value, iterable, other, Item, str_item, item_str, str_set, str_list, to_set, process_set,
  process_multiset, process_list, make_set,
}
use sqlalchemy_cubrid.Prelude.Dict.{IsUnique}
use sqlalchemy_cubrid.Prelude.{
  length-drop, ◌>>=◌, drop, ◌⊎◌, inr, ◌∙◌, inl, ltb, Bool-cases, ◌≤◌, text_eq_iff, Text, [], ◌∷◌,
  one_of, ℕ, length, ◌<◌, ◌^◌, Bool, ◌≡◌, refl, List, map, Result, ok, arith, All,
}

-- The value of a column whose elements are `ss`, in the wire format.
abbrev pub wire : ℕ → Bool → List Text → Value
wire tag t ss = bytes (encode_collection tag t (map Utf8.encode ss))

to_set-IsUnique : (xs : List Text) → IsUnique (to_set xs)
unfolding to_set
to_set-IsUnique [] = tt
to_set-IsUnique (x ∷ xs) = ground (arith, to_set-IsUnique xs)

pub one_of-to_set : (y : Text) (xs : List Text) → one_of y (to_set xs) ≡ one_of y xs
unfolding to_set one_of
one_of-to_set y [] = refl
one_of-to_set y (x ∷ xs) = ground (arith, one_of-to_set y xs, one_of-to_set x xs, text_eq_iff y x)

-- From the wire form of texts that fit it, `CubridSet` returns a set without duplicates that has
-- exactly these elements, and `CubridMultiset` and `CubridList` return the texts in their order,
-- duplicates kept.
pub process-wire :
    (tag : ℕ) (t : Bool) (ss : List Text)
    → All Fits ss
    → length ss < 2 ^ 32
    → (process_set (wire tag t ss) ≡ ok (str_set (to_set ss)))
      × IsUnique (to_set ss)
      × ((s : Text) → one_of s (to_set ss) ≡ one_of s ss)
      × (process_multiset (wire tag t ss) ≡ ok (str_list ss))
      × (process_list (wire tag t ss) ≡ ok (str_list ss))
unfolding process_set process_multiset process_list
process-wire tag t ss h n =
    let (_, e) = parse_bytes-encode tag t ss h n in
    (rw e, to_set-IsUnique ss, λ s. one_of-to_set s ss, rw e, rw e)

-- Any bytes at all are read without an exception: the three processors agree on the elements,
-- `CubridSet` up to duplicates, and there are no more of them than bytes.
pub process-bytes :
    (bs : Bytes)
    → (xs : List Text) × (process_list (bytes bs) ≡ ok (str_list xs))
      × (process_multiset (bytes bs) ≡ ok (str_list xs))
      × (process_set (bytes bs) ≡ ok (str_set (to_set xs)))
      × (length xs ≤ length bs)
unfolding process_set process_multiset process_list to_set
process-bytes bs = elim (Bool-cases (ltb (length bs) 8)) [
  | inl e ↦
      let p : parse_bytes bs ≡ ok none = parse_bytes-eq bs ∙ rw e in
      ([], rw p, rw p, rw p, omega arith)
  | inr e ↦
      let xs = read_suffix (count_at (drop 4 bs)) (drop 8 bs) in
      let p : parse_bytes bs ≡ ok (some xs) = parse_bytes-eq bs ∙ rw e in
      (
        xs,
        rw p,
        rw p,
        rw p,
        omega (arith, length-read_suffix (count_at (drop 4 bs)) (drop 8 bs), length-drop 8 bs),
      )
]

fallback_shape :
    (make : List Text → Value) (v : Value) {w : Value}
    → fallback make v ≡ ok w
    → (xs : List Text) × (w ≡ make xs)
unfolding fallback
fallback_shape make (bytes bs) h = ([], cc)
fallback_shape make (bytearray bs) h = ([], cc)
fallback_shape make none_value h = cc
fallback_shape make other h = cc
fallback_shape make (str s) h = (map (λ c. c ∷ []) s, cc)
fallback_shape make (set_value xs) h = (map item_str xs, cc)
fallback_shape make (list_value xs) h = (map item_str xs, cc)
fallback_shape make (iterable xs) h = (map item_str xs, cc)

collect_shape :
    (make : List Text → Value) (v : Value) (r : Result (Option (List Text))) {w : Value}
    → (r >>= collect make v) ≡ ok w
    → (xs : List Text) × (w ≡ make xs)
collect_shape make v (ok (some xs)) h = (xs, cc)
collect_shape make v (ok none) h = fallback_shape make v h
collect_shape make v (err e) h = cc

-- A processed value is `None` or a collection of the column's kind.
abbrev pub Settled : (List Item → Value) → Value → Type 0
Settled make w = (w ≡ none_value) ⊎ ((xs : List Item) × (w ≡ make xs))

process_set_shape : (v : Value) {w : Value} → process_set v ≡ ok w → Settled set_value w
unfolding process_set
process_set_shape none_value h = inl cc
process_set_shape (set_value xs) h = inr (xs, cc)
process_set_shape v h =
    let (xs, e) = collect_shape make_set v (parse_collection_bytes v) h in
    inr (map str_item (to_set xs), e)

process_list_shape : (v : Value) {w : Value} → process_list v ≡ ok w → Settled list_value w
unfolding process_list
process_list_shape none_value h = inl cc
process_list_shape (list_value xs) h = inr (xs, cc)
process_list_shape v h =
    let (xs, e) = collect_shape str_list v (parse_collection_bytes v) h in inr (map str_item xs, e)

process_multiset_shape : (v : Value) {w : Value} → process_multiset v ≡ ok w → Settled list_value w
unfolding process_multiset
process_multiset_shape none_value h = inl cc
process_multiset_shape (list_value xs) h = inr (xs, cc)
process_multiset_shape v h =
    let (xs, e) = collect_shape str_list v (parse_collection_bytes v) h in inr (map str_item xs, e)

process_set-Settled : (w : Value) → Settled set_value w → process_set w ≡ ok w
unfolding process_set
process_set-Settled w (inl e) = rw e
process_set-Settled w (inr (xs, e)) = rw e

process_list-Settled :
    (w : Value) → Settled list_value w → (process_list w ≡ ok w) × (process_multiset w ≡ ok w)
unfolding process_list process_multiset
process_list-Settled w (inl e) = (rw e, rw e)
process_list-Settled w (inr (xs, e)) = (rw e, rw e)

-- A value that a result processor returned, the same processor returns unchanged.
pub process_idem : (k : Kind) (v w : Value) → process k v ≡ ok w → process k w ≡ ok w
unfolding process
process_idem cubrid_set v w h = process_set-Settled w (process_set_shape v h)
process_idem cubrid_multiset v w h = (process_list-Settled w (process_multiset_shape v h)).1
process_idem cubrid_list v w h = (process_list-Settled w (process_list_shape v h)).0

-- The Python type of the values in a column of each kind.
abbrev pub python_type : Kind → List Item → Value
python_type cubrid_set = set_value
python_type cubrid_multiset = list_value
python_type cubrid_list = list_value

-- Whatever the driver hands over, a result processor that returns gives `None` or a value of the
-- kind's Python type (`set` for SET, `list` for MULTISET and LIST), and gives the same value again
-- when it is given that value.
pub process-Settled :
    (k : Kind) (v w : Value) → process k v ≡ ok w → Settled (python_type k) w × (process k w ≡ ok w)
unfolding process
process-Settled cubrid_set v w h = (process_set_shape v h, process_idem cubrid_set v w h)
process-Settled cubrid_multiset v w h =
    (process_multiset_shape v h, process_idem cubrid_multiset v w h)
process-Settled cubrid_list v w h = (process_list_shape v h, process_idem cubrid_list v w h)
