-- ===== src/Collection/Process.antt =====
-- The values around the parser in sqlalchemy_cubrid/types.py: what the driver hands over, the
-- `str` case of `_parse_collection_bytes`, and the `result_processor` of each collection type.
pub mod Laws
pub mod Sets
use sqlalchemy_cubrid.Collection.Wire.{Bytes, parse_bytes}
use sqlalchemy_cubrid.Prelude.{
  ℤ, show_int, ℕ, Bool, true, false, not, Option, none, some, List, [], ◌∷◌, map, ◌≡◌, refl, Text,
  Result, ok, err, type_error, unicode_encode_error, ◌>>=◌, leb, text_eq, one_of, if◌then◌else◌,
}

-- An item of a container: a `str`, an `int`, or anything else, with what `str` makes of it.
pub data Item : Type 0 where
  str_item : Text → Item
  int_item : ℤ → Item
  object_item : Text → Item

-- `str(v)`
unfoldable pub item_str : Item → Text
unfolding show_int
item_str (str_item s) = s
item_str (int_item n) = show_int n
item_str (object_item s) = s

-- A Python value as the processors tell them apart. `iterable` is any other object that can be
-- iterated, `other` one that cannot.
pub data Value : Type 0 where
  none_value : Value
  str : Text → Value
  bytes : Bytes → Value
  bytearray : Bytes → Value
  set_value : List Item → Value
  list_value : List Item → Value
  iterable : List Item → Value
  other : Value

-- `raw.encode("latin-1")`
unfoldable pub encode_latin1 : Text → Result Bytes
encode_latin1 [] = ok []
encode_latin1 (c ∷ s) = elim (leb c 0xff) [
  | true ↦ do bs ← encode_latin1 s; ok (c ∷ bs)
  | false ↦ err unicode_encode_error
]

-- `_parse_collection_bytes(raw)`; a `bytearray` is no `bytes`.
unfoldable pub parse_collection_bytes : Value → Result (Option (List Text))
unfolding encode_latin1
parse_collection_bytes (str s) = do data_bytes ← encode_latin1 s; parse_bytes data_bytes
parse_collection_bytes (bytes bs) = parse_bytes bs
parse_collection_bytes _ = ok none

-- `set(xs)` as a list without duplicates, in the order of the last occurrences.
unfoldable pub to_set : List Text → List Text
unfolding one_of
to_set [] = []
to_set (x ∷ xs) = let rest = to_set xs in if one_of x rest then rest else x ∷ rest

-- `[str(v) for v in value]`; the items of a `str` are its characters.
unfoldable pub items : Value → Result (List Text)
unfolding item_str
items (str s) = ok (map (λ c. c ∷ []) s)
items (set_value xs) = ok (map item_str xs)
items (list_value xs) = ok (map item_str xs)
items (iterable xs) = ok (map item_str xs)
items _ = err type_error

-- The last lines of a processor, past the parser: bytes that it did not take become an empty
-- collection, anything else is iterated.
unfoldable pub fallback : (List Text → Value) → Value → Result Value
unfolding items
fallback make (bytes bs) = ok (make [])
fallback make (bytearray bs) = ok (make [])
fallback make v = do xs ← items v; ok (make xs)

abbrev pub collect : (List Text → Value) → Value → Option (List Text) → Result Value
collect make v (some xs) = ok (make xs)
collect make v none = fallback make v

-- Containers of `str` values.
abbrev pub str_set : List Text → Value
str_set xs = set_value (map str_item xs)

abbrev pub str_list : List Text → Value
str_list xs = list_value (map str_item xs)

-- What `CubridSet` builds from its elements.
abbrev pub make_set : List Text → Value
make_set xs = str_set (to_set xs)

-- `CubridSet.result_processor`
unfoldable pub process_set : Value → Result Value
unfolding parse_collection_bytes fallback
process_set none_value = ok none_value
process_set (set_value xs) = ok (set_value xs)
process_set v = do parsed ← parse_collection_bytes v; collect make_set v parsed

-- `CubridMultiset.result_processor`
unfoldable pub process_multiset : Value → Result Value
unfolding parse_collection_bytes fallback
process_multiset none_value = ok none_value
process_multiset (list_value xs) = ok (list_value xs)
process_multiset v = do parsed ← parse_collection_bytes v; collect str_list v parsed

-- `CubridList.result_processor`
unfoldable pub process_list : Value → Result Value
unfolding parse_collection_bytes fallback
process_list none_value = ok none_value
process_list (list_value xs) = ok (list_value xs)
process_list v = do parsed ← parse_collection_bytes v; collect str_list v parsed

-- `_CollectionType.bind_processor`
unfoldable pub process_bind : Value → Value
process_bind none_value = none_value
process_bind v = v

-- The collection classes.
pub data Kind : Type 0 where
  cubrid_set cubrid_multiset cubrid_list : Kind

-- `result_processor` of the class.
unfoldable pub process : Kind → Value → Result Value
unfolding process_set process_multiset process_list
process cubrid_set = process_set
process cubrid_multiset = process_multiset
process cubrid_list = process_list
