-- ===== src/Collection/Wire.antt =====
-- `_CollectionType._parse_collection_bytes` of sqlalchemy_cubrid/types.py: the driver's raw value of
-- a SET, MULTISET or SEQUENCE column, `type (4 bytes) + count (4 bytes) + elements`. The proofs
-- are in the modules below this one.
pub mod Suffix
pub mod Encode
use sqlalchemy_cubrid.Collection.Utf8.{decode}
use sqlalchemy_cubrid.Prelude.{
  ℕ, zero, suc, ◌+◌, ◌-◌, ◌*◌, min, Bool, true, false, Option, none, some, List, [], ◌∷◌, ◌++◌,
  Text, Result, ok, err, index_error, struct_error, ◌>>=◌, length, get_elem?, take, drop, leb, ltb,
  ◌==◌, if◌then◌else◌,
}

abbrev pub Bytes : Type 0
Bytes = List ℕ

-- `data[i]`
unfoldable pub byte_at : Bytes → ℕ → Result ℕ
byte_at bs i = elim (get_elem? bs i) [ none ↦ err index_error | some b ↦ ok b ]

-- `struct.unpack_from("<I", data, offset)[0]`
unfoldable pub unpack_from : Bytes → ℕ → Result ℕ
unpack_from bs offset = elim (drop offset bs) [
  | a ∷ b ∷ c ∷ d ∷ _ ↦ ok (a + 0x100 * b + 0x10000 * c + 0x1000000 * d)
  | _ ↦ err struct_error
]

-- The text of an element: `size` counts a terminator that the last element may lack.
unfoldable pub element : Bytes → ℕ → ℕ → Text
element bs offset size =
    let available = length bs - offset in
    if ltb 1 size then decode (take (min (size - 1) available) (drop offset bs)) else []

-- Where the next element begins; the flag tells that this one is the last.
unfoldable pub next_offset : Bytes → ℕ → ℕ → Bool → ℕ
next_offset bs offset size is_last =
    offset + min size (length bs - offset) + (if is_last then 0 else 3)

-- The loop `for i in range(count)`, by the rounds that are left: the round is the last if none
-- follows it.
unfoldable pub read_elements : Bytes → ℕ → ℕ → List Text → Result (List Text)
unfolding byte_at element next_offset
read_elements bs zero offset results = ok results
read_elements bs (suc left) offset results = elim (leb (length bs) offset) [
  | true ↦ ok results
  | false ↦ elim (byte_at bs offset) [
    | err e ↦ err e
    | ok size ↦
        read_elements bs left (next_offset bs (offset + 1) size (left == 0))
          (results ++ element bs (offset + 1) size ∷ [])
  ]
]

-- The whole parser on `bytes`; `none` is Python's `None`.
unfoldable pub parse_bytes : Bytes → Result (Option (List Text))
unfolding unpack_from read_elements
parse_bytes bs =
    if ltb (length bs) 8
    then ok none
    else do count ← unpack_from bs 4; results ← read_elements bs count 8 []; ok (some results)
