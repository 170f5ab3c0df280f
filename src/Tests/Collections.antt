-- ===== src/Tests/Collections.antt =====
-- sqlalchemy_cubrid/types.py at concrete values.
use sqlalchemy_cubrid.Prelude.{
  drop, ltb, text_eq, if◌then◌else◌, ℕ, ◌≡◌, refl, ◌≤◌, true, false, none, some, List, [], ◌∷◌, map,
  ◌↔◌, arith, Text, codes, ok, All, length, one_of,
}
use sqlalchemy_cubrid.Prelude.Dict.{IsUnique}
use sqlalchemy_cubrid.Collection.Utf8
use sqlalchemy_cubrid.Collection.Utf8.{decode, decode-encode}
use sqlalchemy_cubrid.Collection.Wire.{parse_bytes}
use sqlalchemy_cubrid.Collection.Wire.Suffix.{parse_bytes-eq, read_suffix, count_at}
use sqlalchemy_cubrid.Collection.Wire.Encode.{encode_collection, parse_bytes-encode, IsByte}
use sqlalchemy_cubrid.Collection.Process.{
  process, process_set, process_list, process_multiset, to_set, cubrid_set, bytes, set_value,
  str_set, str_list, none_value, str,
}
use sqlalchemy_cubrid.Collection.Process.Laws.{
  process-wire, process-bytes, process_idem, process-Settled, Settled, wire,
}
use sqlalchemy_cubrid.Collection.Process.Sets.{SameMembers, set_of, process_set-wire}
use mathlib.Core.Quot

-- "é", U+20AC and U+1F600, and a text of each.
abbrev wide : Text
wide = 0xe9 ∷ 0x20ac ∷ 0x1f600 ∷ b'z' ∷ []

decode-encode_example : decode (Utf8.encode wide) ≡ wide
decode-encode_example = decode-encode wide (omega arith)

-- An interrupted sequence and a stray continuation byte.
decode_replaces : decode (0xe2 ∷ 0x82 ∷ b'a' ∷ 0x80 ∷ []) ≡ 0xfffd ∷ b'a' ∷ 0xfffd ∷ []
unfolding decode
decode_replaces = refl

abbrev tags : List Text
tags = codes "red" ∷ [] ∷ codes "red" ∷ []

parse_bytes-encode_example :
    All IsByte (encode_collection 2 false (map Utf8.encode tags))
    × (parse_bytes (encode_collection 2 false (map Utf8.encode tags)) ≡ ok (some tags))
parse_bytes-encode_example =
    parse_bytes-encode 2 false tags (unfold Utf8.encode in omega arith) (omega arith)

abbrev short : List ℕ
short = 1 ∷ 0 ∷ 0 ∷ []

parse_bytes-eq_example :
    parse_bytes short
    ≡ ok (
        if ltb (length short) 8
        then none
        else some (read_suffix (count_at (drop 4 short)) (drop 8 short)))
parse_bytes-eq_example = parse_bytes-eq short

process-wire_example :
    (process_set (wire 1 true tags) ≡ ok (str_set (to_set tags)))
    × IsUnique (to_set tags)
    × ((s : Text) → one_of s (to_set tags) ≡ one_of s tags)
    × (process_multiset (wire 1 true tags) ≡ ok (str_list tags))
    × (process_list (wire 1 true tags) ≡ ok (str_list tags))
process-wire_example = process-wire 1 true tags (unfold Utf8.encode in omega arith) (omega arith)

abbrev truncated : List ℕ
truncated = 0 ∷ 0 ∷ 0 ∷ 0 ∷ 9 ∷ 0 ∷ 0 ∷ 0 ∷ 4 ∷ b'a' ∷ []

process-bytes_example :
    (xs : List Text) × (process_list (bytes truncated) ≡ ok (str_list xs))
    × (process_multiset (bytes truncated) ≡ ok (str_list xs))
    × (process_set (bytes truncated) ≡ ok (str_set (to_set xs)))
    × (length xs ≤ length truncated)
process-bytes_example = process-bytes truncated

process_idem_example : process cubrid_set none_value ≡ ok none_value
unfolding process
process_idem_example = process_idem cubrid_set none_value none_value refl

process-Settled_example :
    Settled set_value (set_value []) × (process cubrid_set (set_value []) ≡ ok (set_value []))
process-Settled_example =
    process-Settled cubrid_set (bytes (1 ∷ [])) (set_value [])
      (unfold process process_set parse_bytes to_set in refl)

-- The same elements in another order, without the repetition, and under other type bytes.
abbrev tags_again : List Text
tags_again = [] ∷ codes "red" ∷ []

process_set-wire_example :
    (set_of (process_set (wire 1 true tags)) ≡ some (Quot.mk tags))
    × ((set_of (process_set (wire 1 true tags)) ≡ set_of (process_set (wire 2 false tags_again)))
        ↔ SameMembers tags tags_again)
process_set-wire_example =
    process_set-wire 1 2 true false tags tags_again (unfold Utf8.encode in omega arith)
      (unfold Utf8.encode in omega arith) (omega arith) (omega arith)

tags-SameMembers : SameMembers tags tags_again
unfolding one_of
tags-SameMembers s = ground arith

-- A short text falls through to its characters.
process_set_str : process_set (str (codes "ab")) ≡ ok (str_set (codes "a" ∷ codes "b" ∷ []))
unfolding process_set parse_bytes to_set text_eq
process_set_str = refl
