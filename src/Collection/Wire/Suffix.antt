-- ===== src/Collection/Wire/Suffix.antt =====
-- The loop over offsets reads what a plain recursion on the bytes that are left reads, and no
-- access is out of range.
use sqlalchemy_cubrid.Collection.Utf8.{decode}
use mathlib.Core.Path.{ap₂}
use native.Mathlib.Numerals.{add-one}
use sqlalchemy_cubrid.Collection.Wire.{
  Bytes, byte_at, unpack_from, element, next_offset, read_elements, parse_bytes,
}
use sqlalchemy_cubrid.Prelude.{
  inr, inl, Bool-cases, dec_lt, ℕ, zero, suc, ◌+◌, ◌-◌, ◌*◌, ◌≤◌, ◌≡◌, refl, sym, ap, ◌∙◌, Bool,
  none, some, List, [], ◌∷◌, ◌++◌, append-nil, append_assoc, arith, Text, ok, length, take, drop,
  ltb, ◌==◌, if◌then◌else◌, drop-cons, drop-nil, drop-drop, take-min, drop_all, length-drop,
}

-- The elements in the bytes that are left, with no offset.
unfoldable pub read_suffix : ℕ → Bytes → List Text
read_suffix zero s = []
read_suffix (suc left) [] = []
read_suffix (suc left) (size ∷ s) =
    (if ltb 1 size then decode (take (size - 1) s) else [])
    ∷ read_suffix left (drop (size + (if left == 0 then 0 else 3)) s)

-- Elements do not outnumber the rounds or the bytes.
pub length-read_suffix :
    (left : ℕ) (s : Bytes)
    → (length (read_suffix left s) ≤ left) × (length (read_suffix left s) ≤ length s)
unfolding read_suffix
length-read_suffix zero s = omega arith
length-read_suffix (suc left) [] = omega arith
length-read_suffix (suc left) (size ∷ s) =
    let skip : ℕ = size + (if left == 0 then 0 else 3) in
    omega (arith, length-read_suffix left (drop skip s), length-drop skip s)

-- At an offset where `size ∷ s` is left, the element and the rest are those of `s`.
element_lem :
    (bs : Bytes) (offset size : ℕ) (s : Bytes)
    → drop (offset + 1) bs ≡ s
    → length bs ≡ offset + 1 + length s
    → element bs (offset + 1) size ≡ (if ltb 1 size then decode (take (size - 1) s) else [])
unfolding element
element_lem bs offset size s e n =
    rw e (ap (λ t. if ltb 1 size then decode t else []) (take-min (size - 1) _ s (omega arith)))

drop-next_offset :
    (bs : Bytes) (offset size k : ℕ) (is_last : Bool) (s : Bytes)
    → drop (offset + 1) bs ≡ s
    → length bs ≡ offset + 1 + length s
    → k ≡ (if is_last then 0 else 3)
    → drop (next_offset bs (offset + 1) size is_last) bs ≡ drop (size + k) s
unfolding next_offset
drop-next_offset bs offset size k is_last s e n ek = rw (← ek) (elim (dec_lt (length s) size) [
  | yes p ↦ drop_all _ bs (omega arith) ∙ sym (drop_all (size + k) s (omega arith))
  | no p ↦ sym (ap (drop (size + k)) (sym e) ∙ drop-drop (size + k) (offset + 1) _ bs (omega arith))
])

-- One round at an offset where a byte is left.
read_elements_step :
    (bs : Bytes) (left offset size : ℕ) (s : Bytes) (results : List Text)
    → drop offset bs ≡ size ∷ s
    → read_elements bs (suc left) offset results
      ≡ read_elements bs left
          (next_offset bs (offset + 1) size (left == 0))
          (results ++ element bs (offset + 1) size ∷ [])
unfolding read_elements byte_at
read_elements_step bs left offset size s results e =
    let (hit, _, long) = drop-cons offset bs e in ground (arith, hit, long)

read_elements_end :
    (bs : Bytes) (left offset : ℕ) (results : List Text)
    → drop offset bs ≡ []
    → read_elements bs left offset results ≡ ok results
unfolding read_elements
read_elements_end bs zero offset results e = refl
read_elements_end bs (suc left) offset results e = ground (arith, drop-nil offset bs e)

-- From any offset, with any results so far, the loop raises nothing and appends the elements of
-- the suffix.
pub read_elements-eq :
    (bs : Bytes) (left offset : ℕ) (results : List Text)
    → read_elements bs left offset results ≡ ok (results ++ read_suffix left (drop offset bs))
unfolding read_suffix
read_elements-eq bs zero offset results = unfold read_elements in ap ok (sym (append-nil results))
read_elements-eq bs (suc left) offset results = go (drop offset bs) refl (read_elements-eq bs left)
  where
    go :
        (s : Bytes)
        → drop offset bs ≡ s
        → ((o : ℕ) (rs : List Text)
            → read_elements bs left o rs ≡ ok (rs ++ read_suffix left (drop o bs)))
        → read_elements bs (suc left) offset results ≡ ok (results ++ read_suffix (suc left) s)
    go [] e ih = read_elements_end bs (suc left) offset results e ∙ ap ok (sym (append-nil results))
    go (size ∷ s) e ih =
        let (_, rest, long) = drop-cons offset bs e in
        let rest' : drop (offset + 1) bs ≡ s = rw add-one rest in
        let long' : length bs ≡ offset + 1 + length s = omega arith in
        read_elements_step bs left offset size s results e
        ∙ ih _ _
        ∙ ap ok (
            append_assoc results _ _
            ∙ ap₂ (λ t u. results ++ t ∷ u) (element_lem bs offset size s rest' long')
                (ap (read_suffix left)
                  (drop-next_offset bs offset size _ (left == 0) s rest' long' refl)))

-- What `struct.unpack_from` reads where four bytes are left.
unfoldable pub count_at : Bytes → ℕ
count_at (a ∷ b ∷ c ∷ d ∷ _) = a + 0x100 * b + 0x10000 * c + 0x1000000 * d
count_at _ = 0

unpack_from-count_at :
    (bs : Bytes) (offset : ℕ)
    → offset + 4 ≤ length bs
    → unpack_from bs offset ≡ ok (count_at (drop offset bs))
unfolding unpack_from count_at
unpack_from-count_at bs offset h = ground (arith, length-drop offset bs)

-- `_parse_collection_bytes` raises on no bytes at all. Below eight bytes it gives `None`; else it
-- gives the elements behind the header, as many as the header counts or the bytes hold.
pub parse_bytes-eq :
    (bs : Bytes)
    → parse_bytes bs
      ≡ ok (
          if ltb (length bs) 8 then none else some (read_suffix (count_at (drop 4 bs)) (drop 8 bs)))
unfolding parse_bytes
parse_bytes-eq bs = elim (Bool-cases (ltb (length bs) 8)) [
  | inl e ↦ rw e
  | inr e ↦ rw (e, unpack_from-count_at bs 4 (ground arith), read_elements-eq bs _ 8 [])
]
